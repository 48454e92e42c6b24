-- ===== src/Lang/Tests.antt =====
-- Runs of the front end of include/ep2/lang on small inputs.
use alkali.Lang.Lexer.View.{visible}
use alkali.Lang.Token.{
  value, Text, tok_plus, tok_star, tok_minus, tok_parenthese_open, tok_parenthese_close,
}
use alkali.Lang.Lexer.Spelling.{spell_token, spell_all, spell, keyword_text, Spellable}
use alkali.Lang.Lexer.Chars.{same_text, lookup_token, keyword, is_name_char, is_alpha}
use alkali.Lang.RoundTrip.Spelled.{Spelled, AllWords}
use alkali.Lang.RoundTrip.Files.{read_expression, read_expression-emit}
use alkali.Prelude.{◌^◌, arith, ◌≡◌, refl, [], ◌∷◌, some}
use alkali.Lang.Number.Exact.{digits, convert-digits}
use alkali.Lang.Number.{convert}
use alkali.Lang.Ast.{Expr, num, path, bin_op}
use alkali.Lang.Stream.{Lexemes, ok, word, numeral, sign, cur}
use alkali.Lang.Parser.Exprs.{get_tok_precedence, parse_expression}
use alkali.Lang.Printer.{emit, emit_dots, Printable, precedence}
use alkali.Lang.RoundTrip.Exprs.{parse_expression-emit, eof-Closes}

abbrev text_a : Text
text_a = b'a' ∷ []

abbrev text_b : Text
text_b = b'b' ∷ []

abbrev a_expr : Expr
a_expr = path text_a []

abbrev b_expr : Expr
b_expr = path text_b []

-- a * (b + 7) - a
abbrev sample : Expr
sample = bin_op tok_minus (bin_op tok_star a_expr (bin_op tok_plus b_expr (num 7))) a_expr

abbrev sample_lexemes : Lexemes
sample_lexemes =
    word text_a
    ∷ sign tok_star
    ∷ sign tok_parenthese_open
    ∷ word text_b
    ∷ sign tok_plus
    ∷ numeral (b'7' ∷ [])
    ∷ sign tok_parenthese_close
    ∷ sign tok_minus
    ∷ word text_a
    ∷ []

emit-sample : emit 0 sample [] ≡ sample_lexemes
unfolding emit digits precedence get_tok_precedence emit_dots
emit-sample = refl

sample-Printable : Printable sample
unfolding Printable precedence get_tok_precedence
sample-Printable = (refl, (refl, tt, (refl, tt, omega arith)), tt)

parse_expression-emit_example : parse_expression 200 sample_lexemes ≡ ok sample []
unfolding emit digits precedence get_tok_precedence cur emit_dots
parse_expression-emit_example =
    parse_expression-emit sample [] 200 sample-Printable eof-Closes refl (omega arith)

-- The file `a * ( b + 7 ) - a ` with the NUL character that ends it.
abbrev sample_file : Text
sample_file =
    b'a' ∷ b' ' ∷ b'*' ∷ b' ' ∷ b'(' ∷ b' ' ∷ b'b' ∷ b' ' ∷ b'+' ∷ b' ' ∷ b'7' ∷ b' ' ∷ b')' ∷ b' '
    ∷ b'-' ∷ b' ' ∷ b'a' ∷ b' ' ∷ 0 ∷ []

read_expression-emit_example : read_expression sample_file 40 300 ≡ some (ok sample [])
unfolding Spelled AllWords Spellable is_alpha is_name_char keyword lookup_token same_text precedence
    get_tok_precedence visible spell_all spell spell_token keyword_text value emit digits emit_dots
read_expression-emit_example =
    read_expression-emit sample sample_file 40 300 sample-Printable
      (
        refl,
        (refl, (((refl, tt), refl), tt), (refl, (((refl, tt), refl), tt), tt)),
        (((refl, tt), refl), tt),
      )
      refl (omega arith) (omega arith)

convert-digits_example : convert (2 ^ 31) (digits 40) ≡ some 40
convert-digits_example = convert-digits (2 ^ 31) 40 (omega arith) (omega arith)

abbrev text_ab : Text
text_ab = b'a' ∷ b'b' ∷ []
