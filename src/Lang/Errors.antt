-- ===== src/Lang/Errors.antt =====
-- include/ep2/lang/Parser.h: what the parser does with an error: the places where it is reported,
-- where it is lost, and where a null pointer gets into the tree.
use alkali.Prelude.{
  ℕ, zero, suc, ◌+◌, ◌*◌, ◌<◌, ◌≡◌, refl, Bool, true, false, [], ◌∷◌, arith, length,
}
use alkali.Lang.Token.{
  Text, Token, same, tok_identifier, tok_number, tok_colon, tok_semicolon, tok_parenthese_open,
  tok_parenthese_close, tok_bracket_open, tok_sbracket_open, tok_return, tok_var, tok_if, tok_else,
  tok_handler,
}
use alkali.Lang.Ast.{Expr, return_expr, if_else, null_expr, null_block}
use alkali.Lang.Stream.{Lexemes, ok, null, word, sign, cur, next, consume, expect_id}
use alkali.Lang.Parser.Types.{parse_type}
use alkali.Lang.Parser.Exprs.{get_tok_precedence, parse_expression, primary_switch}
use alkali.Lang.Parser.Blocks.{parse_declaration, parse_return, parse_simple, parse_block, parse_if}
use alkali.Lang.Parser.Decls.{parse_prototype, parse_definition, parse_handler_atom}
use alkali.Lang.Parser.Modules.{parse_records, parse_module}
use alkali.Lang.Printer.{emit, Printable}
use alkali.Lang.RoundTrip.Operations.{paren-Follows}
use alkali.Lang.RoundTrip.Exprs.{parse_expression-emit}

-- Whether `parsePrimary` has a case for a token.
unfoldable pub starts_expression : Token → Bool
starts_expression tok_identifier = true
starts_expression tok_colon = true
starts_expression tok_number = true
starts_expression tok_parenthese_open = true
starts_expression tok_sbracket_open = true
starts_expression tok_bracket_open = true
starts_expression _ = false

primary_switch-no_start :
    (f : ℕ) (t : Token) (ts : Lexemes)
    → starts_expression t ≡ false
    → primary_switch (suc f) t ts ≡ null ts
unfolding primary_switch starts_expression
primary_switch-no_start f tok_identifier ts h = cc
primary_switch-no_start f tok_colon ts h = cc
primary_switch-no_start f tok_number ts h = cc
primary_switch-no_start f tok_parenthese_open ts h = cc
primary_switch-no_start f tok_sbracket_open ts h = cc
primary_switch-no_start f tok_bracket_open ts h = cc
primary_switch-no_start f _ ts h = refl

parse_expression-no_start :
    (f : ℕ) (ts : Lexemes)
    → 2 < f
    → starts_expression (cur ts) ≡ false
    → parse_expression f ts ≡ null ts
unfolding parse_expression
parse_expression-no_start zero ts b h = absurd (omega arith)
parse_expression-no_start (suc zero) ts b h = absurd (omega arith)
parse_expression-no_start (suc (suc zero)) ts b h = absurd (omega arith)
parse_expression-no_start (suc (suc (suc f))) ts b h = rw (primary_switch-no_start f (cur ts) ts h)

-- A declaration with `var` is never accepted: the keyword is still the current token when the type
-- is read.
pub parse_simple-var :
    (f : ℕ) (ts : Lexemes) → 0 < f → parse_simple f (sign tok_var ∷ ts) ≡ null (sign tok_var ∷ ts)
unfolding parse_simple parse_declaration parse_type cur same next expect_id
parse_simple-var zero ts b = absurd (omega arith)
parse_simple-var (suc f) ts b = refl

-- A `return` before anything else that begins no expression gives a return with a null pointer for
-- its value, which is not the return without a value.
pub parse_return-no_start :
    (f : ℕ) (ts : Lexemes)
    → 2 < f
    → starts_expression (cur ts) ≡ false
    → same (cur ts) tok_semicolon ≡ false
    → parse_simple f (sign tok_return ∷ ts) ≡ ok (return_expr null_expr) ts
unfolding parse_simple parse_return cur same next consume
parse_return-no_start f ts b h ne = rw (ne, parse_expression-no_start f ts b h)

-- Where no block follows the condition of an `if`, nor an `else`, the statement is accepted, with a
-- null pointer for its block; the condition is any printable expression.
pub parse_if-no_block :
    (f : ℕ) (e : Expr) (rest : Lexemes)
    → Printable e
    → 20 * length (emit 0 e (sign tok_parenthese_close ∷ rest)) + 5 < f
    → same (cur rest) tok_bracket_open ≡ false
    → same (cur rest) tok_else ≡ false
    → parse_if f
        (sign tok_if ∷ sign tok_parenthese_open ∷ emit 0 e (sign tok_parenthese_close ∷ rest))
      ≡ ok (if_else e null_block null_block) rest
unfolding parse_if parse_block cur same next consume get_tok_precedence
parse_if-no_block zero e rest h b nb ne = absurd (omega arith)
parse_if-no_block (suc zero) e rest h b nb ne = absurd (omega arith)
parse_if-no_block (suc (suc f)) e rest h b nb ne =
    let reads =
      parse_expression-emit e (sign tok_parenthese_close ∷ rest) (suc f) h
        (paren-Follows rest 0).closes refl (omega arith) in
    rw (reads, nb, ne)

-- A file that ends behind the name of a handler is accepted, as a module with no record.
pub parse_module-truncated :
    (name : Text) → parse_module (sign tok_handler ∷ word name ∷ []) ≡ ok [] []
unfolding parse_module parse_records parse_definition parse_prototype parse_handler_atom cur same
    next consume expect_id
parse_module-truncated name = refl
