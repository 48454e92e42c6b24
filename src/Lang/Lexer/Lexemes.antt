-- ===== src/Lang/Lexer/Lexemes.antt =====
-- Each lexeme, read back from its spelling.
use alkali.Prelude.{ℕ, suc, ◌+◌, ◌<◌, ◌≡◌, refl, ap, ◌∙◌, true, [], ◌∷◌, ◌++◌, some, arith, length}
use alkali.Lang.Token.{
  tok_angle_bracket_close, tok_angle_bracket_open, tok_bracket_close, tok_bracket_open, tok_char,
  tok_cmp_eq, tok_cmp_ge, tok_cmp_le, tok_code, tok_colon, tok_comma, tok_controller, tok_def,
  tok_dot, tok_else, tok_eof, tok_eq, tok_event, tok_extern, tok_generate, tok_global, tok_handler,
  tok_if, tok_minus, tok_number, tok_parenthese_close, tok_parenthese_open, tok_plus, tok_return,
  tok_sbracket_close, tok_sbracket_open, tok_scope, tok_semicolon, tok_slash, tok_star, tok_struct,
  tok_var, Text, value, tok_identifier, token_of_byte, ascii_token, same,
}
use alkali.Lang.Stream.{Lexeme, word, numeral, sign, kind}
use alkali.Lang.Lexer.Chars.{is_space, is_alpha, is_digit, is_name_char, keyword}
use alkali.Lang.Lexer.Scan.{Lexer, get_tok_input, take_symbol}
use alkali.Lang.Lexer.View.{text_source}
use alkali.Lang.Lexer.Spelling.{
  Spellable, spell, spell_token, keyword_text, all_chars-All, all_chars, All,
}
use alkali.Lang.Lexer.Words.{space}
use alkali.Lang.Lexer.Tokens.{reads-name, reads-number, reads-symbol}

-- What a lexeme leaves in the lexer as the current name and number.
unfoldable pub name_behind : Lexeme → Text → Text
unfolding keyword_text
name_behind (word s) n = s
name_behind (numeral s) n = n
name_behind (sign t) n = elim (keyword_text t) [ [] ↦ n | c ∷ s ↦ c ∷ s ]

unfoldable pub number_behind : Lexeme → Text → Text
number_behind (numeral s) n = s
number_behind _ n = n

unfoldable pub behind : Lexeme → Text → Lexer Text → Lexer Text
unfolding name_behind number_behind
behind x rest l = record l {
  identifier_str = name_behind x l.identifier_str;
  num_val = number_behind x l.num_val;
  last_char = space;
  source = rest;
}

-- A keyword, with its characters tested by computation.
reads-keyword :
    (l : Lexer Text)
    → is_space (value l.last_char) ≡ true
    → (w : Text) → All is_space w
    → (f c : ℕ) (s rest : Text) → is_alpha c ≡ true
    → all_chars is_name_char s ≡ true
    → length w + length s + 1 < f
    → get_tok_input text_source (suc f) (record l { source = w ++ (c ∷ s ++ b' ' ∷ rest) })
      ≡ some
          (keyword (c ∷ s), record l { identifier_str = c ∷ s; last_char = space; source = rest })
reads-keyword l h w hw f c s rest hc hs b =
    reads-name l h w hw f c s rest hc (all_chars-All is_name_char s hs) b

-- A token is read off the spelling of a lexeme, with white space before it and a space behind it,
-- and is that lexeme's.
pub get_tok_input-spell :
    (x : Lexeme) (rest : Text) (l : Lexer Text)
    → Spellable x
    → is_space (value l.last_char) ≡ true
    → (w : Text) → All is_space w
    → (f : ℕ) → length w + length (spell x) + 1 < f
    → get_tok_input text_source (suc f) (record l { source = w ++ (spell x ++ b' ' ∷ rest) })
      ≡ some (kind x, behind x rest l)
unfolding Spellable spell spell_token keyword_text value kind behind is_space is_alpha is_digit
    is_name_char keyword take_symbol token_of_byte ascii_token same
get_tok_input-spell (word []) rest l h ha w hw f b = absurd h.0
get_tok_input-spell (word (c ∷ s)) rest l ((hc, hs), k) ha w hw f b =
    reads-name l ha w hw f c s rest hc hs (omega arith)
    ∙ ap (λ t. some (t, record l { identifier_str = c ∷ s; last_char = space; source = rest })) k
get_tok_input-spell (numeral []) rest l h ha w hw f b = absurd h
get_tok_input-spell (numeral (c ∷ s)) rest l (hc, hs) ha w hw f b =
    reads-number l ha w hw f c s rest hc hs (omega arith)
get_tok_input-spell (sign tok_return) rest l h ha w hw f b =
    reads-keyword l ha w hw f b'r' (b'e' ∷ b't' ∷ b'u' ∷ b'r' ∷ b'n' ∷ []) rest refl refl
      (omega arith)
get_tok_input-spell (sign tok_def) rest l h ha w hw f b =
    reads-keyword l ha w hw f b'd' (b'e' ∷ b'f' ∷ []) rest refl refl (omega arith)
get_tok_input-spell (sign tok_struct) rest l h ha w hw f b =
    reads-keyword l ha w hw f b's' (b't' ∷ b'r' ∷ b'u' ∷ b'c' ∷ b't' ∷ []) rest refl refl
      (omega arith)
get_tok_input-spell (sign tok_var) rest l h ha w hw f b =
    reads-keyword l ha w hw f b'v' (b'a' ∷ b'r' ∷ []) rest refl refl (omega arith)
get_tok_input-spell (sign tok_event) rest l h ha w hw f b =
    reads-keyword l ha w hw f b'e' (b'v' ∷ b'e' ∷ b'n' ∷ b't' ∷ []) rest refl refl (omega arith)
get_tok_input-spell (sign tok_handler) rest l h ha w hw f b =
    reads-keyword l ha w hw f b'h' (b'a' ∷ b'n' ∷ b'd' ∷ b'l' ∷ b'e' ∷ b'r' ∷ []) rest refl refl
      (omega arith)
get_tok_input-spell (sign tok_controller) rest l h ha w hw f b =
    reads-keyword l ha w hw f b'c'
      (b'o' ∷ b'n' ∷ b't' ∷ b'r' ∷ b'o' ∷ b'l' ∷ b'l' ∷ b'e' ∷ b'r' ∷ []) rest refl refl
      (omega arith)
get_tok_input-spell (sign tok_generate) rest l h ha w hw f b =
    reads-keyword l ha w hw f b'g' (b'e' ∷ b'n' ∷ b'e' ∷ b'r' ∷ b'a' ∷ b't' ∷ b'e' ∷ []) rest refl
      refl (omega arith)
get_tok_input-spell (sign tok_extern) rest l h ha w hw f b =
    reads-keyword l ha w hw f b'e' (b'x' ∷ b't' ∷ b'e' ∷ b'r' ∷ b'n' ∷ []) rest refl refl
      (omega arith)
get_tok_input-spell (sign tok_global) rest l h ha w hw f b =
    reads-keyword l ha w hw f b'g' (b'l' ∷ b'o' ∷ b'b' ∷ b'a' ∷ b'l' ∷ []) rest refl refl
      (omega arith)
get_tok_input-spell (sign tok_scope) rest l h ha w hw f b =
    reads-keyword l ha w hw f b's' (b'c' ∷ b'o' ∷ b'p' ∷ b'e' ∷ []) rest refl refl (omega arith)
get_tok_input-spell (sign tok_if) rest l h ha w hw f b =
    reads-keyword l ha w hw f b'i' (b'f' ∷ []) rest refl refl (omega arith)
get_tok_input-spell (sign tok_else) rest l h ha w hw f b =
    reads-keyword l ha w hw f b'e' (b'l' ∷ b's' ∷ b'e' ∷ []) rest refl refl (omega arith)
get_tok_input-spell (sign tok_semicolon) rest l h ha w hw f b =
    reads-symbol l ha w hw f b';' (b' ' ∷ rest) (omega arith) refl refl refl refl (omega arith)
get_tok_input-spell (sign tok_parenthese_open) rest l h ha w hw f b =
    reads-symbol l ha w hw f b'(' (b' ' ∷ rest) (omega arith) refl refl refl refl (omega arith)
get_tok_input-spell (sign tok_parenthese_close) rest l h ha w hw f b =
    reads-symbol l ha w hw f b')' (b' ' ∷ rest) (omega arith) refl refl refl refl (omega arith)
get_tok_input-spell (sign tok_bracket_open) rest l h ha w hw f b =
    reads-symbol l ha w hw f b'{' (b' ' ∷ rest) (omega arith) refl refl refl refl (omega arith)
get_tok_input-spell (sign tok_bracket_close) rest l h ha w hw f b =
    reads-symbol l ha w hw f b'}' (b' ' ∷ rest) (omega arith) refl refl refl refl (omega arith)
get_tok_input-spell (sign tok_angle_bracket_open) rest l h ha w hw f b =
    reads-symbol l ha w hw f b'<' (b' ' ∷ rest) (omega arith) refl refl refl refl (omega arith)
get_tok_input-spell (sign tok_angle_bracket_close) rest l h ha w hw f b =
    reads-symbol l ha w hw f b'>' (b' ' ∷ rest) (omega arith) refl refl refl refl (omega arith)
get_tok_input-spell (sign tok_sbracket_open) rest l h ha w hw f b =
    reads-symbol l ha w hw f b'[' (b' ' ∷ rest) (omega arith) refl refl refl refl (omega arith)
get_tok_input-spell (sign tok_sbracket_close) rest l h ha w hw f b =
    reads-symbol l ha w hw f b']' (b' ' ∷ rest) (omega arith) refl refl refl refl (omega arith)
get_tok_input-spell (sign tok_colon) rest l h ha w hw f b =
    reads-symbol l ha w hw f b':' (b' ' ∷ rest) (omega arith) refl refl refl refl (omega arith)
get_tok_input-spell (sign tok_dot) rest l h ha w hw f b =
    reads-symbol l ha w hw f b'.' (b' ' ∷ rest) (omega arith) refl refl refl refl (omega arith)
get_tok_input-spell (sign tok_eq) rest l h ha w hw f b =
    reads-symbol l ha w hw f b'=' (b' ' ∷ rest) (omega arith) refl refl refl refl (omega arith)
get_tok_input-spell (sign tok_comma) rest l h ha w hw f b =
    reads-symbol l ha w hw f b',' (b' ' ∷ rest) (omega arith) refl refl refl refl (omega arith)
get_tok_input-spell (sign tok_plus) rest l h ha w hw f b =
    reads-symbol l ha w hw f b'+' (b' ' ∷ rest) (omega arith) refl refl refl refl (omega arith)
get_tok_input-spell (sign tok_minus) rest l h ha w hw f b =
    reads-symbol l ha w hw f b'-' (b' ' ∷ rest) (omega arith) refl refl refl refl (omega arith)
get_tok_input-spell (sign tok_star) rest l h ha w hw f b =
    reads-symbol l ha w hw f b'*' (b' ' ∷ rest) (omega arith) refl refl refl refl (omega arith)
get_tok_input-spell (sign tok_slash) rest l h ha w hw f b =
    reads-symbol l ha w hw f b'/' (b' ' ∷ rest) (omega arith) refl refl refl refl (omega arith)
get_tok_input-spell (sign tok_cmp_eq) rest l h ha w hw f b =
    reads-symbol l ha w hw f b'=' (b'=' ∷ b' ' ∷ rest) (omega arith) refl refl refl refl
      (omega arith)
get_tok_input-spell (sign tok_cmp_le) rest l h ha w hw f b =
    reads-symbol l ha w hw f b'<' (b'=' ∷ b' ' ∷ rest) (omega arith) refl refl refl refl
      (omega arith)
get_tok_input-spell (sign tok_cmp_ge) rest l h ha w hw f b =
    reads-symbol l ha w hw f b'>' (b'=' ∷ b' ' ∷ rest) (omega arith) refl refl refl refl
      (omega arith)
get_tok_input-spell (sign tok_eof) rest l h ha w hw f b = absurd h
get_tok_input-spell (sign tok_identifier) rest l h ha w hw f b = absurd h
get_tok_input-spell (sign tok_number) rest l h ha w hw f b = absurd h
get_tok_input-spell (sign (tok_char c)) rest l h ha w hw f b = absurd h
get_tok_input-spell (sign (tok_code n)) rest l h ha w hw f b = absurd h
