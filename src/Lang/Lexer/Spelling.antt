-- ===== src/Lang/Lexer/Spelling.antt =====
-- How lexemes are written in a source file.
use alkali.Prelude.{ℕ, ◌≡◌, Bool, true, [], ◌∷◌, ◌++◌, ◌&&◌, and-true}
use alkali.Lang.Token.{
  Text, Token, value, tok_return, tok_def, tok_struct, tok_var, tok_event, tok_handler,
  tok_controller, tok_generate, tok_extern, tok_global, tok_scope, tok_if, tok_else, tok_identifier,
  tok_number, tok_eof, tok_cmp_eq, tok_cmp_le, tok_cmp_ge, tok_char, tok_code,
}
use alkali.Lang.Stream.{Lexeme, Lexemes, word, numeral, sign}
use alkali.Lang.Lexer.Chars.{is_alpha, is_digit, is_name_char, is_number_char, keyword}

-- The spelling of a keyword; empty for another token.
unfoldable pub keyword_text : Token → Text
keyword_text tok_return = b'r' ∷ b'e' ∷ b't' ∷ b'u' ∷ b'r' ∷ b'n' ∷ []
keyword_text tok_def = b'd' ∷ b'e' ∷ b'f' ∷ []
keyword_text tok_struct = b's' ∷ b't' ∷ b'r' ∷ b'u' ∷ b'c' ∷ b't' ∷ []
keyword_text tok_var = b'v' ∷ b'a' ∷ b'r' ∷ []
keyword_text tok_event = b'e' ∷ b'v' ∷ b'e' ∷ b'n' ∷ b't' ∷ []
keyword_text tok_handler = b'h' ∷ b'a' ∷ b'n' ∷ b'd' ∷ b'l' ∷ b'e' ∷ b'r' ∷ []
keyword_text tok_controller =
    b'c' ∷ b'o' ∷ b'n' ∷ b't' ∷ b'r' ∷ b'o' ∷ b'l' ∷ b'l' ∷ b'e' ∷ b'r' ∷ []
keyword_text tok_generate = b'g' ∷ b'e' ∷ b'n' ∷ b'e' ∷ b'r' ∷ b'a' ∷ b't' ∷ b'e' ∷ []
keyword_text tok_extern = b'e' ∷ b'x' ∷ b't' ∷ b'e' ∷ b'r' ∷ b'n' ∷ []
keyword_text tok_global = b'g' ∷ b'l' ∷ b'o' ∷ b'b' ∷ b'a' ∷ b'l' ∷ []
keyword_text tok_scope = b's' ∷ b'c' ∷ b'o' ∷ b'p' ∷ b'e' ∷ []
keyword_text tok_if = b'i' ∷ b'f' ∷ []
keyword_text tok_else = b'e' ∷ b'l' ∷ b's' ∷ b'e' ∷ []
keyword_text _ = []

unfoldable pub spell_token : Token → Text
unfolding keyword_text value
spell_token tok_cmp_eq = b'=' ∷ b'=' ∷ []
spell_token tok_cmp_le = b'<' ∷ b'=' ∷ []
spell_token tok_cmp_ge = b'>' ∷ b'=' ∷ []
spell_token t = elim (keyword_text t) [ [] ↦ value t ∷ [] | c ∷ s ↦ c ∷ s ]

unfoldable pub spell : Lexeme → Text
unfolding spell_token
spell (word s) = s
spell (numeral s) = s
spell (sign t) = spell_token t

-- Each lexeme with a space behind it.
unfoldable pub spell_all : Lexemes → Text
unfolding spell
spell_all [] = []
spell_all (x ∷ ts) = spell x ++ b' ' ∷ spell_all ts

-- Every character of a text passes a test.
abbrev pub All : (ℕ → Bool) → Text → Type 0
All p [] = Unit
All p (c ∷ s) = (p c ≡ true) × All p s

abbrev pub all_chars : (ℕ → Bool) → Text → Bool
all_chars p [] = true
all_chars p (c ∷ s) = p c && all_chars p s

pub all_chars-All : (p : ℕ → Bool) (s : Text) → all_chars p s ≡ true → All p s
all_chars-All p [] h = tt
all_chars-All p (c ∷ s) h =
    let (hc, hs) = and-true (p c) (all_chars p s) h in (hc, all_chars-All p s hs)

abbrev pub IsName : Text → Type 0
IsName [] = ⊥
IsName (c ∷ s) = (is_alpha c ≡ true) × All is_name_char s

abbrev pub IsNumber : Text → Type 0
IsNumber [] = ⊥
IsNumber (c ∷ s) = (is_digit c ≡ true) × All is_number_char s

-- The lexemes that are written here: names that are no keywords, numbers, and the tokens that have an
-- enumerator or are an operator or a comma.
unfoldable pub Spellable : Lexeme → Type 0
Spellable (word s) = IsName s × (keyword s ≡ tok_identifier)
Spellable (numeral s) = IsNumber s
Spellable (sign tok_eof) = ⊥
Spellable (sign tok_identifier) = ⊥
Spellable (sign tok_number) = ⊥
Spellable (sign (tok_char c)) = ⊥
Spellable (sign (tok_code n)) = ⊥
Spellable (sign _) = Unit

unfoldable pub AllSpellable : Lexemes → Type 0
unfolding Spellable
AllSpellable [] = Unit
AllSpellable (x ∷ ts) = Spellable x × AllSpellable ts
