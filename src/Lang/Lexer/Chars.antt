-- ===== src/Lang/Lexer/Chars.antt =====
-- include/ep2/lang/Lexer.h: the tests on characters and the keywords of `getTokInput`.
use alkali.Prelude.{Bool, true, false, [], ◌∷◌, ◌&&◌, ◌||◌, leb, ◌==◌, ℕ, List}
use alkali.Lang.Token.{
  Text, Token, tok_return, tok_def, tok_struct, tok_var, tok_event, tok_handler, tok_controller,
  tok_generate, tok_extern, tok_global, tok_scope, tok_if, tok_else, tok_identifier,
}

-- `isspace`, `isalpha`, `isdigit` and `isalnum` in the C locale; they hold of no character above 127
-- and not of EOF.
unfoldable pub is_space : ℕ → Bool
is_space c = c == b' ' || (leb 9 c && leb c 13)

unfoldable pub is_alpha : ℕ → Bool
is_alpha c = (leb b'a' c && leb c b'z') || (leb b'A' c && leb c b'Z')

unfoldable pub is_digit : ℕ → Bool
is_digit c = leb b'0' c && leb c b'9'

-- `isalnum(c) || c == '_'`, and `isdigit(c) || c == '.'`.
unfoldable pub is_name_char : ℕ → Bool
unfolding is_alpha is_digit
is_name_char c = (is_alpha c || is_digit c) || c == b'_'

unfoldable pub is_number_char : ℕ → Bool
unfolding is_digit
is_number_char c = is_digit c || c == b'.'

unfoldable pub same_text : Text → Text → Bool
same_text [] [] = true
same_text [] (_ ∷ _) = false
same_text (_ ∷ _) [] = false
same_text (a ∷ s) (b ∷ t) = a == b && same_text s t

-- The keywords in the order of the tests in `getTokInput`.
abbrev pub keywords : List (Text × Token)
keywords =
    (b'r' ∷ b'e' ∷ b't' ∷ b'u' ∷ b'r' ∷ b'n' ∷ [], tok_return)
    ∷ (b'd' ∷ b'e' ∷ b'f' ∷ [], tok_def)
    ∷ (b's' ∷ b't' ∷ b'r' ∷ b'u' ∷ b'c' ∷ b't' ∷ [], tok_struct)
    ∷ (b'v' ∷ b'a' ∷ b'r' ∷ [], tok_var)
    ∷ (b'e' ∷ b'v' ∷ b'e' ∷ b'n' ∷ b't' ∷ [], tok_event)
    ∷ (b'h' ∷ b'a' ∷ b'n' ∷ b'd' ∷ b'l' ∷ b'e' ∷ b'r' ∷ [], tok_handler)
    ∷ (b'c' ∷ b'o' ∷ b'n' ∷ b't' ∷ b'r' ∷ b'o' ∷ b'l' ∷ b'l' ∷ b'e' ∷ b'r' ∷ [], tok_controller)
    ∷ (b'g' ∷ b'e' ∷ b'n' ∷ b'e' ∷ b'r' ∷ b'a' ∷ b't' ∷ b'e' ∷ [], tok_generate)
    ∷ (b'e' ∷ b'x' ∷ b't' ∷ b'e' ∷ b'r' ∷ b'n' ∷ [], tok_extern)
    ∷ (b'g' ∷ b'l' ∷ b'o' ∷ b'b' ∷ b'a' ∷ b'l' ∷ [], tok_global)
    ∷ (b's' ∷ b'c' ∷ b'o' ∷ b'p' ∷ b'e' ∷ [], tok_scope)
    ∷ (b'i' ∷ b'f' ∷ [], tok_if)
    ∷ (b'e' ∷ b'l' ∷ b's' ∷ b'e' ∷ [], tok_else)
    ∷ []

unfoldable pub lookup_token : Text → List (Text × Token) → Token
unfolding same_text
lookup_token s [] = tok_identifier
lookup_token s ((k, t) ∷ ks) = elim (same_text s k) [ true ↦ t | false ↦ lookup_token s ks ]

-- The token of a name.
unfoldable pub keyword : Text → Token
unfolding lookup_token
keyword s = lookup_token s keywords
