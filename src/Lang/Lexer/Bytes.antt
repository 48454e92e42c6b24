-- ===== src/Lang/Lexer/Bytes.antt =====
-- The token that a character is cast to keeps the character's value.
use alkali.Prelude.{ℕ, ◌<◌, ◌-◌, ◌≡◌, arith}
use alkali.Lang.Token.{value, ascii_token, negative_token, token_of_byte}

value-ascii_token : (c : ℕ) → value (ascii_token c) ≡ c
unfolding value ascii_token
value-ascii_token c = ground arith

value-negative_token : (n : ℕ) → value (negative_token n) ≡ 256 - n
unfolding value negative_token
value-negative_token n = ground arith

-- Of a byte, the token has the byte for its value.
pub value-token_of_byte : (c : ℕ) → c < 256 → value (token_of_byte c) ≡ c
unfolding token_of_byte
value-token_of_byte c h = ground (arith, value-ascii_token c, value-negative_token (256 - c))
