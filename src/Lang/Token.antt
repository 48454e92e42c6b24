-- ===== src/Lang/Token.antt =====
-- include/ep2/lang/Lexer.h, `enum Token`: the tokens, their integer values, and the token that a
-- single character of the input is cast to.
use alkali.Prelude.{ℕ, ◌-◌, Bool, List, ltb, ◌==◌, if◌then◌else◌}

-- The characters of a name or a literal, as their codes.
abbrev pub Text : Type 0
Text = List ℕ

-- `tok_comma`, `tok_plus`, `tok_minus`, `tok_star` and `tok_slash` are the characters that the
-- parser writes `Token(',')` and so on. `tok_char c` is any other character below 128, and
-- `tok_code n` the value `-n` of a character above 127 that is no enumerator.
pub data Token : Type 0 where
  tok_semicolon tok_parenthese_open tok_parenthese_close tok_bracket_open tok_bracket_close : Token
  tok_angle_bracket_open tok_angle_bracket_close tok_sbracket_open tok_sbracket_close : Token
  tok_colon tok_dot tok_eq tok_eof : Token
  tok_return tok_var tok_def tok_struct tok_event tok_handler tok_controller tok_generate : Token
  tok_extern tok_global tok_scope tok_if tok_else tok_cmp_eq tok_cmp_le tok_cmp_ge : Token
  tok_identifier tok_number : Token
  tok_comma tok_plus tok_minus tok_star tok_slash : Token
  tok_char tok_code : ℕ → Token

-- The enumerator's value as one byte, a negative one in two's complement.
unfoldable pub value : Token → ℕ
value tok_semicolon = b';'
value tok_parenthese_open = b'('
value tok_parenthese_close = b')'
value tok_bracket_open = b'{'
value tok_bracket_close = b'}'
value tok_angle_bracket_open = b'<'
value tok_angle_bracket_close = b'>'
value tok_sbracket_open = b'['
value tok_sbracket_close = b']'
value tok_colon = b':'
value tok_dot = b'.'
value tok_eq = b'='
value tok_eof = 255
value tok_return = 254
value tok_var = 253
value tok_def = 252
value tok_struct = 251
value tok_event = 250
value tok_handler = 249
value tok_controller = 248
value tok_generate = 247
value tok_extern = 246
value tok_global = 245
value tok_scope = 244
value tok_if = 243
value tok_else = 242
value tok_cmp_eq = 216
value tok_cmp_le = 215
value tok_cmp_ge = 214
value tok_identifier = 200
value tok_number = 199
value tok_comma = b','
value tok_plus = b'+'
value tok_minus = b'-'
value tok_star = b'*'
value tok_slash = b'/'
value (tok_char c) = c
value (tok_code n) = 256 - n

-- `a == b` on tokens.
unfoldable pub same : Token → Token → Bool
unfolding value
same a b = value a == value b

-- `Token(c)` of a character below 128.
unfoldable pub ascii_token : ℕ → Token
ascii_token c =
    if c == b';'
    then tok_semicolon
    else if c == b'('
    then tok_parenthese_open
    else if c == b')'
    then tok_parenthese_close
    else if c == b'{'
    then tok_bracket_open
    else if c == b'}'
    then tok_bracket_close
    else if c == b'<'
    then tok_angle_bracket_open
    else if c == b'>'
    then tok_angle_bracket_close
    else if c == b'['
    then tok_sbracket_open
    else if c == b']'
    then tok_sbracket_close
    else if c == b':'
    then tok_colon
    else if c == b'.'
    then tok_dot
    else if c == b'='
    then tok_eq
    else if c == b','
    then tok_comma
    else if c == b'+'
    then tok_plus
    else if c == b'-'
    then tok_minus
    else if c == b'*'
    then tok_star
    else if c == b'/'
    then tok_slash
    else tok_char c

-- The token whose value is `-n`.
unfoldable pub negative_token : ℕ → Token
negative_token n =
    if n == 1
    then tok_eof
    else if n == 2
    then tok_return
    else if n == 3
    then tok_var
    else if n == 4
    then tok_def
    else if n == 5
    then tok_struct
    else if n == 6
    then tok_event
    else if n == 7
    then tok_handler
    else if n == 8
    then tok_controller
    else if n == 9
    then tok_generate
    else if n == 10
    then tok_extern
    else if n == 11
    then tok_global
    else if n == 12
    then tok_scope
    else if n == 13
    then tok_if
    else if n == 14
    then tok_else
    else if n == 40
    then tok_cmp_eq
    else if n == 41
    then tok_cmp_le
    else if n == 42
    then tok_cmp_ge
    else if n == 56
    then tok_identifier
    else if n == 57
    then tok_number
    else tok_code n

-- `Token(getNextChar())`: `char` is signed, so a byte above 127 is cast to a negative value.
unfoldable pub token_of_byte : ℕ → Token
unfolding ascii_token negative_token
token_of_byte c = if ltb c 128 then ascii_token c else negative_token (256 - c)
