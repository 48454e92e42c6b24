-- ===== src/Lang/Lexer/Buffer.antt =====
-- include/ep2/lang/Lexer.h: `LexerBuffer`, the memory that it reads, and the line buffer of `Lexer`.
use alkali.Prelude.{ℕ, ◌+◌, true, false, [], ◌∷◌, ◌==◌, if◌then◌else◌}
use alkali.Lang.Token.{Text, Token, tok_eof, token_of_byte}

-- `readNextLine`: the next line and the memory behind it. Memory ends with a NUL character, at which
-- `current` stays.
unfoldable pub read_next_line : Text → Text × Text
read_next_line [] = ([], [])
read_next_line (c ∷ s) =
    let (line, behind) = read_next_line s in
    elim (c == 0) [
      | true ↦ ([], c ∷ s)
      | false ↦ elim (c == b'\n') [ true ↦ (c ∷ [], s) | false ↦ (c ∷ line, behind) ]
    ]

-- The line buffer, the memory from `current` on, and the positions: of the next character, and of
-- the beginning of the last token.
pub record Buffer : Type 0 where
  pub cur_line_buffer : Text
  pub memory : Text
  pub cur_line_num : ℕ
  pub cur_col : ℕ
  pub last_line : ℕ
  pub last_col : ℕ

-- `if (curLineBuffer.empty()) curLineBuffer = readNextLine()`.
unfoldable pub refill : Buffer → Buffer
unfolding read_next_line
refill b = elim (b.cur_line_buffer) [
  | [] ↦
      let (line, behind) = read_next_line b.memory in
      record b { cur_line_buffer = line; memory = behind }
  | _ ∷ _ ↦ b
]

-- `Token(getNextChar())`.
unfoldable pub get_next_char : Buffer → Token × Buffer
unfolding refill token_of_byte
get_next_char b = elim (b.cur_line_buffer) [
  | [] ↦ (tok_eof, b)
  | c ∷ s ↦
      let b' = refill (record b { cur_line_buffer = s; cur_col = b.cur_col + 1 }) in
      (
        token_of_byte c,
        if c == b'\n' then record b' { cur_line_num = b'.cur_line_num + 1; cur_col = 0 } else b',
      )
]

-- `lastLocation.line = curLineNum; lastLocation.col = curCol`.
unfoldable pub save_location : Buffer → Buffer
save_location b = record b { last_line = b.cur_line_num; last_col = b.cur_col }

-- A new lexer has a line feed in its line buffer.
abbrev pub new_buffer : Text → Buffer
new_buffer memory = record {
  cur_line_buffer = b'\n' ∷ [];
  memory = memory;
  cur_line_num = 0;
  cur_col = 0;
  last_line = 0;
  last_col = 0;
}
