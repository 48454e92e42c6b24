-- ===== src/Lang/Lexer/Scan.antt =====
-- include/ep2/lang/Lexer.h: `getTok`, `getTokInput` and the functions over them, for any source of
-- characters. The loops run on fuel; `none` is that it ran out.
use alkali.Prelude.{
  ◌>>=◌, ℕ, zero, suc, Bool, true, false, List, [], ◌∷◌, ◌++◌, ◌||◌, Option, none, some,
  if◌then◌else◌, ◌==◌, not,
}
use alkali.Lang.Token.{
  tok_identifier, tok_number, Text, Token, value, same, tok_eof, tok_eq, tok_angle_bracket_open,
  tok_angle_bracket_close, tok_cmp_eq, tok_cmp_le, tok_cmp_ge, tok_number, tok_char,
}
use alkali.Lang.Stream.{Lexeme, Lexemes, word, numeral, sign}
use alkali.Lang.Lexer.Chars.{is_space, is_alpha, is_digit, is_name_char, is_number_char, keyword}

-- What `Lexer` wants of the class that derives from it: the next character, as a token, and a place
-- to save the position of the next one.
pub record Source (S : Type 0) : Type 0 where
  pub next_char : S → Token × S
  pub save : S → S

-- The state of a lexer; `num_val` is the text that `strtod` gets.
pub record Lexer (S : Type 0) : Type 0 where
  pub cur_tok : Token
  pub identifier_str : Text
  pub num_val : Text
  pub last_char : Token
  pub tokens : List (Token × Text)
  pub source : S

abbrev pub new_lexer : {S : Type 0} → S → Lexer S
new_lexer s = record {
  cur_tok = tok_eof;
  identifier_str = [];
  num_val = [];
  last_char = tok_char b' ';
  tokens = [];
  source = s;
}

-- `getIdentiferStr`.
unfoldable pub get_identifier_str : {S : Type 0} → Lexer S → Text
get_identifier_str l = elim (l.tokens) [ [] ↦ l.identifier_str | (_, s) ∷ _ ↦ s ]

-- The current token as the parser sees it.
unfoldable pub lexeme : {S : Type 0} → Lexer S → Lexeme
unfolding get_identifier_str
lexeme l = elim (l.cur_tok) [
  | tok_identifier ↦ word (get_identifier_str l)
  | tok_number ↦ numeral l.num_val
  | t ↦ sign t
]

-- The token behind '=', '<' or '>', where the next character is '='.
unfoldable pub comparison : Token → Token
comparison tok_eq = tok_cmp_eq
comparison tok_angle_bracket_open = tok_cmp_le
comparison _ = tok_cmp_ge

unfoldable pub is_comparison : Token → Bool
unfolding same
is_comparison t = (same t tok_eq || same t tok_angle_bracket_open) || same t tok_angle_bracket_close

-- `lastChar != EOF && lastChar != '\n' && lastChar != '\r'`.
unfoldable pub in_comment : Token → Bool
unfolding same value
in_comment t = not (same t tok_eof || (value t == b'\n' || value t == b'\r'))

module _ {S : Type 0} (src : Source S) where
  -- `lastChar = Token(getNextChar())`.
  unfoldable pub advance : Lexer S → Lexer S
  advance l = let (c, s) = src.next_char l.source in record l { last_char = c; source = s }

  unfoldable pub skip_space : ℕ → Lexer S → Option (Lexer S)
  unfolding advance value is_space
  skip_space zero l = none
  skip_space (suc f) l = elim (is_space (value l.last_char)) [
    | true ↦ skip_space f (advance l)
    | false ↦ some l
  ]

  unfoldable pub take_name : ℕ → Lexer S → Option (Lexer S)
  unfolding advance value is_name_char
  take_name zero l = none
  take_name (suc f) l =
      let l' = advance l in
      elim (is_name_char (value l'.last_char)) [
        | true ↦
            take_name f
              (record l' { identifier_str = l'.identifier_str ++ value l'.last_char ∷ [] })
        | false ↦ some l'
      ]

  -- The `do` loop over a number, with the text read so far.
  unfoldable pub take_number : ℕ → Text → Lexer S → Option (Lexer S)
  unfolding advance value is_number_char
  take_number zero str l = none
  take_number (suc f) str l =
      let str' = str ++ value l.last_char ∷ [] in
      let l' = advance l in
      elim (is_number_char (value l'.last_char)) [
        | true ↦ take_number f str' l'
        | false ↦ some (record l' { num_val = str' })
      ]

  unfoldable pub skip_comment : ℕ → Lexer S → Option (Lexer S)
  unfolding advance in_comment
  skip_comment zero l = none
  skip_comment (suc f) l =
      let l' = advance l in
      elim (in_comment l'.last_char) [ true ↦ skip_comment f l' | false ↦ some l' ]

  -- The end of the input, a comparison or a character for itself.
  unfoldable pub take_symbol : Lexer S → Token × Lexer S
  unfolding advance same is_comparison comparison
  take_symbol l =
      if same l.last_char tok_eof
      then (tok_eof, l)
      else if is_comparison l.last_char
      then (let l' = advance l in
          if same l'.last_char tok_eq
          then (comparison l.last_char, advance l')
          else (l.last_char, l'))
      else (l.last_char, advance l)

  unfoldable mutual
    unfolding value is_alpha is_digit keyword

    -- With no token peeked.
    pub get_tok_input : ℕ → Lexer S → Option (Token × Lexer S)
    get_tok_input zero l = none
    get_tok_input (suc f) l = do
      l₁ ← skip_space f l
      let l₂ : Lexer S = record l₁ { source = src.save l₁.source }
      let c = value l₂.last_char
      elim (is_alpha c) [
        | true ↦ do
          l₃ ← take_name f (record l₂ { identifier_str = c ∷ [] })
          some (keyword l₃.identifier_str, l₃)
        | false ↦ elim (is_digit c) [
          | true ↦ do l₃ ← take_number f [] l₂; some (tok_number, l₃)
          | false ↦ elim (c == b'#') [
            | true ↦ do
              l₃ ← skip_comment f l₂
              elim (same l₃.last_char tok_eof) [
                | true ↦ some (take_symbol l₃)
                | false ↦ get_tok f false l₃
              ]
            | false ↦ some (take_symbol l₂)
          ]
        ]
      ]

    pub get_tok : ℕ → Bool → Lexer S → Option (Token × Lexer S)
    get_tok zero peek l = none
    get_tok (suc f) peek l = elim (l.tokens) [
      | [] ↦ do
        (tok, l') ← get_tok_input f l
        some (
          tok,
          if peek then record l' { tokens = l'.tokens ++ (tok, l.identifier_str) ∷ [] } else l',
        )
      | (tok, s) ∷ q ↦ some (tok, if peek then l else record l { tokens = q })
    ]

  unfoldable pub get_next_token : ℕ → Lexer S → Option (Lexer S)
  unfolding get_tok
  get_next_token f l = do (tok, l') ← get_tok f false l; some (record l' { cur_tok = tok })

  unfoldable pub peek_next_token : ℕ → Lexer S → Option (Token × Lexer S)
  unfolding get_tok
  peek_next_token f l = get_tok f true l

  -- The lexemes up to the end of the input, by `getNextToken`.
  unfoldable pub tokenize : ℕ → Lexer S → Option Lexemes
  unfolding get_next_token lexeme same
  tokenize zero l = none
  tokenize (suc f) l = do
    l' ← get_next_token f l
    elim (same l'.cur_tok tok_eof) [
      | true ↦ some []
      | false ↦ do ts ← tokenize f l'; some (lexeme l' ∷ ts)
    ]
