-- ===== src/Lang/Lexer/Tokens.antt =====
-- One token of the lexer over a text in memory, by what was spelled there.
use alkali.Prelude.{
  refl, ℕ, suc, ◌+◌, ◌<◌, ◌≡◌, true, false, [], ◌∷◌, ◌++◌, some, ◌==◌, arith, length,
}
use alkali.Lang.Token.{Text, value, token_of_byte, tok_number, same, tok_eof}
use alkali.Lang.Lexer.Chars.{is_space, is_alpha, is_digit, is_name_char, is_number_char, keyword}
use alkali.Lang.Lexer.Scan.{Lexer, take_symbol, get_tok_input}
use alkali.Lang.Lexer.Branches.{get_tok_input-name, get_tok_input-number, get_tok_input-symbol}
use alkali.Lang.Lexer.View.{text_source}
use alkali.Lang.Lexer.Bytes.{value-token_of_byte}
use alkali.Lang.Lexer.Spelling.{All}
use alkali.Lang.Lexer.Words.{
  space, take_name-reads, take_number-reads, skip_space-stops, skip_space-ends,
}

-- The classes of characters are apart.
alpha-lt : (c : ℕ) → is_alpha c ≡ true → c < 256
unfolding is_alpha
alpha-lt c h = ground arith

alpha-is_space : (c : ℕ) → is_alpha c ≡ true → is_space c ≡ false
unfolding is_alpha is_space
alpha-is_space c h = ground arith

digit-lt : (c : ℕ) → is_digit c ≡ true → c < 256
unfolding is_digit
digit-lt c h = ground arith

digit-is_space : (c : ℕ) → is_digit c ≡ true → is_space c ≡ false
unfolding is_digit is_space
digit-is_space c h = ground arith

digit-is_alpha : (c : ℕ) → is_digit c ≡ true → is_alpha c ≡ false
unfolding is_digit is_alpha
digit-is_alpha c h = ground arith

digit-is_number_char : (c : ℕ) → is_digit c ≡ true → is_number_char c ≡ true
unfolding is_digit is_number_char
digit-is_number_char c h = ground arith

-- A token from its first character on; before it the lexer is at white space.
module _ (l : Lexer Text) (h : is_space (value l.last_char) ≡ true) (w : Text)
    (hw : All is_space w) where
  pub reads-name :
      (f c : ℕ) (s rest : Text)
      → is_alpha c ≡ true
      → All is_name_char s
      → length w + length s + 1 < f
      → get_tok_input text_source (suc f) (record l { source = w ++ (c ∷ s ++ b' ' ∷ rest) })
        ≡ some
            (keyword (c ∷ s), record l { identifier_str = c ∷ s; last_char = space; source = rest })
  reads-name f c s rest hc hs b =
      let byte : value (token_of_byte c) ≡ c = value-token_of_byte c (alpha-lt c hc) in
      let solid : is_space (value (token_of_byte c)) ≡ false = rw byte (alpha-is_space c hc) in
      let alpha : is_alpha (value (token_of_byte c)) ≡ true = rw byte hc in
      let begun : Lexer Text = record l { last_char = token_of_byte c; identifier_str = c ∷ [] } in
      rw (
        get_tok_input-name text_source f _ _
            (skip_space-stops f w c (s ++ b' ' ∷ rest) l h hw solid (omega arith)) alpha,
        byte,
        take_name-reads f s rest begun hs (omega arith),
      )

  pub reads-number :
      (f c : ℕ) (s rest : Text)
      → is_digit c ≡ true
      → All is_number_char s
      → length w + length s + 1 < f
      → get_tok_input text_source (suc f) (record l { source = w ++ (c ∷ s ++ b' ' ∷ rest) })
        ≡ some (tok_number, record l { num_val = c ∷ s; last_char = space; source = rest })
  reads-number f c s rest hc hs b =
      let byte : value (token_of_byte c) ≡ c = value-token_of_byte c (digit-lt c hc) in
      let solid : is_space (value (token_of_byte c)) ≡ false = rw byte (digit-is_space c hc) in
      let alpha : is_alpha (value (token_of_byte c)) ≡ false = rw byte (digit-is_alpha c hc) in
      let digit : is_digit (value (token_of_byte c)) ≡ true = rw byte hc in
      rw (
        get_tok_input-number text_source f _ _
            (skip_space-stops f w c (s ++ b' ' ∷ rest) l h hw solid (omega arith)) alpha digit,
        take_number-reads f c [] s rest l (digit-is_number_char c hc) hs (omega arith),
      )

  pub reads-symbol :
      (f c : ℕ) (s : Text)
      → c < 256
      → is_space c ≡ false
      → is_alpha c ≡ false
      → is_digit c ≡ false
      → (c == b'#') ≡ false
      → length w + 1 < f
      → get_tok_input text_source (suc f) (record l { source = w ++ c ∷ s })
        ≡ some (take_symbol text_source (record l { last_char = token_of_byte c; source = s }))
  reads-symbol f c s lt hs ha hd hh b =
      let byte : value (token_of_byte c) ≡ c = value-token_of_byte c lt in
      let solid : is_space (value (token_of_byte c)) ≡ false = rw byte hs in
      get_tok_input-symbol text_source f _ _ (skip_space-stops f w c s l h hw solid b) (rw byte ha)
        (rw byte hd) (rw byte hh)

  pub reads-eof :
      (f : ℕ)
      → length w + 1 < f
      → get_tok_input text_source (suc f) (record l { source = w })
        ≡ some (tok_eof, record l { last_char = tok_eof; source = [] })
  unfolding take_symbol same value is_alpha is_digit
  reads-eof f b =
      get_tok_input-symbol text_source f _ _ (skip_space-ends f w l h hw b) refl refl refl
