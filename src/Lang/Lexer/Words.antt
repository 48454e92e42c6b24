-- ===== src/Lang/Lexer/Words.antt =====
-- The loops of the lexer over a text in memory: they read what was spelled, up to the space behind.
use alkali.Prelude.{
  ℕ, zero, suc, ◌<◌, ◌≡◌, ap, ◌∙◌, true, false, [], ◌∷◌, ◌++◌, append_assoc, some, arith, length,
  append-nil, ◌+◌,
}
use alkali.Lang.Token.{Text, Token, value, token_of_byte, tok_char, ascii_token, tok_eof}
use alkali.Lang.Lexer.Chars.{is_space, is_alpha, is_digit, is_name_char, is_number_char}
use alkali.Lang.Lexer.Scan.{Lexer, advance, skip_space, take_name, take_number}
use alkali.Lang.Lexer.View.{text_source}
use alkali.Lang.Lexer.Bytes.{value-token_of_byte}
use alkali.Lang.Lexer.Spelling.{All}

-- A space, as the last character read.
abbrev pub space : Token
space = tok_char b' '

name_char-value : (c : ℕ) → is_name_char c ≡ true → value (token_of_byte c) ≡ c
unfolding is_name_char is_alpha is_digit
name_char-value c h = value-token_of_byte c (ground arith)

number_char-value : (c : ℕ) → is_number_char c ≡ true → value (token_of_byte c) ≡ c
unfolding is_number_char is_digit
number_char-value c h = value-token_of_byte c (ground arith)

pub take_name-reads :
    (f : ℕ) (s rest : Text) (l : Lexer Text)
    → All is_name_char s
    → length s < f
    → take_name text_source f (record l { source = s ++ b' ' ∷ rest })
      ≡ some (record l { identifier_str = l.identifier_str ++ s; last_char = space; source = rest })
unfolding take_name advance token_of_byte ascii_token
take_name-reads zero s rest l h b = absurd (omega arith)
take_name-reads (suc f) [] rest l h b = rw append-nil
take_name-reads (suc f) (c ∷ s) rest l (hc, hs) b =
    let l' : Lexer Text = record l {
      last_char = token_of_byte c;
      identifier_str = l.identifier_str ++ c ∷ [];
    } in
    rw (take_name, name_char-value c hc, hc, name_char-value c hc)
      (take_name-reads f s rest l' hs (omega arith)
        ∙ ap (λ n. some (record l { identifier_str = n; last_char = space; source = rest }))
            (append_assoc l.identifier_str (c ∷ []) s))

-- The first digit is the last character read.
pub take_number-reads :
    (f c : ℕ) (str s rest : Text) (l : Lexer Text)
    → is_number_char c ≡ true
    → All is_number_char s
    → length s < f
    → take_number text_source f str
        (record l { last_char = token_of_byte c; source = s ++ b' ' ∷ rest })
      ≡ some (record l { num_val = str ++ c ∷ s; last_char = space; source = rest })
unfolding take_number advance token_of_byte ascii_token
take_number-reads zero c str s rest l hc h b = absurd (omega arith)
take_number-reads (suc f) c str [] rest l hc h b = rw (number_char-value c hc)
take_number-reads (suc f) c str (d ∷ s) rest l hc (hd, hs) b =
    rw (take_number, number_char-value d hd, hd, number_char-value c hc)
      (take_number-reads f d (str ++ c ∷ []) s rest l hd hs (omega arith)
        ∙ ap (λ n. some (record l { num_val = n; last_char = space; source = rest }))
            (append_assoc str (c ∷ []) (d ∷ s)))

space-value : (c : ℕ) → is_space c ≡ true → is_space (value (token_of_byte c)) ≡ true
unfolding is_space
space-value c h =
    let byte : value (token_of_byte c) ≡ c = value-token_of_byte c (ground arith) in rw byte h

-- White space is read over, up to another character or the end.
pub skip_space-stops :
    (f : ℕ) (w : Text) (c : ℕ) (s : Text) (l : Lexer Text)
    → is_space (value l.last_char) ≡ true
    → All is_space w
    → is_space (value (token_of_byte c)) ≡ false
    → length w + 1 < f
    → skip_space text_source f (record l { source = w ++ c ∷ s })
      ≡ some (record l { last_char = token_of_byte c; source = s })
unfolding skip_space advance
skip_space-stops zero w c s l h hw h' b = absurd (omega arith)
skip_space-stops (suc zero) w c s l h hw h' b = absurd (omega arith)
skip_space-stops (suc (suc f)) [] c s l h hw h' b = rw (skip_space, h, skip_space, h')
skip_space-stops (suc f) (d ∷ w) c s l h (hd, hw) h' b =
    rw (skip_space, h)
      (skip_space-stops f w c s (record l { last_char = token_of_byte d }) (space-value d hd) hw h'
        (omega arith))

pub skip_space-ends :
    (f : ℕ) (w : Text) (l : Lexer Text)
    → is_space (value l.last_char) ≡ true
    → All is_space w
    → length w + 1 < f
    → skip_space text_source f (record l { source = w })
      ≡ some (record l { last_char = tok_eof; source = [] })
unfolding skip_space advance is_space value
skip_space-ends zero w l h hw b = absurd (omega arith)
skip_space-ends (suc zero) w l h hw b = absurd (omega arith)
skip_space-ends (suc (suc f)) [] l h hw b = rw (skip_space, h)
skip_space-ends (suc f) (d ∷ w) l h (hd, hw) b =
    rw (skip_space, h)
      (skip_space-ends f w (record l { last_char = token_of_byte d }) (space-value d hd) hw
        (omega arith))
