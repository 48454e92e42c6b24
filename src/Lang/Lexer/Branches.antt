-- ===== src/Lang/Lexer/Branches.antt =====
-- include/ep2/lang/Lexer.h: the branches of `getTokInput`, by the first character that is no white
-- space.
use alkali.Prelude.{some-chain, ◌>>=◌, ℕ, suc, ◌≡◌, true, false, [], ◌∷◌, some, ◌==◌}
use alkali.Lang.Token.{value, tok_number}
use alkali.Lang.Lexer.Chars.{is_alpha, is_digit, keyword}
use alkali.Lang.Lexer.Scan.{
  Source, Lexer, skip_space, take_name, take_number, take_symbol, get_tok_input,
}

module _ {S : Type 0} (src : Source S) (f : ℕ) (l l₁ : Lexer S)
    (skipped : skip_space src f l ≡ some l₁) where
  -- The state at that character.
  abbrev saved : Lexer S
  saved = record l₁ { source = src.save l₁.source }

  pub get_tok_input-name :
      is_alpha (value l₁.last_char) ≡ true
      → get_tok_input src (suc f) l ≡ (do
        l₃ ←
            take_name src f
              (record l₁ { identifier_str = value l₁.last_char ∷ []; source = src.save l₁.source })
        some (keyword l₃.identifier_str, l₃))
  unfolding get_tok_input
  get_tok_input-name ha = some-chain _ skipped (rw ha)

  pub get_tok_input-number :
      is_alpha (value l₁.last_char) ≡ false
      → is_digit (value l₁.last_char) ≡ true
      → get_tok_input src (suc f) l ≡ (do
        l₃ ← take_number src f [] (record l₁ { source = src.save l₁.source })
        some (tok_number, l₃))
  unfolding get_tok_input
  get_tok_input-number ha hd = some-chain _ skipped (rw (ha, hd))

  pub get_tok_input-symbol :
      is_alpha (value l₁.last_char) ≡ false
      → is_digit (value l₁.last_char) ≡ false
      → (value l₁.last_char == b'#') ≡ false
      → get_tok_input src (suc f) l
        ≡ some (take_symbol src (record l₁ { source = src.save l₁.source }))
  unfolding get_tok_input
  get_tok_input-symbol ha hd hh = some-chain _ skipped (rw (ha, hd, hh))
