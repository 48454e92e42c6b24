-- ===== src/Lang/Lexer/Stream.antt =====
-- The lexer yields the stream that Lang/Stream gives the parser: of a file in which lexemes are
-- written with spaces behind them, `getNextToken` gives these lexemes.
use alkali.Prelude.{
  ◌>>=◌, some-chain, ℕ, zero, suc, ◌+◌, ◌<◌, ◌≡◌, refl, sym, ap, ◌∙◌, true, false, [], ◌∷◌, ◌++◌,
  Option, none, some, arith, length, length-append, inl, inr, Bool-cases, append-nil,
}
use alkali.Lang.Token.{
  Text, Token, same, value, tok_eof, tok_identifier, tok_number, tok_char, tok_code,
}
use alkali.Lang.Stream.{Lexeme, Lexemes, word, numeral, sign, kind}
use alkali.Lang.Lexer.Chars.{is_space}
use alkali.Lang.Lexer.Buffer.{Buffer, new_buffer}
use alkali.Lang.Lexer.Scan.{
  Lexer, new_lexer, get_next_token, get_tok_input, tokenize, lexeme, get_identifier_str,
}
use alkali.Lang.Lexer.Natural.{map_source, map_result, get_next_token-view}
use alkali.Lang.Lexer.View.{text_source, buffer_source, view, view-IsView, visible, still_to_come}
use alkali.Lang.Lexer.Peek.{get_next_token-result}
use alkali.Lang.Lexer.Spelling.{
  All, Spellable, AllSpellable, spell_token, keyword_text, spell, spell_all,
}
use alkali.Lang.Lexer.Tokens.{reads-eof}
use alkali.Lang.Lexer.Lexemes.{behind, get_tok_input-spell}

-- The lexeme behind a spelling is the one spelled, and not the end.
lexeme-behind :
    (x : Lexeme) (rest : Text) (l : Lexer Text)
    → Spellable x
    → lexeme (record (behind x rest l) { cur_tok = kind x; tokens = [] }) ≡ x
unfolding lexeme behind Spellable kind
lexeme-behind (word s) rest l h = refl
lexeme-behind (numeral s) rest l h = refl
lexeme-behind (sign tok_identifier) rest l h = absurd h
lexeme-behind (sign tok_number) rest l h = absurd h
lexeme-behind (sign _) rest l h = refl

kind-ne_eof : (x : Lexeme) → Spellable x → same (kind x) tok_eof ≡ false
unfolding Spellable kind same value
kind-ne_eof (word s) h = refl
kind-ne_eof (numeral s) h = refl
kind-ne_eof (sign tok_eof) h = absurd h
kind-ne_eof (sign (tok_char c)) h = absurd h
kind-ne_eof (sign (tok_code n)) h = absurd h
kind-ne_eof (sign _) h = refl

spell_token-length : (t : Token) → 0 < length (spell_token t)
unfolding spell_token keyword_text
spell_token-length tok_eof = omega arith
spell_token-length _ = omega arith

spell-length : (x : Lexeme) → Spellable x → 0 < length (spell x)
unfolding Spellable spell spell_token keyword_text
spell-length (word []) h = absurd h.0
spell-length (word (c ∷ s)) h = omega arith
spell-length (numeral []) h = absurd h
spell-length (numeral (c ∷ s)) h = omega arith
spell-length (sign t) h = spell_token-length t

-- White space `w`, and then the spelled lexemes, are read as these lexemes.
tokenize-spell_all :
    (ts : Lexemes) (l : Lexer Text) (w : Text)
    → AllSpellable ts
    → l.tokens ≡ []
    → is_space (value l.last_char) ≡ true
    → All is_space w
    → (f : ℕ) → length w + length (spell_all ts) + 5 < f
    → tokenize text_source f (record l { source = w ++ spell_all ts }) ≡ some ts
unfolding tokenize spell_all AllSpellable behind kind is_space value
tokenize-spell_all ts l w h e hl hw zero b = absurd (omega arith)
tokenize-spell_all ts l w h e hl hw (suc zero) b = absurd (omega arith)
tokenize-spell_all ts l w h e hl hw (suc (suc zero)) b = absurd (omega arith)
tokenize-spell_all ts l w h e hl hw (suc (suc (suc zero))) b = absurd (omega arith)
tokenize-spell_all [] l w h e hl hw (suc (suc (suc (suc f)))) b =
    let l₀ : Lexer Text = record l { source = w ++ [] } in
    let reads : get_tok_input text_source (suc (suc f)) l₀
        ≡ some (tok_eof, record l { last_char = tok_eof; source = [] }) =
      rw append-nil (reads-eof l hl w hw (suc f) (omega arith)) in
    some-chain _ (get_next_token-result text_source (suc (suc f)) l₀ tok_eof _ e reads) refl
tokenize-spell_all (x ∷ ts) l w hx e hl hw (suc (suc (suc (suc f)))) b =
    let (h, hs) = hx in
    let total = length-append (spell x) (b' ' ∷ spell_all ts) in
    let positive = spell-length x h in
    some-chain _
      (get_next_token-result text_source (suc (suc f))
        (record l { source = w ++ (spell x ++ b' ' ∷ spell_all ts) }) (kind x) _ e
        (get_tok_input-spell x (spell_all ts) l h hl w hw (suc f) (omega arith)))
      (rw (kind-ne_eof x h) (
        some-chain _
          (tokenize-spell_all ts
            (record (behind x (spell_all ts) l) { cur_tok = kind x; tokens = [] }) [] hs refl refl
            tt (suc (suc (suc f))) (omega arith))
          (ap (λ y. some (y ∷ ts)) (lexeme-behind x (spell_all ts) l h))))

-- A view of the source does not change the lexemes.
>>=-view :
    (o : Option (Lexer Buffer)) (k : Lexer Buffer → Option Lexemes)
    (k' : Lexer Text → Option Lexemes)
    → ((l : Lexer Buffer) → k' (map_source view l) ≡ k l)
    → (map_result view o >>= k') ≡ (o >>= k)
>>=-view none k k' e = refl
>>=-view (some l) k k' e = e l

tokenize-view :
    (f : ℕ) (l : Lexer Buffer)
    → tokenize text_source f (map_source view l) ≡ tokenize buffer_source f l
unfolding tokenize lexeme get_identifier_str
tokenize-view zero l = refl
tokenize-view (suc f) l = rw (get_next_token-view buffer_source text_source view view-IsView f l) (
    >>=-view (get_next_token buffer_source f l) _ _ λ l'.
      elim (Bool-cases (same l'.cur_tok tok_eof)) [
        | inl e ↦ rw e
        | inr e ↦ rw (e, tokenize-view f l')
      ])

-- A file whose text, up to the first NUL character, is the spelling of lexemes, each with a space
-- behind it, is read as these lexemes, with fuel by its length.
pub tokenize-file :
    (ts : Lexemes) (memory : Text)
    → AllSpellable ts
    → visible memory ≡ spell_all ts
    → (f : ℕ) → length (spell_all ts) + 6 < f
    → tokenize buffer_source f (new_lexer (new_buffer memory)) ≡ some ts
unfolding view still_to_come is_space value
tokenize-file ts memory h e f b =
    let begun : Lexer Text = new_lexer (b'\n' ∷ visible memory) in
    sym (tokenize-view f (new_lexer (new_buffer memory)))
    ∙ rw e (tokenize-spell_all ts begun (b'\n' ∷ []) h refl refl (refl, tt) f (omega arith))
