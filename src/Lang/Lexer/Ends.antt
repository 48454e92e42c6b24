-- ===== src/Lang/Lexer/Ends.antt =====
-- include/ep2/lang/Lexer.h: the loops of the lexer end. Each round reads a character, and at the end of
-- the text none of the loops goes on.
use alkali.Prelude.{
  ℕ, zero, suc, ◌+◌, ◌*◌, ◌≤◌, ◌<◌, ◌≡◌, ◌≢◌, refl, sym, ap, ◌∙◌, subst, true, false, [], ◌∷◌, ◌++◌,
  Option, none, some, some-chain, none-ne-some, ◌==◌, arith, inl, inr, ◌⊎◌, Bool-cases, List-cases,
  length, Bool,
}
use alkali.Lang.Token.{Text, Token, value, same, tok_eof, tok_number}
use alkali.Lang.Lexer.Chars.{is_space, is_alpha, is_digit, is_name_char, is_number_char, keyword}
use alkali.Lang.Lexer.Buffer.{Buffer}
use alkali.Lang.Lexer.Scan.{
  Lexer, advance, skip_space, take_name, take_number, skip_comment, take_symbol, in_comment,
  get_tok_input, get_tok, peek_next_token,
}
use alkali.Lang.Lexer.Natural.{map_source, map_token, get_tok-empty, get_tok-queued}
use alkali.Lang.Lexer.View.{buffer_source, text_source, view, get_tok-still_to_come}
use alkali.Lang.Lexer.Peek.{Transparent, peek_next_token-Transparent}

-- A result with at most `n` characters still to come.
abbrev Within : ℕ → Option (Lexer Text) → Type 0
Within n o = (l : Lexer Text) × (o ≡ some l) × (length l.source ≤ n)

-- Reading: a character less to come, or the end.
advance-less :
    (l : Lexer Text)
    → (suc (length (advance text_source l).source) ≡ length l.source)
      ⊎ (((advance text_source l).last_char ≡ tok_eof)
          × (length (advance text_source l).source ≡ 0))
unfolding advance
advance-less l = go l.source
  where
    go :
        (s : Text)
        → (suc (length (text_source.next_char s).1) ≡ length s)
          ⊎ (((text_source.next_char s).0 ≡ tok_eof) × (length (text_source.next_char s).1 ≡ 0))
    go [] = inr (refl, refl)
    go (c ∷ s) = inl refl

-- No loop goes on at the end.
not-eof : (g : ℕ → Bool) (t : Token) → g (value tok_eof) ≡ false → g (value t) ≡ true → t ≢ tok_eof
not-eof g t h e q = cc (h, e, ap (λ x. g (value x)) q)

advance-more :
    (l : Lexer Text)
    → (advance text_source l).last_char ≢ tok_eof
    → suc (length (advance text_source l).source) ≡ length l.source
advance-more l ne = elim (advance-less l) [ inl less ↦ less | inr (e, _) ↦ absurd (ne e) ]

advance-most : (l : Lexer Text) → length (advance text_source l).source ≤ length l.source
advance-most l = elim (advance-less l) [
  | inl less ↦ omega (arith, less)
  | inr (_, z) ↦ omega (arith, z)
]

Within-mono : {m n : ℕ} {o o' : Option (Lexer Text)} → o' ≡ o → m ≤ n → Within m o → Within n o'
Within-mono e h (l, r, b) = (l, e ∙ r, omega (arith, h, b))

skip_space-Within :
    (f : ℕ) (l : Lexer Text)
    → (l.last_char ≡ tok_eof) ⊎ (suc (length l.source) < f)
    → 0 < f
    → Within (length l.source) (skip_space text_source f l)
unfolding skip_space is_space value
skip_space-Within zero l b p = absurd (omega (arith, p))
skip_space-Within (suc f) l b p = elim (Bool-cases (is_space (value l.last_char))) [
  | inr e ↦ (l, rw (skip_space, e), omega arith)
  | inl e ↦
      let ne = not-eof is_space l.last_char refl e in
      let step : skip_space text_source (suc f) l
          ≡ skip_space text_source f (advance text_source l) =
        rw (skip_space, e) in
      elim b [
        | inl q ↦ absurd (ne q)
        | inr room ↦ elim (advance-less l) [
          | inl less ↦ Within-mono step (omega (arith, less)) (
              skip_space-Within f (advance text_source l) (inr (omega (arith, less, room)))
                (omega (arith, room)))
          | inr (q, z) ↦
              Within-mono step (omega (arith, z))
                (skip_space-Within f (advance text_source l) (inl q) (omega (arith, room)))
        ]
      ]
]

take_name-Within :
    (f : ℕ) (l : Lexer Text)
    → length l.source < f
    → Within (length l.source) (take_name text_source f l)
unfolding take_name is_name_char value
take_name-Within zero l h = absurd (omega (arith, h))
take_name-Within (suc f) l h =
    let l' = advance text_source l in
    elim (Bool-cases (is_name_char (value l'.last_char))) [
      | inr e ↦ (l', rw (take_name, e), advance-most l)
      | inl e ↦
          let less = advance-more l (not-eof is_name_char l'.last_char refl e) in
          let more : Lexer Text = record l' {
            identifier_str = l'.identifier_str ++ value l'.last_char ∷ [];
          } in
          let step : take_name text_source (suc f) l ≡ take_name text_source f more =
            rw (take_name, e) in
          Within-mono step (omega (arith, less)) (take_name-Within f more (omega (arith, less, h)))
    ]

take_number-Within :
    (f : ℕ) (str : Text) (l : Lexer Text)
    → length l.source < f
    → Within (length l.source) (take_number text_source f str l)
unfolding take_number is_number_char value
take_number-Within zero str l h = absurd (omega (arith, h))
take_number-Within (suc f) str l h =
    let l' = advance text_source l in
    let str' = str ++ value l.last_char ∷ [] in
    elim (Bool-cases (is_number_char (value l'.last_char))) [
      | inr e ↦ (record l' { num_val = str' }, rw (take_number, e), advance-most l)
      | inl e ↦
          let less = advance-more l (not-eof is_number_char l'.last_char refl e) in
          let step : take_number text_source (suc f) str l ≡ take_number text_source f str' l' =
            rw (take_number, e) in
          Within-mono step (omega (arith, less))
            (take_number-Within f str' l' (omega (arith, less, h)))
    ]

-- Behind a comment there is less to come than before it, or it ends the text.
skip_comment-ends :
    (f : ℕ) (l : Lexer Text)
    → length l.source < f
    → (l' : Lexer Text) × (skip_comment text_source f l ≡ some l')
      × ((l'.last_char ≡ tok_eof) ⊎ (length l'.source < length l.source))
unfolding skip_comment in_comment same value
skip_comment-ends zero l h = absurd (omega (arith, h))
skip_comment-ends (suc f) l h =
    let l' = advance text_source l in
    elim (Bool-cases (in_comment l'.last_char)) [
      | inr e ↦ (
        l',
        rw (skip_comment, e),
        elim (advance-less l) [ inl less ↦ inr (omega (arith, less)) | inr (q, _) ↦ inl q ],
      )
      | inl e ↦
          let at_end : in_comment tok_eof ≡ false = refl in
          let less = advance-more l (λ q. cc (at_end, e, ap in_comment q)) in
          let step : skip_comment text_source (suc f) l ≡ skip_comment text_source f l' =
            rw (skip_comment, e) in
          let (l₁, r, b) = skip_comment-ends f l' (omega (arith, less, h)) in
          (l₁, step ∙ r, elim b [ inl q ↦ inl q | inr lt ↦ inr (omega (arith, lt, less)) ])
    ]

eof-same : (t : Token) → t ≡ tok_eof → same t tok_eof ≡ true
unfolding same value
eof-same t q = subst (λ x. same x tok_eof ≡ true) (sym q) refl

-- A computation that has a result.
abbrev Ended : Option (Token × Lexer Text) → Type 0
Ended o = (p : Token × Lexer Text) × (o ≡ some p)

mutual
  unfolding get_tok_input

  get_tok_input-Ended :
      (f : ℕ) (l : Lexer Text) → 2 * length l.source + 4 ≤ f → Ended (get_tok_input text_source f l)
  get_tok_input-Ended zero l h = absurd (omega (arith, h))
  get_tok_input-Ended (suc f) l h =
      let (l₁, skipped, b) = skip_space-Within f l (inr (omega (arith, h))) (omega (arith, h)) in
      let c = value l₁.last_char in
      elim (Bool-cases (is_alpha c)) [
        | inl e ↦
            let begun : Lexer Text = record l₁ { identifier_str = c ∷ [] } in
            let (l₂, taken, _) = take_name-Within f begun (omega (arith, h, b)) in
            ((keyword l₂.identifier_str, l₂), some-chain _ skipped (rw e (some-chain _ taken refl)))
        | inr e ↦ elim (Bool-cases (is_digit c)) [
          | inl e' ↦
              let (l₂, taken, _) = take_number-Within f [] l₁ (omega (arith, h, b)) in
              ((tok_number, l₂), some-chain _ skipped (rw (e, e') (some-chain _ taken refl)))
          | inr e' ↦ elim (Bool-cases (c == b'#')) [
            | inr e″ ↦ (take_symbol text_source l₁, some-chain _ skipped (rw (e, e', e″) refl))
            | inl e″ ↦
                let (l₂, taken, less) = skip_comment-ends f l₁ (omega (arith, h, b)) in
                elim (Bool-cases (same l₂.last_char tok_eof)) [
                  | inl d ↦ (
                    take_symbol text_source l₂,
                    some-chain _ skipped (rw (e, e', e″) (some-chain _ taken (rw d refl))),
                  )
                  | inr d ↦
                      let more : length l₂.source < length l₁.source = elim less [
                        | inl q ↦ absurd (cc (d, eof-same l₂.last_char q))
                        | inr lt ↦ lt
                      ] in
                      let (p, r) = get_tok-Ended f false l₂ (omega (arith, h, b, more)) in
                      (p, some-chain _ skipped (rw (e, e', e″) (some-chain _ taken (rw d r))))
                ]
          ]
        ]
      ]

  get_tok-Ended :
      (f : ℕ) (peek : Bool) (l : Lexer Text)
      → 2 * length l.source + 5 ≤ f
      → Ended (get_tok text_source f peek l)
  get_tok-Ended zero peek l h = absurd (omega (arith, h))
  get_tok-Ended (suc f) peek l h = elim (List-cases l.tokens) [
    | inl e ↦
        let ((t, l'), r) = get_tok_input-Ended f l (omega (arith, h)) in
        (_, get_tok-empty text_source f peek l e ∙ some-chain _ r refl)
    | inr ((t, s), q, e) ↦ (_, get_tok-queued text_source f peek l t s q e)
  ]

-- The tokens of the lines are those of the text.
some-map_token :
    (o : Option (Token × Lexer Buffer)) {p : Token × Lexer Text}
    → map_token view o ≡ some p
    → (q : Token × Lexer Buffer) × (o ≡ some q)
some-map_token none e = absurd (none-ne-some e)
some-map_token (some q) e = (q, refl)

-- The lexer over its line buffer ends: with fuel from twice the characters still to come and 5 on,
-- getTok gives a token, peeked at or not.
pub get_tok-ends :
    (f : ℕ) (peek : Bool) (l : Lexer Buffer)
    → 2 * length (view l.source) + 5 ≤ f
    → (p : Token × Lexer Buffer) × (get_tok buffer_source f peek l ≡ some p)
get_tok-ends f peek l h =
    let (p, r) = get_tok-Ended f peek (map_source view l) h in
    some-map_token (get_tok buffer_source f peek l) (sym (get_tok-still_to_come f peek l) ∙ r)

-- With fuel from twice the characters still to come and 5 on, and nothing queued, peekNextToken
-- over the line buffer gives a token, keeps the name of the current token, gives the same when it
-- is done again, and the next token is the one that would have come without it, with the same
-- state behind it.
pub peek_next_token-buffer :
    (f : ℕ) (l : Lexer Buffer)
    → l.tokens ≡ []
    → 2 * length (view l.source) + 5 ≤ f
    → (t : Token) × (l' : Lexer Buffer) × (peek_next_token buffer_source f l ≡ some (t, l'))
      × Transparent buffer_source f l t l'
unfolding peek_next_token
peek_next_token-buffer f l e h =
    let ((t, l'), r) = get_tok-ends f true l h in
    (t, l', r, peek_next_token-Transparent buffer_source f l t l' e r)
