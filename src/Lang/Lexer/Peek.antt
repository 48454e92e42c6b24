-- ===== src/Lang/Lexer/Peek.antt =====
-- include/ep2/lang/Lexer.h: peeking at a token, and the queue in which it is kept.
use alkali.Prelude.{
  some-injective, refl, ◌∙◌, ◌>>=◌, ℕ, zero, suc, false, [], ◌∷◌, ◌≡◌, Option, none, some, ◌==◌,
  inl, inr, Bool-cases, subst, ◌<◌, ap, true, arith, ◌++◌, sym, Option-cases,
}
use alkali.Lang.Token.{Text, Token, value, same, tok_eof, tok_eq}
use alkali.Lang.Lexer.Chars.{is_space, is_alpha, is_digit, is_name_char, is_number_char}
use alkali.Lang.Lexer.Scan.{
  Source, Lexer, advance, skip_space, take_name, take_number, skip_comment, take_symbol,
  get_tok_input, get_tok, in_comment, is_comparison, get_identifier_str, peek_next_token,
  get_next_token,
}
use alkali.Lang.Lexer.Natural.{get_tok-empty}

-- A result that has nothing queued.
abbrev pub Unqueued : {S : Type 0} → Option (Lexer S) → Type 0
Unqueued none = Unit
Unqueued (some l) = l.tokens ≡ []

abbrev pub TokenUnqueued : {S : Type 0} → Option (Token × Lexer S) → Type 0
TokenUnqueued none = Unit
TokenUnqueued (some (t, l)) = l.tokens ≡ []

module _ {S : Type 0} (src : Source S) where
  skip_space-Unqueued : (f : ℕ) (l : Lexer S) → l.tokens ≡ [] → Unqueued (skip_space src f l)
  unfolding skip_space advance
  skip_space-Unqueued zero l e = tt
  skip_space-Unqueued (suc f) l e = elim (Bool-cases (is_space (value l.last_char))) [
    | inl b ↦ rw (skip_space, b) (skip_space-Unqueued f (advance src l) e)
    | inr b ↦ rw (skip_space, b) e
  ]

  take_name-Unqueued : (f : ℕ) (l : Lexer S) → l.tokens ≡ [] → Unqueued (take_name src f l)
  unfolding take_name advance
  take_name-Unqueued zero l e = tt
  take_name-Unqueued (suc f) l e =
      elim (Bool-cases (is_name_char (value (advance src l).last_char))) [
        | inl b ↦ rw (take_name, b) (take_name-Unqueued f _ e)
        | inr b ↦ rw (take_name, b) e
      ]

  take_number-Unqueued :
      (f : ℕ) (str : Text) (l : Lexer S) → l.tokens ≡ [] → Unqueued (take_number src f str l)
  unfolding take_number advance
  take_number-Unqueued zero str l e = tt
  take_number-Unqueued (suc f) str l e =
      elim (Bool-cases (is_number_char (value (advance src l).last_char))) [
        | inl b ↦ rw (take_number, b) (take_number-Unqueued f _ (advance src l) e)
        | inr b ↦ rw (take_number, b) e
      ]

  skip_comment-Unqueued : (f : ℕ) (l : Lexer S) → l.tokens ≡ [] → Unqueued (skip_comment src f l)
  unfolding skip_comment advance
  skip_comment-Unqueued zero l e = tt
  skip_comment-Unqueued (suc f) l e = elim (Bool-cases (in_comment (advance src l).last_char)) [
    | inl b ↦ rw (skip_comment, b) (skip_comment-Unqueued f (advance src l) e)
    | inr b ↦ rw (skip_comment, b) e
  ]

  take_symbol-Unqueued : (l : Lexer S) → l.tokens ≡ [] → (take_symbol src l).1.tokens ≡ []
  unfolding take_symbol advance
  take_symbol-Unqueued l e = elim (Bool-cases (same l.last_char tok_eof)) [
    | inl b ↦ rw b e
    | inr b ↦ elim (Bool-cases (is_comparison l.last_char)) [
      | inl b' ↦ elim (Bool-cases (same (advance src l).last_char tok_eq)) [
        | inl b″ ↦ rw (b, b', b″) e
        | inr b″ ↦ rw (b, b', b″) e
      ]
      | inr b' ↦ rw (b, b') e
    ]
  ]

  >>=-Unqueued :
      (o : Option (Lexer S)) (k : Lexer S → Option (Token × Lexer S))
      → Unqueued o
      → ((l : Lexer S) → l.tokens ≡ [] → TokenUnqueued (k l))
      → TokenUnqueued (o >>= k)
  >>=-Unqueued none k h hk = tt
  >>=-Unqueued (some l) k h hk = hk l h

  >>=-Unqueued' :
      (o : Option (Token × Lexer S)) → TokenUnqueued o → TokenUnqueued (o >>= λ x. some x)
  >>=-Unqueued' none h = tt
  >>=-Unqueued' (some (t, l)) h = h

  mutual
    unfolding get_tok_input

    get_tok_input-Unqueued :
        (f : ℕ) (l : Lexer S) → l.tokens ≡ [] → TokenUnqueued (get_tok_input src f l)
    get_tok_input-Unqueued zero l e = tt
    get_tok_input-Unqueued (suc f) l e =
        >>=-Unqueued (skip_space src f l) _ (skip_space-Unqueued f l e) λ l₁ e₁.
          let saved : Lexer S = record l₁ { source = src.save l₁.source } in
          let c = value l₁.last_char in
          elim (Bool-cases (is_alpha c)) [
            | inl b ↦
                let begun : Lexer S = record saved { identifier_str = c ∷ [] } in
                rw b (
                  >>=-Unqueued (take_name src f begun) _ (take_name-Unqueued f begun e₁)
                    λ l₃ e₃. e₃)
            | inr b ↦ elim (Bool-cases (is_digit c)) [
              | inl b' ↦
                  rw (b, b')
                    (>>=-Unqueued (take_number src f [] saved) _
                      (take_number-Unqueued f [] saved e₁) λ l₃ e₃. e₃)
              | inr b' ↦ elim (Bool-cases (c == b'#')) [
                | inl b″ ↦
                    rw (b, b', b″)
                      (>>=-Unqueued (skip_comment src f saved) _ (skip_comment-Unqueued f saved e₁)
                        λ l₃ e₃. elim (Bool-cases (same l₃.last_char tok_eof)) [
                          | inl d ↦ rw d (take_symbol-Unqueued l₃ e₃)
                          | inr d ↦ rw d (get_tok-Unqueued f l₃ e₃)
                        ])
                | inr b″ ↦ rw (b, b', b″) (take_symbol-Unqueued saved e₁)
              ]
            ]
          ]

    get_tok-Unqueued : (f : ℕ) (l : Lexer S) → l.tokens ≡ [] → TokenUnqueued (get_tok src f false l)
    get_tok-Unqueued zero l e = tt
    get_tok-Unqueued (suc f) l e =
        rw (get_tok-empty src f false l e)
          (>>=-Unqueued' (get_tok_input src f l) (get_tok_input-Unqueued f l e))

  -- What peeking leaves, where nothing was queued.
  abbrev queue_one : Token → Text → Lexer S → Lexer S
  queue_one t s l = record l { tokens = (t, s) ∷ [] }

  peek-result :
      (f : ℕ) (l : Lexer S) (t : Token) (l₀ : Lexer S)
      → l.tokens ≡ []
      → get_tok_input src f l ≡ some (t, l₀)
      → peek_next_token src (suc f) l ≡ some (t, queue_one t l.identifier_str l₀)
  unfolding peek_next_token
  peek-result f l t l₀ e reads =
      let unqueued : l₀.tokens ≡ [] = subst TokenUnqueued reads (get_tok_input-Unqueued f l e) in
      rw (get_tok-empty src f true l e, reads)
        (ap (λ q. some (t, record l₀ { tokens = q ++ (t, l.identifier_str) ∷ [] })) unqueued)

  pub get_next_token-result :
      (f : ℕ) (l : Lexer S) (t : Token) (l₀ : Lexer S)
      → l.tokens ≡ []
      → get_tok_input src f l ≡ some (t, l₀)
      → get_next_token src (suc f) l ≡ some (record l₀ { cur_tok = t; tokens = [] })
  unfolding get_next_token
  get_next_token-result f l t l₀ e reads =
      let unqueued : l₀.tokens ≡ [] = subst TokenUnqueued reads (get_tok_input-Unqueued f l e) in
      rw (get_tok-empty src f false l e, reads)
        (ap (λ q. some (record l₀ { cur_tok = t; tokens = q })) unqueued)

  -- What peeking does not change: with nothing queued, the name of the current token is the same
  -- before and after it, a second peek gives the same token and state, and the next token is the one
  -- that would have come without it, with the same state behind it.
  unfoldable pub Transparent : ℕ → Lexer S → Token → Lexer S → Type 0
  unfolding get_identifier_str peek_next_token get_next_token
  Transparent f l t l' =
      (get_identifier_str l' ≡ get_identifier_str l)
      × ((g : ℕ)
          → 0 < g
          → (peek_next_token src g l' ≡ some (t, l'))
            × (get_next_token src g l' ≡ get_next_token src f l))

  queued-again :
      (g f : ℕ) (l : Lexer S) (t : Token) (l₀ : Lexer S)
      → l.tokens ≡ []
      → get_tok_input src f l ≡ some (t, l₀)
      → 0 < g
      → (peek_next_token src g (queue_one t l.identifier_str l₀)
          ≡ some (t, queue_one t l.identifier_str l₀))
        × (get_next_token src g (queue_one t l.identifier_str l₀) ≡ get_next_token src (suc f) l)
  unfolding peek_next_token get_tok get_next_token
  queued-again zero f l t l₀ e reads b = absurd (omega arith)
  queued-again (suc g) f l t l₀ e reads b = (refl, sym (get_next_token-result f l t l₀ e reads))

  -- Peeking with nothing queued changes none of what is to come.
  pub peek_next_token-Transparent :
      (f : ℕ) (l : Lexer S) (t : Token) (l' : Lexer S)
      → l.tokens ≡ []
      → peek_next_token src f l ≡ some (t, l')
      → Transparent f l t l'
  unfolding Transparent get_identifier_str peek_next_token get_tok
  peek_next_token-Transparent zero l t l' e peeked = cc
  peek_next_token-Transparent (suc f) l t l' e peeked =
      elim (Option-cases (get_tok_input src f l)) [
        | inl n ↦
            let nothing : get_tok src (suc f) true l ≡ none =
              rw (get_tok-empty src f true l e, n) in
            cc
        | inr ((t₀, l₀), reads) ↦
            subst (λ p. Transparent (suc f) l p.0 p.1)
              (some-injective (sym (peek-result f l t₀ l₀ e reads) ∙ peeked))
              (rw e, λ g b. queued-again g f l t₀ l₀ e reads b)
      ]
