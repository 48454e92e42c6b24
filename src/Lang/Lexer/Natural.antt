-- ===== src/Lang/Lexer/Natural.antt =====
-- A lexer that reads by way of another source of characters, when the one source is a view of the
-- other: every operation commutes with the view.
use alkali.Prelude.{
  true, false, ℕ, zero, suc, Option, none, some, ◌≡◌, refl, inl, inr, Bool-cases, ◌++◌, Bool, ◌∷◌,
  [], ◌>>=◌, ◌==◌, false, List-cases, if◌then◌else◌, List, ap,
}
use alkali.Lang.Token.{Token, value, Text, same, tok_eof, tok_eq}
use alkali.Lang.Lexer.Chars.{is_space, is_number_char, is_name_char, is_alpha, is_digit}
use alkali.Lang.Lexer.Scan.{
  Source, Lexer, advance, skip_space, skip_comment, take_name, take_symbol, get_tok_input,
  take_number, in_comment, get_tok, is_comparison, get_next_token,
}

abbrev pub map_source : {S T : Type 0} → (S → T) → Lexer S → Lexer T
map_source h l = record {
  cur_tok = l.cur_tok;
  identifier_str = l.identifier_str;
  num_val = l.num_val;
  last_char = l.last_char;
  tokens = l.tokens;
  source = h l.source;
}

abbrev pub map_result : {S T : Type 0} → (S → T) → Option (Lexer S) → Option (Lexer T)
map_result h none = none
map_result h (some l) = some (map_source h l)

abbrev pub map_token :
    {S T : Type 0} → (S → T) → Option (Token × Lexer S) → Option (Token × Lexer T)
map_token h none = none
map_token h (some (t, l)) = some (t, map_source h l)

-- `getTok` by what is queued.
module _ {S : Type 0} (src : Source S) (f : ℕ) (peek : Bool) (l : Lexer S) where
  pub get_tok-empty :
      l.tokens ≡ []
      → get_tok src (suc f) peek l ≡ (do
        (tok, l') ← get_tok_input src f l
        some (
          tok,
          if peek then record l' { tokens = l'.tokens ++ (tok, l.identifier_str) ∷ [] } else l',
        ))
  unfolding get_tok
  get_tok-empty e = simp e

  pub get_tok-queued :
      (t : Token) (s : Text) (q : List (Token × Text))
      → l.tokens ≡ (t, s) ∷ q
      → get_tok src (suc f) peek l ≡ some (t, if peek then l else record l { tokens = q })
  unfolding get_tok
  get_tok-queued t s q e = simp e

-- `h` shows one source by another.
pub record IsView {S T : Type 0} (src : Source S) (dst : Source T) (h : S → T) : Type 0 where
  pub next : (s : S) → dst.next_char (h s) ≡ ((src.next_char s).0, h (src.next_char s).1)
  pub save : (s : S) → dst.save (h s) ≡ h (src.save s)

module _ {S T : Type 0} (src : Source S) (dst : Source T) (h : S → T)
    (is_view : IsView src dst h) where
  advance-view : (l : Lexer S) → advance dst (map_source h l) ≡ map_source h (advance src l)
  unfolding advance
  advance-view l = rw (is_view.next l.source)

  skip_space-view :
      (f : ℕ) (l : Lexer S) → skip_space dst f (map_source h l) ≡ map_result h (skip_space src f l)
  unfolding skip_space
  skip_space-view zero l = refl
  skip_space-view (suc f) l = elim (Bool-cases (is_space (value l.last_char))) [
    | inl e ↦ rw (e, skip_space, advance-view l) (skip_space-view f (advance src l))
    | inr e ↦ rw (e, skip_space)
  ]

  take_name-view :
      (f : ℕ) (l : Lexer S) → take_name dst f (map_source h l) ≡ map_result h (take_name src f l)
  unfolding take_name
  take_name-view zero l = refl
  take_name-view (suc f) l =
      let l' = advance src l in
      let longer : Lexer S = record l' {
        identifier_str = l'.identifier_str ++ value l'.last_char ∷ [];
      } in
      elim (Bool-cases (is_name_char (value l'.last_char))) [
        | inl e ↦
            rw (is_view.next l.source, e, take_name, is_view.next l.source)
              (take_name-view f longer)
        | inr e ↦ rw (is_view.next l.source, e, take_name, is_view.next l.source)
      ]

  take_number-view :
      (f : ℕ) (str : Text) (l : Lexer S)
      → take_number dst f str (map_source h l) ≡ map_result h (take_number src f str l)
  unfolding take_number
  take_number-view zero str l = refl
  take_number-view (suc f) str l =
      let l' = advance src l in
      elim (Bool-cases (is_number_char (value l'.last_char))) [
        | inl e ↦
            rw (is_view.next l.source, e, take_number, is_view.next l.source)
              (take_number-view f _ l')
        | inr e ↦ rw (is_view.next l.source, e, take_number, is_view.next l.source)
      ]

  skip_comment-view :
      (f : ℕ) (l : Lexer S)
      → skip_comment dst f (map_source h l) ≡ map_result h (skip_comment src f l)
  unfolding skip_comment
  skip_comment-view zero l = refl
  skip_comment-view (suc f) l =
      let l' = advance src l in
      elim (Bool-cases (in_comment l'.last_char)) [
        | inl e ↦
            rw (is_view.next l.source, e, skip_comment, is_view.next l.source)
              (skip_comment-view f l')
        | inr e ↦ rw (is_view.next l.source, e, skip_comment, is_view.next l.source)
      ]

  take_symbol-view :
      (l : Lexer S)
      → take_symbol dst (map_source h l)
        ≡ ((take_symbol src l).0, map_source h (take_symbol src l).1)
  unfolding take_symbol
  take_symbol-view l = elim (Bool-cases (same l.last_char tok_eof)) [
    | inl e ↦ rw e
    | inr e ↦ elim (Bool-cases (is_comparison l.last_char)) [
      | inl e' ↦ elim (Bool-cases (same (advance src l).last_char tok_eq)) [
        | inl e″ ↦ rw (e, e', is_view.next l.source, e″, is_view.next (src.next_char l.source).1)
        | inr e″ ↦ rw (e, e', is_view.next l.source, e″)
      ]
      | inr e' ↦ rw (e, e', is_view.next l.source)
    ]
  ]

  if-view :
      (b : Bool) (l l' : Lexer S)
      → (if b then map_source h l else map_source h l') ≡ map_source h (if b then l else l')
  if-view true l l' = refl
  if-view false l l' = refl

  >>=-view :
      (o : Option (Lexer S)) (k : Lexer S → Option (Token × Lexer S))
      (k' : Lexer T → Option (Token × Lexer T))
      → ((l : Lexer S) → k' (map_source h l) ≡ map_token h (k l))
      → (map_result h o >>= k') ≡ map_token h (o >>= k)
  >>=-view none k k' e = refl
  >>=-view (some l) k k' e = e l

  >>=-view' :
      (o : Option (Token × Lexer S)) (k : Token × Lexer S → Option (Token × Lexer S))
      (k' : Token × Lexer T → Option (Token × Lexer T))
      → ((t : Token) (l : Lexer S) → k' (t, map_source h l) ≡ map_token h (k (t, l)))
      → (map_token h o >>= k') ≡ map_token h (o >>= k)
  >>=-view' none k k' e = refl
  >>=-view' (some (t, l)) k k' e = e t l

  mutual
    unfolding get_tok_input

    get_tok_input-view :
        (f : ℕ) (l : Lexer S)
        → get_tok_input dst f (map_source h l) ≡ map_token h (get_tok_input src f l)
    get_tok_input-view zero l = refl
    get_tok_input-view (suc f) l = rw (skip_space-view f l) (
        >>=-view (skip_space src f l) _ _ λ l₁.
          let saved : Lexer S = record l₁ { source = src.save l₁.source } in
          let c = value l₁.last_char in
          elim (Bool-cases (is_alpha c)) [
            | inl e ↦
                let begun : Lexer S = record saved { identifier_str = c ∷ [] } in
                rw (e, is_view.save l₁.source, take_name-view f begun)
                  (>>=-view (take_name src f begun) _ _ λ l₃. refl)
            | inr e ↦ elim (Bool-cases (is_digit c)) [
              | inl e' ↦
                  rw (e, e', is_view.save l₁.source, take_number-view f [] saved)
                    (>>=-view (take_number src f [] saved) _ _ λ l₃. refl)
              | inr e' ↦ elim (Bool-cases (c == b'#')) [
                | inl e″ ↦
                    rw (e, e', e″, is_view.save l₁.source, skip_comment-view f saved)
                      (>>=-view (skip_comment src f saved) _ _ λ l₃.
                        elim (Bool-cases (same l₃.last_char tok_eof)) [
                          | inl d ↦ rw (d, take_symbol-view l₃)
                          | inr d ↦ rw d (get_tok-view f false l₃)
                        ])
                | inr e″ ↦ rw (e, e', e″, is_view.save l₁.source, take_symbol-view saved)
              ]
            ]
          ])

    pub get_tok-view :
        (f : ℕ) (peek : Bool) (l : Lexer S)
        → get_tok dst f peek (map_source h l) ≡ map_token h (get_tok src f peek l)
    get_tok-view zero peek l = refl
    get_tok-view (suc f) peek l = elim (List-cases l.tokens) [
      | inl e ↦
          rw
            (
              get_tok-empty dst f peek (map_source h l) e,
              get_tok-empty src f peek l e,
              get_tok_input-view f l,
            )
            (>>=-view' (get_tok_input src f l) _ _ λ t l'.
              ap (λ x. some (t, x))
                (if-view peek (record l' { tokens = l'.tokens ++ (t, l.identifier_str) ∷ [] }) l'))
      | inr ((t, s), q, e) ↦
          rw
            (
              get_tok-queued dst f peek (map_source h l) t s q e,
              get_tok-queued src f peek l t s q e,
            )
            (ap (λ x. some (t, x)) (if-view peek l (record l { tokens = q })))
    ]

  >>=-result :
      (o : Option (Token × Lexer S))
      → (map_token h o >>= λ (tok, l'). some (record l' { cur_tok = tok }))
        ≡ map_result h (o >>= λ (tok, l'). some (record l' { cur_tok = tok }))
  >>=-result none = refl
  >>=-result (some (t, l)) = refl

  pub get_next_token-view :
      (f : ℕ) (l : Lexer S)
      → get_next_token dst f (map_source h l) ≡ map_result h (get_next_token src f l)
  unfolding get_next_token
  get_next_token-view f l = rw (get_tok-view f false l) (>>=-result (get_tok src f false l))
