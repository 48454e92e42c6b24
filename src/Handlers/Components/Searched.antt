-- ===== src/Handlers/Components/Searched.antt =====
-- The search from one handler: what it colors, and what it leaves.
use alkali.Prelude.{
  ℕ, ◌≡◌, ◌≢◌, sym, ap, ◌∙◌, subst, true, List, [], ◌∷◌, ◌==◌, ==_iff, arith, Bool-cases, inl, inr,
  ◌⊎◌,
}
use alkali.Handlers.Maps.{Map, at, put, any_of, at-put, at-put_other}
use alkali.Handlers.Sets.{any_of-here, any_of-there, any_of-cons}
use alkali.Handlers.Components.{Graph, uncolored}
use alkali.Handlers.Components.Release.{keys}

abbrev pub color_of : Map ℕ → ℕ → ℕ
color_of color v = at 0 color v

pub color_of-put :
    (color : Map ℕ) (k c v : ℕ)
    → ((k ≡ v) × (color_of (put k c color) v ≡ c))
      ⊎ ((k ≢ v) × (color_of (put k c color) v ≡ color_of color v))
color_of-put color k c v = elim (Bool-cases (k == v)) [
  | inl h ↦
      let e = (==_iff k v).0 h in
      inl (e, subst (λ v'. color_of (put k c color) v' ≡ c) e (at-put 0 k c color))
  | inr h ↦
      let ne : k ≢ v = λ e. cc (h, (==_iff k v).1 e) in
      inr (ne, at-put_other 0 k v c color (λ e. ne (sym e)))
]

pub uncolored-zero :
    (color : Map ℕ) (ts : List ℕ) (t : ℕ)
    → any_of (uncolored color ts) t ≡ true
    → color_of color t ≡ 0
unfolding uncolored any_of
uncolored-zero color [] t m = absurd (cc m)
uncolored-zero color (x ∷ ts) t m = elim (Bool-cases (at 0 color x == 0)) [
  | inl h ↦
      let eq : uncolored color (x ∷ ts) ≡ x ∷ uncolored color ts = rw (h, uncolored) in
      elim (any_of-cons x t (uncolored color ts) (subst (λ xs. any_of xs t ≡ true) eq m)) [
        | inl e ↦ subst (λ t'. color_of color t' ≡ 0) e ((==_iff (at 0 color x) 0).0 h)
        | inr m' ↦ uncolored-zero color ts t m'
      ]
  | inr h ↦
      let eq : uncolored color (x ∷ ts) ≡ uncolored color ts = rw (h, uncolored) in
      uncolored-zero color ts t (subst (λ xs. any_of xs t ≡ true) eq m)
]

pub uncolored-all :
    (color : Map ℕ) (ts : List ℕ) (t : ℕ)
    → any_of ts t ≡ true
    → color_of color t ≡ 0
    → any_of (uncolored color ts) t ≡ true
unfolding uncolored any_of
uncolored-all color [] t m z = m
uncolored-all color (x ∷ ts) t m z = elim (any_of-cons x t ts m) [
  | inl e ↦
      let h : (at 0 color x == 0) ≡ true = (==_iff (at 0 color x) 0).1 (ap (at 0 color) e ∙ z) in
      let eq : uncolored color (x ∷ ts) ≡ x ∷ uncolored color ts = rw (h, uncolored) in
      subst (λ xs. any_of xs t ≡ true) (sym eq)
        (subst (λ t'. any_of (x ∷ uncolored color ts) t' ≡ true) e
          (any_of-here x (uncolored color ts)))
  | inr m' ↦
      let rest = uncolored-all color ts t m' z in
      elim (Bool-cases (at 0 color x == 0)) [
        | inl h ↦
            let eq : uncolored color (x ∷ ts) ≡ x ∷ uncolored color ts = rw (h, uncolored) in
            subst (λ xs. any_of xs t ≡ true) (sym eq) (any_of-there x t (uncolored color ts) rest)
        | inr h ↦
            let eq : uncolored color (x ∷ ts) ≡ uncolored color ts = rw (h, uncolored) in
            subst (λ xs. any_of xs t ≡ true) (sym eq) rest
      ]
]

pub keys-put :
    (g : Graph) (k v : ℕ) (xs : List ℕ)
    → any_of (keys (put k xs g)) v ≡ true
    → (k ≡ v) ⊎ (any_of (keys g) v ≡ true)
unfolding put any_of
keys-put [] k v xs m = ground arith
keys-put ((j, ys) ∷ g) k v xs m = grind (arith, m, keys-put g k v xs)

pub keys-put_kept :
    (g : Graph) (k v : ℕ) (xs : List ℕ)
    → any_of (keys g) v ≡ true
    → any_of (keys (put k xs g)) v ≡ true
unfolding put any_of
keys-put_kept [] k v xs m = absurd (cc m)
keys-put_kept ((j, ys) ∷ g) k v xs m = grind (arith, m, keys-put_kept g k v xs)

pub keys-put_here : (g : Graph) (k : ℕ) (xs : List ℕ) → any_of (keys (put k xs g)) k ≡ true
unfolding put any_of
keys-put_here [] k xs = ground arith
keys-put_here ((j, ys) ∷ g) k xs = grind (arith, keys-put_here g k xs)
