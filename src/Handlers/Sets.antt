-- ===== src/Handlers/Sets.antt =====
-- Lists of handlers as sets.
use alkali.Prelude.{
  ℕ, ◌≡◌, ◌≢◌, refl, true, false, List, [], ◌∷◌, ◌++◌, arith, Bool-cases, inl, inr, ◌⊎◌, ◌||◌,
}
use alkali.Handlers.Maps.{any_of}

-- A list without repetitions.
abbrev pub Unique : List ℕ → Type 0
Unique [] = Unit
Unique (x ∷ xs) = (any_of xs x ≡ false) × Unique xs

pub any_of-append : (xs ys : List ℕ) (v : ℕ) → any_of (xs ++ ys) v ≡ (any_of xs v || any_of ys v)
unfolding any_of
any_of-append [] ys v = refl
any_of-append (x ∷ xs) ys v = ground (arith, any_of-append xs ys v)

pub any_of-or :
    (xs ys : List ℕ) (v : ℕ)
    → any_of (xs ++ ys) v ≡ true
    → (any_of xs v ≡ true) ⊎ (any_of ys v ≡ true)
any_of-or xs ys v h = ground (arith, any_of-append xs ys v, h)

pub any_of-left : (xs ys : List ℕ) (v : ℕ) → any_of xs v ≡ true → any_of (xs ++ ys) v ≡ true
any_of-left xs ys v h = ground (arith, any_of-append xs ys v, h)

pub any_of-right : (xs ys : List ℕ) (v : ℕ) → any_of ys v ≡ true → any_of (xs ++ ys) v ≡ true
any_of-right xs ys v h = ground (arith, any_of-append xs ys v, h)

pub any_of-cons :
    (x v : ℕ) (xs : List ℕ) → any_of (x ∷ xs) v ≡ true → (x ≡ v) ⊎ (any_of xs v ≡ true)
unfolding any_of
any_of-cons x v xs h = ground arith

pub any_of-here : (v : ℕ) (xs : List ℕ) → any_of (v ∷ xs) v ≡ true
unfolding any_of
any_of-here v xs = ground arith

pub any_of-there : (x v : ℕ) (xs : List ℕ) → any_of xs v ≡ true → any_of (x ∷ xs) v ≡ true
unfolding any_of
any_of-there x v xs h = ground arith

pub not_any_of-cons :
    (x v : ℕ) (xs : List ℕ) → any_of (x ∷ xs) v ≡ false → (x ≢ v) × (any_of xs v ≡ false)
unfolding any_of
not_any_of-cons x v xs h = (λ e. ground arith, ground arith)

pub any_of-no : (xs : List ℕ) (v : ℕ) → (any_of xs v ≢ true) → any_of xs v ≡ false
any_of-no xs v h = elim (Bool-cases (any_of xs v)) [ inl e ↦ absurd (h e) | inr e ↦ e ]

pub Unique-snoc : (xs : List ℕ) (v : ℕ) → Unique xs → any_of xs v ≡ false → Unique (xs ++ (v ∷ []))
unfolding any_of
Unique-snoc [] v u h = (refl, tt)
Unique-snoc (x ∷ xs) v (n, u) h =
    let (ne, h') = not_any_of-cons x v xs h in
    (ground (arith, any_of-append xs (v ∷ []) x, n, ne), Unique-snoc xs v u h')

pub Unique-append : (xs ys : List ℕ) → Unique (xs ++ ys) → Unique xs × Unique ys
Unique-append [] ys u = (tt, u)
Unique-append (x ∷ xs) ys (n, u) =
    let (us, vs) = Unique-append xs ys u in ((ground (arith, any_of-append xs ys x, n), us), vs)

pub Unique-disjoint :
    (xs ys : List ℕ) (v : ℕ) → Unique (xs ++ ys) → any_of ys v ≡ true → any_of xs v ≡ false
unfolding any_of
Unique-disjoint [] ys v u h = refl
Unique-disjoint (x ∷ xs) ys v (n, u) h =
    let r = Unique-disjoint xs ys v u h in ground (arith, any_of-append xs ys x, n, r, h)
