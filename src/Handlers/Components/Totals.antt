-- ===== src/Handlers/Components/Totals.antt =====
-- What is left of the in-degrees, all together, in a map in the order of its keys.
use alkali.Prelude.{
  ℕ, zero, suc, ◌+◌, ◌≤◌, ◌<◌, ◌≡◌, ◌≢◌, refl, sym, ap, subst, false, [], ◌∷◌, arith, inl, inr, ◌⊎◌,
  ℤ, pos, negsuc, predℤ, is_zero,
}
use native.Mathlib.Omega.{compare-lt, compare-eq, compare-gt}
use Prim.Native.Nat.{compare, Ordering}
use alkali.Handlers.Maps.{Map, at, put}

-- The entries of a map are in the order of their keys.
abbrev pub Above : ℕ → Map ℤ → Type 0
Above j [] = Unit
Above j ((k, v) ∷ m) = (j < k) × Above j m

abbrev pub Sorted : Map ℤ → Type 0
Sorted [] = Unit
Sorted ((k, v) ∷ m) = Above k m × Sorted m

pub Above-less : (j k : ℕ) (m : Map ℤ) → j < k → Above k m → Above j m
Above-less j k [] h a = tt
Above-less j k ((i, w) ∷ m) h (h', a) = (omega (arith, h, h'), Above-less j k m h a)

-- Where a write goes.
pub put-cases :
    (k : ℕ) (v : ℤ) (i : ℕ) (w : ℤ) (m : Map ℤ)
    → ((k < i) × (put k v ((i, w) ∷ m) ≡ (k, v) ∷ (i, w) ∷ m))
      ⊎ (((k ≡ i) × (put k v ((i, w) ∷ m) ≡ (k, v) ∷ m))
          ⊎ ((i < k) × (put k v ((i, w) ∷ m) ≡ (i, w) ∷ put k v m)))
unfolding put
put-cases k v i w m = go (compare k i) refl
  where
    go :
        (o : Ordering)
        → compare k i ≡ o
        → ((k < i)
            × (elim o [
              | Ordering.lt ↦ (k, v) ∷ (i, w) ∷ m
              | Ordering.eq ↦ (k, v) ∷ m
              | Ordering.gt ↦ (i, w) ∷ put k v m
            ]
                ≡ (k, v) ∷ (i, w) ∷ m))
          ⊎ (((k ≡ i)
                × (elim o [
                  | Ordering.lt ↦ (k, v) ∷ (i, w) ∷ m
                  | Ordering.eq ↦ (k, v) ∷ m
                  | Ordering.gt ↦ (i, w) ∷ put k v m
                ]
                    ≡ (k, v) ∷ m))
              ⊎ ((i < k)
                  × (elim o [
                    | Ordering.lt ↦ (k, v) ∷ (i, w) ∷ m
                    | Ordering.eq ↦ (k, v) ∷ m
                    | Ordering.gt ↦ (i, w) ∷ put k v m
                  ]
                      ≡ (i, w) ∷ put k v m)))
    go Ordering.lt e = inl (compare-lt k i e, refl)
    go Ordering.eq e = inr (inl (compare-eq k i e, refl))
    go Ordering.gt e = inr (inr (compare-gt k i e, refl))

pub put-Above : (j k : ℕ) (v : ℤ) (m : Map ℤ) → j < k → Above j m → Above j (put k v m)
unfolding put
put-Above j k v [] h a = (h, tt)
put-Above j k v ((i, w) ∷ m) h (h', a) = elim (put-cases k v i w m) [
  | inl (l, e) ↦ subst (Above j) (sym e) (h, (h', a))
  | inr (inl (l, e)) ↦ subst (Above j) (sym e) (h, a)
  | inr (inr (l, e)) ↦ subst (Above j) (sym e) (h', put-Above j k v m h a)
]

pub put-Sorted : (k : ℕ) (v : ℤ) (m : Map ℤ) → Sorted m → Sorted (put k v m)
unfolding put
put-Sorted k v [] s = (tt, tt)
put-Sorted k v ((i, w) ∷ m) (a, s) = elim (put-cases k v i w m) [
  | inl (l, e) ↦ subst Sorted (sym e) ((l, Above-less k i m l a), (a, s))
  | inr (inl (l, e)) ↦ subst Sorted (sym e) (subst (λ k'. Above k' m) (sym l) a, s)
  | inr (inr (l, e)) ↦ subst Sorted (sym e) (put-Above i k v m l a, put-Sorted k v m s)
]

abbrev pub weight : ℤ → ℕ
weight z = elim z [ pos n ↦ n | negsuc n ↦ 0 ]

abbrev pub total : Map ℤ → ℕ
total [] = 0
total ((k, z) ∷ m) = weight z + total m

pub at-Above : (k j : ℕ) (m : Map ℤ) → k ≤ j → Above j m → at (pos 0) m k ≡ pos 0
unfolding at
at-Above k j [] h a = refl
at-Above k j ((i, w) ∷ m) h (h', a) = grind (arith, at-Above k j m h a)

pub at-here : (k : ℕ) (w : ℤ) (m : Map ℤ) → at (pos 0) ((k, w) ∷ m) k ≡ w
unfolding at
at-here k w m = ground arith

pub at-there : (k i : ℕ) (w : ℤ) (m : Map ℤ) → k ≢ i → at (pos 0) ((i, w) ∷ m) k ≡ at (pos 0) m k
unfolding at
at-there k i w m ne = ground arith

pub total-put-nil :
    (k : ℕ) (z : ℤ) → total (put k z []) + weight (at (pos 0) [] k) ≡ total [] + weight z
unfolding put at
total-put-nil k z = omega arith

pub total-put :
    (k : ℕ) (z : ℤ) (m : Map ℤ)
    → Sorted m
    → total (put k z m) + weight (at (pos 0) m k) ≡ total m + weight z
total-put k z [] s = total-put-nil k z
total-put k z ((i, w) ∷ m) (a, s) = elim (put-cases k z i w m) [
  | inl (l, e) ↦
      let none : at (pos 0) ((i, w) ∷ m) k ≡ pos 0 =
        at-Above k k ((i, w) ∷ m) (omega arith) (l, Above-less k i m l a) in
      let t = ap total e in let o = ap weight none in omega (arith, t, o)
  | inr (inl (l, e)) ↦
      let here : at (pos 0) ((i, w) ∷ m) k ≡ w =
        subst (λ i'. at (pos 0) ((i', w) ∷ m) k ≡ w) l (at-here k w m) in
      let t = ap total e in let o = ap weight here in omega (arith, t, o)
  | inr (inr (l, e)) ↦
      let rec = total-put k z m s in
      let t = ap total e in
      let o = ap weight (at-there k i w m (λ same. absurd (omega (arith, l, same)))) in
      omega (arith, t, o, rec)
]

-- One target: a push costs as much as it lowers.
pub pred-weight :
    (z : ℤ)
    → (weight (predℤ z) ≤ weight z)
      × ((is_zero (predℤ z) ≡ false) ⊎ (suc (weight (predℤ z)) ≡ weight z))
pred-weight (pos zero) = (omega arith, inl refl)
pred-weight (pos (suc zero)) = (omega arith, inr refl)
pred-weight (pos (suc (suc n))) = (omega arith, inl refl)
pred-weight (negsuc n) = (omega arith, inl refl)
