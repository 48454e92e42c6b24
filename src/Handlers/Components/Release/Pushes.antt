-- ===== src/Handlers/Components/Release/Pushes.antt =====
-- The handlers that the loop over the targets pushes onto the worklist.
use alkali.Prelude.{
  ℕ, zero, suc, ◌+◌, ◌≤◌, ◌≡◌, ◌≢◌, refl, sym, ap, ◌∙◌, subst, Bool, true, false, List, [], ◌∷◌,
  ◌++◌, ◌==◌, ==_iff, arith, ℤ, pos, predℤ, is_zero, Bool-cases, inl, inr, ◌⊎◌, if◌then◌else◌,
}
use alkali.Handlers.Maps.{Map, at, put, any_of, at-put}
use alkali.Handlers.Sets.{any_of-left, any_of-right, any_of-here}
use alkali.Handlers.Components.{release}
use alkali.Handlers.Components.Undirected.{count}
use alkali.Handlers.Components.Release.{count-there, lowered}

zero-no : {z : ℤ} (n : ℕ) → z ≡ pos n → is_zero z ≡ false → 1 ≤ n
zero-no zero e h = absurd (cc (ap is_zero e, h))
zero-no (suc n) e h = omega arith

module _ (rest : ℕ → ℕ) where
  -- A handler in the worklist stays there, and a target that has lost its last edge is pushed.
  pub release-pushes :
      (ts worklist : List ℕ) (deg : Map ℤ) (v : ℕ)
      → ((v : ℕ) → at (pos 0) deg v ≡ pos (count v ts + rest v))
      → (any_of worklist v ≡ true) ⊎ ((1 ≤ count v ts) × (rest v ≡ 0))
      → any_of (release ts worklist deg).0 v ≡ true
  unfolding release
  release-pushes [] worklist deg v degs h = elim h [
    | inl m ↦ m
    | inr (more, z) ↦ absurd (omega (arith, more))
  ]
  release-pushes (t ∷ ts) worklist deg v degs h =
      next (is_zero (predℤ (at (pos 0) deg t))) refl (release-pushes ts)
    where
      deg' : Map ℤ
      deg' = put t (predℤ (at (pos 0) deg t)) deg

      next :
          (b : Bool)
          → is_zero (predℤ (at (pos 0) deg t)) ≡ b
          → ((w : List ℕ) (d : Map ℤ) (v : ℕ)
              → ((v : ℕ) → at (pos 0) d v ≡ pos (count v ts + rest v))
              → (any_of w v ≡ true) ⊎ ((1 ≤ count v ts) × (rest v ≡ 0))
              → any_of (release ts w d).0 v ≡ true)
          → any_of (release ts (if b then worklist ++ (t ∷ []) else worklist) deg').0 v ≡ true
      next true z rec = rec (worklist ++ (t ∷ [])) deg' v (lowered rest t ts deg degs) (elim h [
        | inl m ↦ inl (any_of-left worklist (t ∷ []) v m)
        | inr (more, e) ↦ elim (Bool-cases (t == v)) [
          | inl same ↦ inl (
              any_of-right worklist (t ∷ []) v
                (subst (λ v'. any_of (t ∷ []) v' ≡ true) ((==_iff t v).0 same) (any_of-here t [])))
          | inr other ↦
              let ne : t ≢ v = λ same. cc (other, (==_iff t v).1 same) in
              inr (omega (arith, more, count-there t v ts ne), e)
        ]
      ])
      next false z rec = rec worklist deg' v (lowered rest t ts deg degs) (elim h [
        | inl m ↦ inl m
        | inr (more, e) ↦ elim (Bool-cases (t == v)) [
          | inl same ↦
              let lower =
                sym (at-put (pos 0) t (predℤ (at (pos 0) deg t)) deg)
                ∙ lowered rest t ts deg degs t in
              let left = zero-no (count t ts + rest t) lower z in
              let v_t = (==_iff t v).0 same in
              inr (
                subst (λ v'. 1 ≤ count v' ts) v_t
                    (let e' = subst (λ v'. rest v' ≡ 0) (sym v_t) e in omega (arith, left, e')),
                e,
              )
          | inr other ↦
              let ne : t ≢ v = λ same. cc (other, (==_iff t v).1 same) in
              inr (omega (arith, more, count-there t v ts ne), e)
        ]
      ])
