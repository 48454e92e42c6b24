-- ===== src/Handlers/Components/Release.antt =====
-- What is left of the in-degrees when a handler has its place in the order.
pub mod Pushes
use alkali.Prelude.{
  ℕ, zero, suc, ◌+◌, ◌≤◌, ◌≡◌, ◌≢◌, refl, sym, ap, ◌∙◌, subst, Bool, true, false, List, [], ◌∷◌,
  ◌++◌, ◌==◌, ==_iff, arith, ℤ, pos, predℤ, is_zero, Bool-cases, inl, inr, ◌⊎◌, if◌then◌else◌,
}
use alkali.Handlers.Maps.{Map, at, put, any_of, at-put, at-put_other}
use alkali.Handlers.Sets.{
  Unique, Unique-snoc, any_of-or, any_of-no, not_any_of-cons, any_of-left, any_of-right,
  any_of-here, any_of-there,
}
use alkali.Handlers.Components.{Graph, edges, release}
use alkali.Handlers.Components.Undirected.{count, count-cons, open_edges}

abbrev pub keys : Graph → List ℕ
keys [] = []
keys ((u, ts) ∷ g) = u ∷ keys g

open_edges-skip :
    (g : Graph) (done : List ℕ) (c v : ℕ)
    → any_of (keys g) c ≡ false
    → open_edges g (c ∷ done) v ≡ open_edges g done v
unfolding any_of
open_edges-skip [] done c v h = refl
open_edges-skip ((u, ts) ∷ g) done c v h =
    let (ne, h') = not_any_of-cons u c (keys g) h in
    let r = open_edges-skip g done c v h' in ground (arith, ne, r)

pub open_edges-step :
    (g : Graph) (done : List ℕ) (c v : ℕ)
    → Unique (keys g)
    → any_of done c ≡ false
    → open_edges g done v ≡ count v (edges g c) + open_edges g (c ∷ done) v
unfolding any_of at
open_edges-step [] done c v u h = omega arith
open_edges-step ((u', ts) ∷ g) done c v (n, u) h =
    let r = open_edges-step g done c v u h in grind (arith, r, n, h, open_edges-skip g done c v)

pub open_edges-zero :
    (g : Graph) (done : List ℕ) (v u : ℕ)
    → open_edges g done v ≡ 0
    → (count v (edges g u) ≡ 0) ⊎ (any_of done u ≡ true)
unfolding at
open_edges-zero [] done v u h = inl refl
open_edges-zero ((u', ts) ∷ g) done v u h = grind (arith, h, open_edges-zero g done v u)

pub count-here : (t : ℕ) (ts : List ℕ) → count t (t ∷ ts) ≡ suc (count t ts)
count-here t ts = ground arith

pub count-there : (t v : ℕ) (ts : List ℕ) → t ≢ v → count v (t ∷ ts) ≡ count v ts
count-there t v ts ne = ground arith

pub any_of-one : (t v : ℕ) → any_of (t ∷ []) v ≡ true → t ≡ v
unfolding any_of
any_of-one t v h = ground arith

pub zero-is_zero : {z : ℤ} (n : ℕ) → z ≡ pos n → is_zero z ≡ true → n ≡ 0
zero-is_zero zero e h = refl
zero-is_zero (suc n) e h = absurd (cc (e, h))

pub zero_or_positive : (n : ℕ) → (n ≡ 0) ⊎ (1 ≤ n)
zero_or_positive zero = inl refl
zero_or_positive (suc n) = inr (omega arith)

-- An open edge comes from a handler that is not done.
pub open_edges-positive :
    (g : Graph) (done : List ℕ) (v : ℕ)
    → Unique (keys g)
    → 1 ≤ open_edges g done v
    → (u : ℕ) × (any_of (keys g) u ≡ true) × (1 ≤ count v (edges g u)) × (any_of done u ≡ false)
unfolding any_of at
open_edges-positive [] done v uk h = absurd (omega (arith, h))
open_edges-positive ((u', ts) ∷ g) done v (n, uk) h = elim (Bool-cases (any_of done u')) [
  | inl d ↦ later (open_edges-positive g done v uk (subst (λ k. 1 ≤ k) (rw (d, open_edges)) h))
  | inr d ↦ elim (zero_or_positive (count v ts)) [
    | inl z ↦
        let eq : open_edges ((u', ts) ∷ g) done v ≡ count v ts + open_edges g done v =
          rw (d, open_edges) in
        later (open_edges-positive g done v uk (omega (arith, h, eq, z)))
    | inr more ↦ (u', any_of-here u' (keys g), ground (arith, more), d)
  ]
]
  where
    later :
        ((u : ℕ) × (any_of (keys g) u ≡ true) × (1 ≤ count v (edges g u)) × (any_of done u ≡ false))
        → (u : ℕ) × (any_of (keys ((u', ts) ∷ g)) u ≡ true)
          × (1 ≤ count v (edges ((u', ts) ∷ g) u))
          × (any_of done u ≡ false)
    later (u, k, more, d) = (u, any_of-there u' u (keys g) k, grind (arith, k, n, more), d)

pub count-any_of : (v : ℕ) (xs : List ℕ) → 1 ≤ count v xs → any_of xs v ≡ true
unfolding any_of
count-any_of v [] h = absurd (omega (arith, h))
count-any_of v (x ∷ xs) h = grind (arith, h, count-any_of v xs)

module _ (rest : ℕ → ℕ) where
  -- What the loop over the targets leaves.
  abbrev pub Released : List ℕ → List ℕ → List ℕ × Map ℤ → Type 0
  Released ts worklist r =
      ((v : ℕ) → at (pos 0) r.1 v ≡ pos (rest v))
      × Unique r.0
      × ((v : ℕ) → any_of r.0 v ≡ true → rest v ≡ 0)
      × ((v : ℕ) → any_of r.0 v ≡ true → (any_of worklist v ≡ true) ⊎ (1 ≤ count v ts))

  lowered :
      (t : ℕ) (ts : List ℕ) (deg : Map ℤ)
      → ((v : ℕ) → at (pos 0) deg v ≡ pos (count v (t ∷ ts) + rest v))
      → (v : ℕ) → at (pos 0) (put t (predℤ (at (pos 0) deg t)) deg) v ≡ pos (count v ts + rest v)
  lowered t ts deg degs v = elim (Bool-cases (t == v)) [
    | inl h ↦
        let same = (==_iff t v).0 h in
        let e : at (pos 0) deg t ≡ pos (suc (count t ts + rest t)) =
          degs t ∙ ap pos (omega (arith, count-here t ts)) in
        subst
          (λ v'. at (pos 0) (put t (predℤ (at (pos 0) deg t)) deg) v' ≡ pos (count v' ts + rest v'))
          same (at-put (pos 0) t (predℤ (at (pos 0) deg t)) deg ∙ ap predℤ e)
    | inr h ↦
        let ne : t ≢ v = λ same. cc (h, (==_iff t v).1 same) in
        at-put_other (pos 0) t v (predℤ (at (pos 0) deg t)) deg (λ e. ne (sym e))
        ∙ (degs v ∙ ap pos (omega (arith, count-there t v ts ne)))
  ]

  pub release-Released :
      (ts worklist : List ℕ) (deg : Map ℤ)
      → ((v : ℕ) → at (pos 0) deg v ≡ pos (count v ts + rest v))
      → Unique worklist
      → ((v : ℕ) → any_of worklist v ≡ true → count v ts + rest v ≡ 0)
      → Released ts worklist (release ts worklist deg)
  unfolding release
  release-Released [] worklist deg degs u z = (
    λ v. degs v ∙ ap pos (omega arith),
    u,
    λ v h. (let e = z v h in omega (arith, e)),
    λ v h. inl h,
  )
  release-Released (t ∷ ts) worklist deg degs u z =
      next (is_zero (predℤ (at (pos 0) deg t))) refl (release-Released ts)
    where
      deg' : Map ℤ
      deg' = put t (predℤ (at (pos 0) deg t)) deg

      next :
          (b : Bool)
          → is_zero (predℤ (at (pos 0) deg t)) ≡ b
          → ((w : List ℕ) (d : Map ℤ)
              → ((v : ℕ) → at (pos 0) d v ≡ pos (count v ts + rest v))
              → Unique w
              → ((v : ℕ) → any_of w v ≡ true → count v ts + rest v ≡ 0)
              → Released ts w (release ts w d))
          → Released
              (t ∷ ts)
              worklist
              (release ts (if b then worklist ++ (t ∷ []) else worklist) deg')
      next true h rec =
          let none : any_of worklist t ≡ false =
            any_of-no worklist t
              (λ m. let e = z t m in absurd (omega (arith, e, count-here t ts))) in
          let last : count t ts + rest t ≡ 0 =
            zero-is_zero _
              (sym (at-put (pos 0) t (predℤ (at (pos 0) deg t)) deg) ∙ lowered t ts deg degs t) h in
          let zeros : (v : ℕ) → any_of (worklist ++ (t ∷ [])) v ≡ true → count v ts + rest v ≡ 0 =
            λ v m. elim (any_of-or worklist (t ∷ []) v m) [
              | inl old ↦ (let e = z v old in omega (arith, e, count-cons v t ts))
              | inr new ↦ subst (λ v'. count v' ts + rest v' ≡ 0) (any_of-one t v new) last
            ] in
          let (d, u', z', from) =
            rec (worklist ++ (t ∷ [])) deg' (lowered t ts deg degs) (Unique-snoc worklist t u none)
              zeros in
          (
            d,
            u',
            z',
            λ v m. elim (from v m) [
              | inl there ↦ elim (any_of-or worklist (t ∷ []) v there) [
                | inl old ↦ inl old
                | inr new ↦ inr (
                    subst (λ v'. 1 ≤ count v' (t ∷ ts)) (any_of-one t v new)
                      (omega (arith, count-here t ts)))
              ]
              | inr more ↦ inr (omega (arith, more, count-cons v t ts))
            ],
          )
      next false h rec =
          let olds : (v : ℕ) → any_of worklist v ≡ true → count v ts + rest v ≡ 0 =
            λ v m. (let e = z v m in omega (arith, e, count-cons v t ts)) in
          let (d, u', z', from) = rec worklist deg' (lowered t ts deg degs) u olds in
          (
            d,
            u',
            z',
            λ v m. elim (from v m) [
              | inl old ↦ inl old
              | inr more ↦ inr (omega (arith, more, count-cons v t ts))
            ],
          )
