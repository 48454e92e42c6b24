-- ===== src/Handlers/Components/Colorless.antt =====
-- The handlers without color, in the map of colors and in a worklist.
use alkali.Prelude.{
  ℕ, suc, ◌≤◌, ◌<◌, ◌≡◌, refl, sym, ◌∙◌, subst, true, false, List, [], ◌∷◌, ◌++◌, ◌==◌, ==_iff,
  arith, Bool-cases, inl, inr,
}
use alkali.Handlers.Maps.{Map, at, put, any_of}
use alkali.Handlers.Sets.{any_of-here, any_of-there, any_of-cons}
use alkali.Handlers.Components.{uncolored}
use alkali.Handlers.Components.Searched.{color_of, color_of-put}

-- The number of keys without color.
abbrev pub colorless : Map ℕ → List ℕ → ℕ
colorless color [] = 0
colorless color (k ∷ ks) = elim (color_of color k == 0) [
  | true ↦ suc (colorless color ks)
  | false ↦ colorless color ks
]

pub colorless-put :
    (color : Map ℕ) (k c : ℕ) (ks : List ℕ)
    → 1 ≤ c
    → colorless (put k c color) ks ≤ colorless color ks
colorless-put color k c [] h = omega arith
colorless-put color k c (x ∷ ks) h =
    let rec = colorless-put color k c ks h in
    elim (color_of-put color k c x) [
      | inl (e, cx) ↦ ground (arith, cx, rec, h)
      | inr (ne, cx) ↦ ground (arith, cx, rec)
    ]

pub colorless-less :
    (color : Map ℕ) (k c : ℕ) (ks : List ℕ)
    → 1 ≤ c
    → color_of color k ≡ 0
    → any_of ks k ≡ true
    → colorless (put k c color) ks < colorless color ks
unfolding any_of
colorless-less color k c [] h z m = absurd (cc m)
colorless-less color k c (x ∷ ks) h z m = elim (color_of-put color k c x) [
  | inl (e, cx) ↦
      let rec = colorless-put color k c ks h in
      let z' : color_of color x ≡ 0 = subst (λ x'. color_of color x' ≡ 0) e z in
      ground (arith, cx, rec, h, z')
  | inr (ne, cx) ↦ elim (any_of-cons x k ks m) [
    | inl e ↦ absurd (ne (sym e))
    | inr m' ↦ let rec = colorless-less color k c ks h z m' in ground (arith, cx, rec)
  ]
]

pub uncolored-any :
    (color : Map ℕ) (ts : List ℕ) (t : ℕ)
    → any_of (uncolored color ts) t ≡ true
    → any_of ts t ≡ true
unfolding uncolored any_of
uncolored-any color [] t m = m
uncolored-any color (x ∷ ts) t m = grind (arith, m, uncolored-any color ts t)

-- A worklist, at its first handler without color.
pub data Reached (color : Map ℕ) : List ℕ → Type 0 where
  all_colored :
      {w : List ℕ} → ((t : ℕ) → any_of w t ≡ true → 1 ≤ color_of color t) → Reached color w
  colorless_at :
      (pre : List ℕ) (x : ℕ) (post : List ℕ)
      → ((t : ℕ) → any_of pre t ≡ true → 1 ≤ color_of color t)
      → color_of color x ≡ 0
      → Reached color (pre ++ (x ∷ post))

pub reach-behind :
    (color : Map ℕ) (x : ℕ) {w : List ℕ}
    → 1 ≤ color_of color x
    → Reached color w
    → Reached color (x ∷ w)
reach-behind color x {w} pos (all_colored h) = all_colored (λ t m. elim (any_of-cons x t w m) [
  | inl e ↦ subst (λ t'. 1 ≤ color_of color t') e pos
  | inr m' ↦ h t m'
])
reach-behind color x pos (colorless_at pre x' post h z) =
    colorless_at (x ∷ pre) x' post
      (λ t m. elim (any_of-cons x t pre m) [
        | inl e ↦ subst (λ t'. 1 ≤ color_of color t') e pos
        | inr m' ↦ h t m'
      ])
      z

pub reach : (color : Map ℕ) (w : List ℕ) → Reached color w
unfolding any_of
reach color [] = all_colored (λ t m. absurd (cc m))
reach color (x ∷ w) = elim (Bool-cases (color_of color x == 0)) [
  | inl z ↦ colorless_at [] x w (λ t m. absurd (cc m)) ((==_iff (color_of color x) 0).0 z)
  | inr nz ↦ reach-behind color x (ground (arith, nz)) (reach color w)
]

pub uncolored-none :
    (color : Map ℕ) (ts : List ℕ)
    → ((t : ℕ) → any_of ts t ≡ true → 1 ≤ color_of color t)
    → uncolored color ts ≡ []
unfolding uncolored
uncolored-none color [] h = refl
uncolored-none color (x ∷ ts) h =
    let pos = h x (any_of-here x ts) in
    let nz : (at 0 color x == 0) ≡ false = ground (arith, pos) in
    let eq : uncolored color (x ∷ ts) ≡ uncolored color ts = rw (nz, uncolored) in
    eq ∙ uncolored-none color ts (λ t m. h t (any_of-there x t ts m))
