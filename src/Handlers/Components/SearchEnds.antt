-- ===== src/Handlers/Components/SearchEnds.antt =====
-- The search ends: a handler without color is reached behind those with one, or none is left.
use alkali.Prelude.{
  ℕ, zero, suc, ◌≤◌, ◌≡◌, refl, sym, ap, ◌∙◌, subst, true, List, [], ◌∷◌, ◌++◌, append_assoc,
  append-nil, some, arith, inl, inr,
}
use alkali.Handlers.Maps.{Map, any_of}
use alkali.Handlers.Sets.{any_of-here, any_of-there, any_of-or, any_of-right}
use alkali.Handlers.Components.{Graph, edges, Degrees, Colored, visit, uncolored, bfs}
use alkali.Handlers.Components.Release.{keys}
use alkali.Handlers.Components.Symmetric.{Near, Near-keys}
use alkali.Handlers.Components.Searched.{color_of, color_of-put}
use alkali.Handlers.Components.Connected.{Searching, visit-Searching}
use alkali.Handlers.Components.Colorless.{
  Reached, all_colored, colorless, colorless-less, colorless-put, colorless_at, reach,
  uncolored-any, uncolored-none,
}

module _ (graph : Graph) (d : Degrees) (c : ℕ) (positive : 1 ≤ c) where
  abbrev pub BfsEnds : List ℕ → Colored → Type 0
  BfsEnds w s = (fuel : ℕ) × ((s' : Colored) × (bfs graph d fuel c w s ≡ some s'))

  bfs-step :
      (cur : ℕ) (w : List ℕ) (s : Colored)
      → BfsEnds
          (w ++ uncolored (visit graph d c cur s).color (edges d.undirected_graph cur))
          (visit graph d c cur s)
      → BfsEnds (cur ∷ w) s
  unfolding bfs
  bfs-step cur w s (fuel, (s', e)) = (suc fuel, (s', e))

  visit-colored :
      (cur v : ℕ) (s : Colored)
      → 1 ≤ color_of s.color v
      → 1 ≤ color_of (visit graph d c cur s).color v
  unfolding visit
  visit-colored cur v s pos = elim (color_of-put s.color cur c v) [
    | inl (e, cv) ↦ omega (arith, cv, positive)
    | inr (ne, cv) ↦ omega (arith, cv, pos)
  ]

  -- Where all is colored, what is left is passed over.
  drain :
      (w : List ℕ) (s : Colored)
      → ((t : ℕ)
          → any_of w t ≡ true
          → (u : ℕ) → Near d.undirected_graph t u
          → 1 ≤ color_of s.color u)
      → BfsEnds w s
  unfolding bfs
  drain [] s h = (0, (s, refl))
  drain (cur ∷ w) s h =
      let none =
        uncolored-none (visit graph d c cur s).color (edges d.undirected_graph cur)
          (λ t m. visit-colored cur t s (h cur (any_of-here cur w) t m)) in
      bfs-step cur w s (
        subst (λ ts. BfsEnds (w ++ ts) (visit graph d c cur s)) (sym none)
          (subst (λ w'. BfsEnds w' (visit graph d c cur s)) (sym (append-nil w))
            (drain w (visit graph d c cur s)
              (λ t m u n. visit-colored cur u s (h t (any_of-there cur t w m) u n)))))

  module _ (before : Map ℕ)
      (symmetric : (u v : ℕ) → Near d.undirected_graph u v → Near d.undirected_graph v u) where
    abbrev Keyed : List ℕ → Type 0
    Keyed w = (t : ℕ) → any_of w t ≡ true → any_of (keys d.undirected_graph) t ≡ true

    visit-Keyed :
        (cur : ℕ) (w : List ℕ) (color : Map ℕ)
        → Keyed (cur ∷ w)
        → Keyed (w ++ uncolored color (edges d.undirected_graph cur))
    visit-Keyed cur w color keyed t m =
        elim (any_of-or w (uncolored color (edges d.undirected_graph cur)) t m) [
          | inl m' ↦ keyed t (any_of-there cur t w m')
          | inr m' ↦
              Near-keys d.undirected_graph t cur
                (symmetric cur t (uncolored-any color (edges d.undirected_graph cur) t m'))
        ]

    -- Up to the first handler without color, and that one.
    to_colorless :
        (n : ℕ)
        → ((w : List ℕ) (s : Colored)
            → colorless s.color (keys d.undirected_graph) ≤ n
            → Keyed w
            → Searching d.undirected_graph c before w s
            → BfsEnds w s)
        → (pre : List ℕ) (x : ℕ) (post : List ℕ) (s : Colored)
        → colorless s.color (keys d.undirected_graph) ≤ suc n
        → ((t : ℕ) → any_of pre t ≡ true → 1 ≤ color_of s.color t)
        → color_of s.color x ≡ 0
        → Keyed (pre ++ (x ∷ post))
        → Searching d.undirected_graph c before (pre ++ (x ∷ post)) s
        → BfsEnds (pre ++ (x ∷ post)) s
    unfolding visit
    to_colorless n rec [] x post s h colored z keyed i =
        let fewer =
          colorless-less s.color x c (keys d.undirected_graph) positive z
            (keyed x (any_of-here x post)) in
        bfs-step x post s (
          rec _ (visit graph d c x s) (omega (arith, fewer, h)) (visit-Keyed x post _ keyed)
            (visit-Searching graph d symmetric c x before post s i))
    to_colorless n rec (y ∷ pre) x post s h colored z keyed i =
        let s' = visit graph d c y s in
        let ts = uncolored s'.color (edges d.undirected_graph y) in
        let still : color_of s'.color x ≡ 0 = elim (color_of-put s.color y c x) [
          | inr (ne, cx) ↦ cx ∙ z
          | inl (e, cx) ↦
              let pos = colored y (any_of-here y pre) in
              let at_y : color_of s.color y ≡ 0 = ap (color_of s.color) e ∙ z in
              absurd (omega (arith, pos, at_y))
        ] in
        let same : (pre ++ (x ∷ post)) ++ ts ≡ pre ++ (x ∷ (post ++ ts)) =
          append_assoc pre (x ∷ post) ts in
        bfs-step y (pre ++ (x ∷ post)) s (
          subst (λ w. BfsEnds w s') (sym same)
            (to_colorless n rec pre x (post ++ ts) s'
              (let le = colorless-put s.color y c (keys d.undirected_graph) positive in
                omega (arith, le, h))
              (λ t m. visit-colored y t s (colored t (any_of-there y t pre m))) still
              (subst Keyed same (visit-Keyed y (pre ++ (x ∷ post)) s'.color keyed))
              (subst (λ w. Searching d.undirected_graph c before w s') same
                (visit-Searching graph d symmetric c y before (pre ++ (x ∷ post)) s i))))

    drained :
        (w : List ℕ) (s : Colored)
        → ((t : ℕ) → any_of w t ≡ true → 1 ≤ color_of s.color t)
        → Searching d.undirected_graph c before w s
        → BfsEnds w s
    drained w s colored i = drain w s (λ t m u near. elim (i.ends t u near) [
      | inl z ↦ (let pos = colored t m in absurd (omega (arith, z, pos)))
      | inr (inl same) ↦ (let pos = colored t m in omega (arith, same, pos))
      | inr (inr (e, m')) ↦ colored u m'
    ])

    pub bfs-BfsEnds :
        (n : ℕ) (w : List ℕ) (s : Colored)
        → colorless s.color (keys d.undirected_graph) ≤ n
        → Keyed w
        → Searching d.undirected_graph c before w s
        → BfsEnds w s
    bfs-BfsEnds zero w s h keyed i = go (reach s.color w) keyed i
      where
        go :
            {w' : List ℕ}
            → Reached s.color w'
            → Keyed w'
            → Searching d.undirected_graph c before w' s
            → BfsEnds w' s
        go (all_colored colored) keyed' i' = drained _ s colored i'
        go (colorless_at pre x post colored z) keyed' i' =
            let fewer =
              colorless-less s.color x c (keys d.undirected_graph) positive z
                (keyed' x (any_of-right pre (x ∷ post) x (any_of-here x post))) in
            absurd (omega (arith, fewer, h))
    bfs-BfsEnds (suc n) w s h keyed i = go (reach s.color w) keyed i (bfs-BfsEnds n)
      where
        go :
            {w' : List ℕ}
            → Reached s.color w'
            → Keyed w'
            → Searching d.undirected_graph c before w' s
            → ((v : List ℕ) (s₁ : Colored)
                → colorless s₁.color (keys d.undirected_graph) ≤ n
                → Keyed v
                → Searching d.undirected_graph c before v s₁
                → BfsEnds v s₁)
            → BfsEnds w' s
        go (all_colored colored) keyed' i' rec = drained _ s colored i'
        go (colorless_at pre x post colored z) keyed' i' rec =
            to_colorless n rec pre x post s h colored z keyed' i'
