-- ===== src/Handlers/Components/Symmetric.antt =====
-- The undirected graph: it has the edges of the graph, and every edge both ways.
use alkali.Prelude.{
  ℕ, ◌≡◌, refl, sym, ap, ◌∙◌, subst, Bool, true, false, List, [], ◌∷◌, ◌++◌, ◌==◌, ==_iff, arith,
  Bool-cases, inl, inr, ◌⊎◌, if◌then◌else◌,
}
use alkali.Handlers.Maps.{at, put, any_of, at-put, at-put_other}
use alkali.Handlers.Sets.{
  Unique, any_of-or, any_of-left, any_of-right, any_of-here, any_of-there, any_of-cons,
}
use alkali.Handlers.Components.{Graph, edges, Degrees, add_edge, add_edges, add_all, degrees}
use alkali.Handlers.Components.Release.{keys, any_of-one}

-- `v` is among the neighbours of `u`.
abbrev pub Near : Graph → ℕ → ℕ → Type 0
Near g u v = any_of (edges g u) v ≡ true

-- The list at `t` is the old one, or has `h` behind it.
data Added (h t : ℕ) (g : Graph) : Graph → Type 0 where
  there : Near g t h → Added h t g g
  appended : Added h t g (put t (edges g t ++ (h ∷ [])) g)

add_edge-Added :
    (h t : ℕ) (d : Degrees) → Added h t d.undirected_graph (add_edge h t d).undirected_graph
unfolding add_edge
add_edge-Added h t d = go (any_of (edges d.undirected_graph t) h) refl
  where
    go :
        (b : Bool)
        → any_of (edges d.undirected_graph t) h ≡ b
        → Added h t d.undirected_graph (
            if b
            then d.undirected_graph
            else put t (edges d.undirected_graph t ++ (h ∷ [])) d.undirected_graph)
    go true e = there e
    go false e = appended

-- A write at `t`, seen at `t` and elsewhere.
edges-put :
    (g : Graph) (t u : ℕ) (xs : List ℕ)
    → ((u ≡ t) × (edges (put t xs g) u ≡ xs)) ⊎ (edges (put t xs g) u ≡ edges g u)
edges-put g t u xs = elim (Bool-cases (u == t)) [
  | inl same ↦
      let e = (==_iff u t).0 same in inl (e, ap (λ u'. edges (put t xs g) u') e ∙ at-put [] t xs g)
  | inr other ↦ inr (at-put_other [] t u xs g (λ e. cc (other, (==_iff u t).1 e)))
]

Added-kept : {h t : ℕ} {g g' : Graph} (u v : ℕ) → Added h t g g' → Near g u v → Near g' u v
Added-kept u v (there e) n = n
Added-kept {h} {t} {g} u v appended n = elim (edges-put g t u (edges g t ++ (h ∷ []))) [
  | inl (e, e') ↦
      subst (λ xs. any_of xs v ≡ true) (sym e')
        (any_of-left (edges g t) (h ∷ []) v (subst (λ u'. Near g u' v) e n))
  | inr e ↦ subst (λ xs. any_of xs v ≡ true) (sym e) n
]

Added-back : {h t : ℕ} {g g' : Graph} → Added h t g g' → Near g' t h
Added-back (there e) = e
Added-back {h} {t} {g} appended =
    subst (λ xs. any_of xs h ≡ true) (sym (at-put [] t (edges g t ++ (h ∷ [])) g))
      (any_of-right (edges g t) (h ∷ []) h (any_of-here h []))

Added-from :
    {h t : ℕ} {g g' : Graph} (u v : ℕ)
    → Added h t g g'
    → Near g' u v
    → Near g u v ⊎ ((h ≡ v) × (u ≡ t))
Added-from u v (there e) n = inl n
Added-from {h} {t} {g} u v appended n = elim (edges-put g t u (edges g t ++ (h ∷ []))) [
  | inl (e, e') ↦ elim (any_of-or (edges g t) (h ∷ []) v (subst (λ xs. any_of xs v ≡ true) e' n)) [
    | inl old ↦ inl (subst (λ u'. Near g u' v) (sym e) old)
    | inr new ↦ inr (any_of-one h v new, e)
  ]
  | inr e ↦ inl (subst (λ xs. any_of xs v ≡ true) e n)
]

-- The loops over the edges of one handler and over all handlers.
add_edges-kept :
    (h : ℕ) (ts : List ℕ) (d : Degrees) (u v : ℕ)
    → Near d.undirected_graph u v
    → Near (add_edges h ts d).undirected_graph u v
unfolding add_edges
add_edges-kept h [] d u v n = n
add_edges-kept h (t ∷ ts) d u v n =
    add_edges-kept h ts (add_edge h t d) u v (Added-kept u v (add_edge-Added h t d) n)

add_edges-back :
    (h : ℕ) (ts : List ℕ) (d : Degrees) (t : ℕ)
    → any_of ts t ≡ true
    → Near (add_edges h ts d).undirected_graph t h
unfolding add_edges any_of
add_edges-back h [] d t m = absurd (cc m)
add_edges-back h (t' ∷ ts) d t m = elim (any_of-cons t' t ts m) [
  | inl e ↦ add_edges-kept h ts (add_edge h t' d) t h (
      subst (λ t''. Near (add_edge h t' d).undirected_graph t'' h) e
        (Added-back (add_edge-Added h t' d)))
  | inr m' ↦ add_edges-back h ts (add_edge h t' d) t m'
]

add_edges-from :
    (h : ℕ) (ts : List ℕ) (d : Degrees) (u v : ℕ)
    → Near (add_edges h ts d).undirected_graph u v
    → Near d.undirected_graph u v ⊎ ((h ≡ v) × (any_of ts u ≡ true))
unfolding add_edges
add_edges-from h [] d u v n = inl n
add_edges-from h (t ∷ ts) d u v n = elim (add_edges-from h ts (add_edge h t d) u v n) [
  | inl n' ↦ elim (Added-from u v (add_edge-Added h t d) n') [
    | inl n'' ↦ inl n''
    | inr (e, e') ↦ inr (e, subst (λ u'. any_of (t ∷ ts) u' ≡ true) (sym e') (any_of-here t ts))
  ]
  | inr (e, m) ↦ inr (e, any_of-there t u ts m)
]

add_all-kept :
    (g : Graph) (d : Degrees) (u v : ℕ)
    → Near d.undirected_graph u v
    → Near (add_all g d).undirected_graph u v
unfolding add_all
add_all-kept [] d u v n = n
add_all-kept ((h, ts) ∷ g) d u v n =
    add_all-kept g (add_edges h ts d) u v (add_edges-kept h ts d u v n)

add_all-back :
    (g : Graph) (d : Degrees) (u v : ℕ) → Near g u v → Near (add_all g d).undirected_graph v u
unfolding add_all any_of at
add_all-back [] d u v n = absurd (cc n)
add_all-back ((h, ts) ∷ g) d u v n = elim (Bool-cases (u == h)) [
  | inl same ↦
      let e : h ≡ u = sym ((==_iff u h).0 same) in
      let n' : any_of ts v ≡ true = ground (arith, n, same) in
      add_all-kept g (add_edges h ts d) v u
        (subst (λ h'. Near (add_edges h ts d).undirected_graph v h') e (add_edges-back h ts d v n'))
  | inr other ↦ add_all-back g (add_edges h ts d) u v (ground (arith, n, other))
]

-- A handler with a neighbour is a key.
pub Near-keys : (g : Graph) (u v : ℕ) → Near g u v → any_of (keys g) u ≡ true
unfolding any_of at
Near-keys [] u v n = absurd (cc n)
Near-keys ((h, ts) ∷ g) u v n = elim (Bool-cases (u == h)) [
  | inl same ↦ ground (arith, same)
  | inr other ↦
      let n' : Near g u v = ground (arith, n, other) in
      any_of-there h u (keys g) (Near-keys g u v n')
]

add_all-from :
    (g : Graph) (d : Degrees) (u v : ℕ)
    → Unique (keys g)
    → Near (add_all g d).undirected_graph u v
    → Near d.undirected_graph u v ⊎ Near g v u
unfolding add_all any_of at
add_all-from [] d u v uk n = inl n
add_all-from ((h, ts) ∷ g) d u v (fresh, uk) n = elim (add_all-from g (add_edges h ts d) u v uk n) [
  | inl n' ↦ elim (add_edges-from h ts d u v n') [
    | inl n'' ↦ inl n''
    | inr (e, m) ↦ inr (let same = (==_iff v h).1 (sym e) in ground (arith, same, m))
  ]
  | inr n' ↦
      let key = Near-keys g v u n' in
      let other : (v == h) ≡ false = ground (arith, key, fresh) in inr (ground (arith, n', other))
]

-- An edge of the graph is there both ways, and only such edges are.
pub degrees-Near : (g : Graph) (u v : ℕ) → Near g u v → Near (degrees g).undirected_graph u v
unfolding degrees
degrees-Near g u v n = add_all-kept g (record { undirected_graph = g; in_degree = [] }) u v n

pub degrees-symmetric :
    (g : Graph) (u v : ℕ)
    → Unique (keys g)
    → Near (degrees g).undirected_graph u v
    → Near (degrees g).undirected_graph v u
unfolding degrees
degrees-symmetric g u v uk n =
    let start : Degrees = record { undirected_graph = g; in_degree = [] } in
    elim (add_all-from g start u v uk n) [
      | inl n' ↦ add_all-back g start u v n'
      | inr n' ↦ add_all-kept g start v u n'
    ]
