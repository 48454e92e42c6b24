-- ===== src/Handlers/Components/Placed.antt =====
-- The loop over the subgraphs: which handlers come into the orders.
use alkali.Prelude.{
  ℕ, ◌≡◌, ◌≢◌, refl, sym, subst, true, false, List, [], ◌∷◌, ◌++◌, some, some-injective,
  some-of_chain, ℤ, pos, inl, inr, ◌⊎◌,
}
use alkali.Handlers.Maps.{Map, at, any_of}
use alkali.Handlers.Sets.{
  Unique, Unique-append, Unique-disjoint, any_of-no, any_of-or, any_of-cons, any_of-here,
  any_of-there, any_of-left, any_of-right,
}
use alkali.Handlers.Components.{Graph, edges, sort_nodes, sort_all}
use alkali.Handlers.Components.Undirected.{open_edges}
use alkali.Handlers.Components.Release.{keys, zero_or_positive, open_edges-positive, count-any_of}
use alkali.Handlers.Components.Order.{
  Topological, concat, onto, Topological-append, Sorting, sort_nodes-Topological,
}

-- A handler stands in the order, or a handler that does not has an edge to it.
abbrev pub Placed : Graph → List ℕ → ℕ → Type 0
Placed g order v =
    (any_of order v ≡ true)
    ⊎ ((u : ℕ) × (any_of (keys g) u ≡ true)
        × (any_of (edges g u) v ≡ true)
        × (any_of order u ≡ false))

none_in_empty : (v : ℕ) → any_of [] v ≢ true
unfolding any_of
none_in_empty v m = cc m

onto-append : (xs ys done : List ℕ) → onto (xs ++ ys) done ≡ onto ys (onto xs done)
onto-append [] ys done = refl
onto-append (x ∷ xs) ys done = onto-append xs ys (x ∷ done)

onto-from :
    (xs done : List ℕ) (v : ℕ)
    → any_of (onto xs done) v ≡ true
    → (any_of xs v ≡ true) ⊎ (any_of done v ≡ true)
onto-from [] done v m = inr m
onto-from (x ∷ xs) done v m = elim (onto-from xs (x ∷ done) v m) [
  | inl m' ↦ inl (any_of-there x v xs m')
  | inr m' ↦ elim (any_of-cons x v done m') [
    | inl e ↦ inl (subst (λ v'. any_of (x ∷ xs) v' ≡ true) e (any_of-here x xs))
    | inr old ↦ inr old
  ]
]

onto-kept : (xs done : List ℕ) (v : ℕ) → any_of done v ≡ true → any_of (onto xs done) v ≡ true
onto-kept [] done v m = m
onto-kept (x ∷ xs) done v m = onto-kept xs (x ∷ done) v (any_of-there x v done m)

onto-all : (xs done : List ℕ) (v : ℕ) → any_of xs v ≡ true → any_of (onto xs done) v ≡ true
onto-all [] done v m = absurd (none_in_empty v m)
onto-all (x ∷ xs) done v m = elim (any_of-cons x v xs m) [
  | inl e ↦
      onto-kept xs (x ∷ done) v (subst (λ v'. any_of (x ∷ done) v' ≡ true) e (any_of-here x done))
  | inr m' ↦ onto-all xs (x ∷ done) v m'
]

module _ (g : Graph) (unique_keys : Unique (keys g)) (handlers : List ℕ) where
  -- Those of the handlers without an open edge to them are done.
  abbrev Complete : List ℕ → Type 0
  Complete done =
      (v : ℕ) → any_of handlers v ≡ true → open_edges g done v ≡ 0 → any_of done v ≡ true

  Complete-Placed :
      (order : List ℕ) (v : ℕ)
      → any_of handlers v ≡ true
      → Complete (onto order [])
      → Placed g order v
  Complete-Placed order v k c = elim (zero_or_positive (open_edges g (onto order []) v)) [
    | inl z ↦ elim (onto-from order [] v (c v k z)) [
      | inl m ↦ inl m
      | inr m ↦ absurd (none_in_empty v m)
    ]
    | inr more ↦
        let (u, k', edge, absent) = open_edges-positive g (onto order []) v unique_keys more in
        let not_placed = any_of-no order u (λ m. cc (absent, onto-all order [] u m)) in
        inr (u, k', count-any_of v (edges g u) edge, not_placed)
  ]

  -- The next subgraph's worklist is the front of what is left.
  next-Sorting :
      (done initial later : List ℕ) (deg : Map ℤ)
      → Unique (initial ++ later)
      → Sorting g handlers done [] (initial ++ later) deg
      → Sorting g handlers done initial later deg
  next-Sorting done initial later deg u s = record {
    degs = s.degs;
    unique = (Unique-append initial later u).0;
    zeros = λ v m. s.later_zeros v (any_of-left initial later v m);
    fresh = λ v m. s.later_fresh v (any_of-left initial later v m);
    later_zeros = λ v m. s.later_zeros v (any_of-right initial later v m);
    later_fresh = λ v m. s.later_fresh v (any_of-right initial later v m);
    apart = λ v m. any_of-no later v (λ m'. cc (m, Unique-disjoint initial later v u m'));
    done_zeros = s.done_zeros;
    complete = λ v k z. elim (s.complete v k z) [
      | inl m ↦ inl m
      | inr (inl m) ↦ absurd (none_in_empty v m)
      | inr (inr m) ↦ inr (any_of-or initial later v m)
    ];
  }

  sort_all-Topological :
      (fuel : ℕ) (initials : List (List ℕ)) (done : List ℕ) (deg : Map ℤ) {orders : List (List ℕ)}
      → Unique (concat initials)
      → Sorting g handlers done [] (concat initials) deg
      → sort_all g fuel initials deg ≡ some orders
      → Topological g done (concat orders) × Complete (onto (concat orders) done)
  unfolding sort_all
  sort_all-Topological fuel [] done deg u s e =
      subst (λ os. Topological g done (concat os) × Complete (onto (concat os) done))
        (some-injective e)
        (
          tt,
          λ v k z. elim (s.complete v k z) [
            | inl m ↦ m
            | inr (inl m) ↦ absurd (none_in_empty v m)
            | inr (inr m) ↦ absurd (none_in_empty v m)
          ],
        )
  sort_all-Topological fuel (initial ∷ initials) done deg {orders} u s e =
      let (q, h, e') = some-of_chain (sort_nodes g fuel initial deg []) _ e in
      let (os, h', all) = some-of_chain (sort_all g fuel initials q.1) _ e' in
      let (order, same, t, s') =
        sort_nodes-Topological g unique_keys handlers fuel done initial (concat initials) deg []
          (next-Sorting done initial (concat initials) deg u s) h in
      let (t', c) =
        sort_all-Topological fuel initials (onto order done) q.1
          (Unique-append initial (concat initials) u).1 s' h' in
      subst (λ xs. Topological g done (concat xs) × Complete (onto (concat xs) done))
        (some-injective all)
        (subst (λ ns. Topological g done (ns ++ concat os) × Complete (onto (ns ++ concat os) done))
          (sym same)
          (
            Topological-append g done order (concat os) t t',
            subst Complete (sym (onto-append order (concat os) done)) c,
          ))

  start-Sorting :
      (initial : List ℕ) (deg : Map ℤ)
      → ((v : ℕ) → at (pos 0) deg v ≡ pos (open_edges g [] v))
      → ((v : ℕ) → any_of initial v ≡ true → open_edges g [] v ≡ 0)
      → ((v : ℕ) → any_of handlers v ≡ true → open_edges g [] v ≡ 0 → any_of initial v ≡ true)
      → Sorting g handlers [] [] initial deg
  unfolding any_of
  start-Sorting initial deg degs zeros all = record {
    degs = degs;
    unique = tt;
    zeros = λ v m. absurd (cc m);
    fresh = λ v m. refl;
    later_zeros = zeros;
    later_fresh = λ v m. refl;
    apart = λ v m. absurd (cc m);
    done_zeros = λ v m. absurd (cc m);
    complete = λ v k z. inr (inr (all v k z));
  }

  pub sort_all-sources :
      (fuel : ℕ) (initials : List (List ℕ)) (deg : Map ℤ) {orders : List (List ℕ)}
      → ((v : ℕ) → at (pos 0) deg v ≡ pos (open_edges g [] v))
      → ((v : ℕ) → any_of (concat initials) v ≡ true → open_edges g [] v ≡ 0)
      → ((v : ℕ)
          → any_of handlers v ≡ true
          → open_edges g [] v ≡ 0
          → any_of (concat initials) v ≡ true)
      → Unique (concat initials)
      → sort_all g fuel initials deg ≡ some orders
      → Topological g [] (concat orders)
        × ((v : ℕ) → any_of handlers v ≡ true → Placed g (concat orders) v)
  sort_all-sources fuel initials deg {orders} degs zeros all u e =
      let (t, c) =
        sort_all-Topological fuel initials [] deg u
          (start-Sorting (concat initials) deg degs zeros all) e in
      (t, λ v k. Complete-Placed (concat orders) v k c)
