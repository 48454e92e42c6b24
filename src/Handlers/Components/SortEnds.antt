-- ===== src/Handlers/Components/SortEnds.antt =====
-- The second half ends: every push lowers what is left of the in-degrees.
use alkali.Prelude.{
  ℕ, zero, suc, ◌+◌, ◌≤◌, ◌≡◌, refl, Bool, true, false, List, [], ◌∷◌, ◌++◌, some, none-ne-some,
  some-of_chain, some-chain, arith, inl, inr, length, length-append, ℤ, pos, sucℤ, predℤ, is_zero,
  if◌then◌else◌,
}
use alkali.Handlers.Maps.{Map, at, put}
use alkali.Handlers.Components.{
  Graph, edges, Degrees, add_edge, add_edges, add_all, degrees, release, sort_nodes, sort_all,
}
use alkali.Handlers.Components.Totals.{Sorted, pred-weight, put-Sorted, total, total-put}

release-total :
    (ts w : List ℕ) (deg : Map ℤ)
    → Sorted deg
    → Sorted (release ts w deg).1
      × (length (release ts w deg).0 + total (release ts w deg).1 ≤ length w + total deg)
unfolding release
release-total [] w deg s = (s, omega arith)
release-total (t ∷ ts) w deg s =
    let z = predℤ (at (pos 0) deg t) in next (is_zero z) refl (release-total ts)
  where
    next :
        (b : Bool)
        → is_zero (predℤ (at (pos 0) deg t)) ≡ b
        → ((w' : List ℕ) (deg' : Map ℤ)
            → Sorted deg'
            → Sorted (release ts w' deg').1
              × (length (release ts w' deg').0 + total (release ts w' deg').1
                  ≤ length w' + total deg'))
        → Sorted
            (release ts (if b then w ++ (t ∷ []) else w) (put t (predℤ (at (pos 0) deg t)) deg)).1
          × (length
                  (release ts
                    (if b then w ++ (t ∷ []) else w)
                    (put t (predℤ (at (pos 0) deg t)) deg)).0
                + total
                    (release ts
                      (if b then w ++ (t ∷ []) else w)
                      (put t (predℤ (at (pos 0) deg t)) deg)).1
              ≤ length w + total deg)
    next true h rec =
        let (s', le) =
          rec (w ++ (t ∷ [])) (put t (predℤ (at (pos 0) deg t)) deg)
            (put-Sorted t (predℤ (at (pos 0) deg t)) deg s) in
        let sum = total-put t (predℤ (at (pos 0) deg t)) deg s in
        elim (pred-weight (at (pos 0) deg t)).1 [
          | inl no_push ↦ absurd (cc (h, no_push))
          | inr lower ↦ (s', omega (arith, le, sum, lower, length-append w (t ∷ [])))
        ]
    next false h rec =
        let (s', le) =
          rec w (put t (predℤ (at (pos 0) deg t)) deg)
            (put-Sorted t (predℤ (at (pos 0) deg t)) deg s) in
        let sum = total-put t (predℤ (at (pos 0) deg t)) deg s in
        let lower = (pred-weight (at (pos 0) deg t)).0 in (s', omega (arith, le, sum, lower))

-- With fuel for the worklist and all that is left, the order of a subgraph ends.
pub sort_nodes-ends :
    (graph : Graph) (fuel : ℕ) (w : List ℕ) (deg : Map ℤ) (nodes : List ℕ)
    → Sorted deg
    → length w + total deg ≤ fuel
    → (r : List ℕ × Map ℤ) × ((sort_nodes graph fuel w deg nodes ≡ some r) × Sorted r.1)
unfolding sort_nodes
sort_nodes-ends graph fuel [] deg nodes s h = ((nodes, deg), (refl, s))
sort_nodes-ends graph zero (cur ∷ w) deg nodes s h = absurd (omega (arith, h))
sort_nodes-ends graph (suc fuel) (cur ∷ w) deg nodes s h =
    let (s', le) = release-total (edges graph cur) w deg s in
    let (r, (e, s'')) =
      sort_nodes-ends graph fuel (release (edges graph cur) w deg).0
        (release (edges graph cur) w deg).1 (nodes ++ (cur ∷ [])) s' (omega (arith, le, h)) in
    (r, (e, s''))

sort_nodes-more :
    (graph : Graph) (fuel more : ℕ) (w : List ℕ) (deg : Map ℤ) (nodes : List ℕ) {r : List ℕ × Map ℤ}
    → fuel ≤ more
    → sort_nodes graph fuel w deg nodes ≡ some r
    → sort_nodes graph more w deg nodes ≡ some r
unfolding sort_nodes
sort_nodes-more graph fuel more [] deg nodes h e = e
sort_nodes-more graph zero more (cur ∷ w) deg nodes h e = absurd (none-ne-some e)
sort_nodes-more graph (suc fuel) zero (cur ∷ w) deg nodes h e = absurd (omega (arith, h))
sort_nodes-more graph (suc fuel) (suc more) (cur ∷ w) deg nodes h e =
    sort_nodes-more graph fuel more (release (edges graph cur) w deg).0
      (release (edges graph cur) w deg).1 (nodes ++ (cur ∷ [])) (omega (arith, h)) e

sort_all-more :
    (graph : Graph) (fuel more : ℕ) (initials : List (List ℕ)) (deg : Map ℤ)
    {orders : List (List ℕ)}
    → fuel ≤ more
    → sort_all graph fuel initials deg ≡ some orders
    → sort_all graph more initials deg ≡ some orders
unfolding sort_all
sort_all-more graph fuel more [] deg h e = e
sort_all-more graph fuel more (initial ∷ initials) deg h e =
    let (q, e₁, e') = some-of_chain (sort_nodes graph fuel initial deg []) _ e in
    let (os, e₂, e₃) = some-of_chain (sort_all graph fuel initials q.1) _ e' in
    some-chain _ (sort_nodes-more graph fuel more initial deg [] h e₁)
      (some-chain _ (sort_all-more graph fuel more initials q.1 h e₂) e₃)

pub sort_all-ends :
    (graph : Graph) (initials : List (List ℕ)) (deg : Map ℤ)
    → Sorted deg
    → (fuel : ℕ) × ((orders : List (List ℕ)) × ((more : ℕ)
          → fuel ≤ more
          → sort_all graph more initials deg ≡ some orders))
unfolding sort_all
sort_all-ends graph [] deg s = (0, ([], λ more h. refl))
sort_all-ends graph (initial ∷ initials) deg s =
    let (q, (e, s')) =
      sort_nodes-ends graph (length initial + total deg) initial deg [] s (omega arith) in
    let (fuel, (os, all)) = sort_all-ends graph initials q.1 s' in
    (
      length initial + total deg + fuel,
      (
        q.0 ∷ os,
        λ more h.
            some-chain _
              (sort_nodes-more graph (length initial + total deg) more initial deg []
                (omega (arith, h)) e)
              (some-chain _ (all more (omega (arith, h))) refl),
      ),
    )

-- The in-degrees are in the order of their keys.
add_edges-Sorted :
    (h : ℕ) (ts : List ℕ) (d : Degrees) → Sorted d.in_degree → Sorted (add_edges h ts d).in_degree
unfolding add_edges add_edge
add_edges-Sorted h [] d s = s
add_edges-Sorted h (t ∷ ts) d s =
    add_edges-Sorted h ts (add_edge h t d)
      (put-Sorted t (sucℤ (at (pos 0) d.in_degree t)) d.in_degree s)

add_all-Sorted : (g : Graph) (d : Degrees) → Sorted d.in_degree → Sorted (add_all g d).in_degree
unfolding add_all
add_all-Sorted [] d s = s
add_all-Sorted ((h, ts) ∷ g) d s = add_all-Sorted g (add_edges h ts d) (add_edges-Sorted h ts d s)

pub degrees-Sorted : (g : Graph) → Sorted (degrees g).in_degree
unfolding degrees
degrees-Sorted g = add_all-Sorted g (record { undirected_graph = g; in_degree = [] }) tt
