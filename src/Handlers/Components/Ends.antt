-- ===== src/Handlers/Components/Ends.antt =====
-- `getConnectedComponents` ends.
use alkali.Prelude.{
  ℕ, zero, suc, ◌+◌, ◌≤◌, ◌≡◌, refl, ◌∙◌, subst, true, false, List, [], ◌∷◌, some, none-ne-some,
  some-chain, ◌==◌, ==_iff, arith, Bool-cases, inl, inr, ◌>>=◌,
}
use alkali.Handlers.Maps.{at, any_of}
use alkali.Handlers.Sets.{Unique, any_of-here, any_of-there}
use alkali.Handlers.Components.{
  Graph, Degrees, degrees, Colored, visit, bfs, Components, new_component, add_component, color_all,
  find_components, get_connected_components,
}
use alkali.Handlers.Components.Release.{keys, any_of-one}
use alkali.Handlers.Components.Symmetric.{Near, degrees-symmetric}
use alkali.Handlers.Components.Connected.{bfs-Searching}
use alkali.Handlers.Components.Partition.{
  Partition, start-Searching, add-Partition, empty-Partition,
}
use alkali.Handlers.Components.Colorless.{colorless}
use alkali.Handlers.Components.SearchEnds.{bfs-BfsEnds}
use alkali.Handlers.Components.SortEnds.{sort_all-ends, degrees-Sorted}

module _ (graph : Graph) (d : Degrees) where
  bfs-more :
      (fuel more c : ℕ) (w : List ℕ) (s : Colored) {s' : Colored}
      → fuel ≤ more
      → bfs graph d fuel c w s ≡ some s'
      → bfs graph d more c w s ≡ some s'
  unfolding bfs
  bfs-more fuel more c [] s h e = e
  bfs-more zero more c (cur ∷ w) s h e = absurd (none-ne-some e)
  bfs-more (suc fuel) zero c (cur ∷ w) s h e = absurd (omega (arith, h))
  bfs-more (suc fuel) (suc more) c (cur ∷ w) s h e =
      bfs-more fuel more c _ (visit graph d c cur s) (omega (arith, h)) e

  color_all-old :
      (fuel handler : ℕ) (ts : List ℕ) (rest : Graph) (n : ℕ) (c : Components)
      → (at 0 c.color handler == 0) ≡ false
      → color_all graph d fuel ((handler, ts) ∷ rest) n c ≡ color_all graph d fuel rest n c
  unfolding color_all
  color_all-old fuel handler ts rest n c colored = rw (colored, color_all)

  color_all-new :
      (fuel handler : ℕ) (ts : List ℕ) (rest : Graph) (n : ℕ) (c : Components)
      → (at 0 c.color handler == 0) ≡ true
      → color_all graph d fuel ((handler, ts) ∷ rest) n c ≡ (
          bfs graph d fuel n (handler ∷ []) (new_component c)
          >>= (λ s. color_all graph d fuel rest (suc n) (add_component c s)))
  unfolding color_all
  color_all-new fuel handler ts rest n c new = rw (new, color_all)

  module _ (symmetric : (u v : ℕ) → Near d.undirected_graph u v → Near d.undirected_graph v u) where
    color_all-ends :
        (n : ℕ) (g : Graph) (c : Components)
        → 1 ≤ n
        → ((v : ℕ) → any_of (keys g) v ≡ true → any_of (keys d.undirected_graph) v ≡ true)
        → Partition d.undirected_graph n c
        → (fuel : ℕ) × ((c' : Components) × ((more : ℕ)
              → fuel ≤ more
              → color_all graph d more g n c ≡ some c'))
    unfolding color_all
    color_all-ends n [] c positive among p = (0, (c, λ more h. refl))
    color_all-ends n ((handler, ts) ∷ g) c positive among p =
        elim (Bool-cases (at 0 c.color handler == 0)) [
          | inr colored ↦
              let (fuel, (c', all)) =
                color_all-ends n g c positive (λ v m. among v (any_of-there handler v (keys g) m))
                  p in
              (fuel, (c', λ more h. color_all-old more handler ts g n c colored ∙ all more h))
          | inl new ↦
              let i =
                start-Searching graph d symmetric n handler c p
                  ((==_iff (at 0 c.color handler) 0).0 new) in
              let handler_key = among handler (any_of-here handler (keys g)) in
              let (f₁, (s, e₁)) =
                bfs-BfsEnds graph d n positive c.color symmetric
                  (colorless (new_component c).color (keys d.undirected_graph)) (handler ∷ [])
                  (new_component c) (omega arith)
                  (λ t m.
                    subst (λ t'. any_of (keys d.undirected_graph) t' ≡ true)
                      (any_of-one handler t m) handler_key)
                  i in
              let done =
                bfs-Searching graph d symmetric f₁ n c.color (handler ∷ []) (new_component c) i
                  e₁ in
              let (f₂, (c', all)) =
                color_all-ends (suc n) g (add_component c s) (omega (arith, positive))
                  (λ v m. among v (any_of-there handler v (keys g) m))
                  (add-Partition graph d symmetric n c s p done) in
              (
                f₁ + f₂,
                (
                  c',
                  λ more h.
                      color_all-new more handler ts g n c new
                      ∙ some-chain _
                          (bfs-more f₁ more n (handler ∷ []) (new_component c) (omega (arith, h))
                            e₁)
                          (all more (omega (arith, h))),
                ),
              )
        ]

-- getConnectedComponents ends: on every graph with no key twice there is fuel with which it has a
-- result.
pub get_connected_components-ends :
    (graph : Graph)
    → Unique (keys graph)
    → (fuel : ℕ) × ((r : List Graph × List (List ℕ)) × (get_connected_components fuel graph
          ≡ some r))
unfolding get_connected_components find_components
get_connected_components-ends graph uk =
    let d = degrees graph in
    let (f₁, (c, e₁)) =
      color_all-ends graph d (λ u v near. degrees-symmetric graph u v uk near) 1 d.undirected_graph
        _ (omega arith) (λ v m. m) (empty-Partition d.undirected_graph) in
    let (f₂, (orders, e₂)) =
      sort_all-ends graph c.initial_handlers d.in_degree (degrees-Sorted graph) in
    (
      f₁ + f₂,
      (
        (c.sub_graphs, orders),
        some-chain _ (e₁ (f₁ + f₂) (omega arith)) (some-chain _ (e₂ (f₁ + f₂) (omega arith)) refl),
      ),
    )
