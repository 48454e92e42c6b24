-- ===== src/Handlers/Components/Complete.antt =====
-- `getConnectedComponents`: the order of the handlers, and which of them come into it.
use alkali.Prelude.{
  ℕ, zero, suc, ◌≤◌, ◌≡◌, refl, sym, ap, ◌∙◌, subst, Bool, true, false, List, [], ◌∷◌, ◌++◌,
  append_assoc, some, some-injective, none-ne-some, some-of_chain, pos, is_zero, inl, inr,
  if◌then◌else◌, arith,
}
use alkali.Handlers.Maps.{at, put, any_of}
use alkali.Handlers.Sets.{Unique, any_of-left, any_of-right, any_of-here}
use alkali.Handlers.Components.{
  Graph, Degrees, add_edge, add_edges, add_all, degrees, Colored, visit, bfs, Components,
  new_component, add_component, color_all, find_components, get_connected_components, sort_all,
}
use alkali.Handlers.Components.Undirected.{degrees-open_edges}
use alkali.Handlers.Components.Release.{keys, zero-is_zero}
use alkali.Handlers.Components.Rounds.{color_all-cases}
use alkali.Handlers.Components.Searched.{color_of, color_of-put, keys-put_kept}
use alkali.Handlers.Components.Symmetric.{degrees-symmetric}
use alkali.Handlers.Components.Partition.{color_all-Partition, empty-Partition}
use alkali.Handlers.Components.Order.{Topological, concat}
use alkali.Handlers.Components.Placed.{Placed, sort_all-sources}
use alkali.Handlers.Components.Sources.{concat-snoc, Sources, color_all-Sources}

-- The undirected graph has the keys of the graph.
add_edges-keys :
    (h v : ℕ) (ts : List ℕ) (d : Degrees)
    → any_of (keys d.undirected_graph) v ≡ true
    → any_of (keys (add_edges h ts d).undirected_graph) v ≡ true
unfolding add_edges add_edge
add_edges-keys h v [] d m = m
add_edges-keys h v (t ∷ ts) d m =
    add_edges-keys h v ts (add_edge h t d) (go (any_of (at [] d.undirected_graph t) h))
  where
    go :
        (b : Bool)
        → any_of
            (keys (
              if b
              then d.undirected_graph
              else put t (at [] d.undirected_graph t ++ (h ∷ [])) d.undirected_graph))
            v
          ≡ true
    go true = m
    go false = keys-put_kept d.undirected_graph t v (at [] d.undirected_graph t ++ (h ∷ [])) m

add_all-keys :
    (g : Graph) (v : ℕ) (d : Degrees)
    → any_of (keys d.undirected_graph) v ≡ true
    → any_of (keys (add_all g d).undirected_graph) v ≡ true
unfolding add_all
add_all-keys [] v d m = m
add_all-keys ((h, ts) ∷ g) v d m = add_all-keys g v (add_edges h ts d) (add_edges-keys h v ts d m)

degrees-keys :
    (g : Graph) (v : ℕ)
    → any_of (keys g) v ≡ true
    → any_of (keys (degrees g).undirected_graph) v ≡ true
unfolding degrees
degrees-keys g v m = add_all-keys g v (record { undirected_graph = g; in_degree = [] }) m

module _ (graph : Graph) (d : Degrees) where
  -- Of the handlers with a color, those without an edge to them are among `before` or the nodes.
  abbrev Started : List ℕ → Colored → Type 0
  Started before s =
      (v : ℕ)
      → 1 ≤ color_of s.color v
      → is_zero (at (pos 0) d.in_degree v) ≡ true
      → any_of (before ++ s.nodes) v ≡ true

  visit-Started :
      (c cur : ℕ) (before : List ℕ) (s : Colored)
      → Started before s
      → Started before (visit graph d c cur s)
  unfolding visit
  visit-Started c cur before s h v colored z = go (is_zero (at (pos 0) d.in_degree cur)) refl
    where
      old :
          color_of (put cur c s.color) v ≡ color_of s.color v → any_of (before ++ s.nodes) v ≡ true
      old e = h v (omega (arith, e, colored)) z

      go :
          (b : Bool)
          → is_zero (at (pos 0) d.in_degree cur) ≡ b
          → any_of (before ++ (if b then s.nodes ++ (cur ∷ []) else s.nodes)) v ≡ true
      go true e = elim (color_of-put s.color cur c v) [
        | inl (same, e') ↦ any_of-right before (s.nodes ++ (cur ∷ [])) v (
            any_of-right s.nodes (cur ∷ []) v
              (subst (λ v'. any_of (cur ∷ []) v' ≡ true) same (any_of-here cur [])))
        | inr (other, e') ↦
            subst (λ ns. any_of ns v ≡ true) (append_assoc before s.nodes (cur ∷ []))
              (any_of-left (before ++ s.nodes) (cur ∷ []) v (old e'))
      ]
      go false e = elim (color_of-put s.color cur c v) [
        | inl (same, e') ↦
            absurd (cc (e, subst (λ v'. is_zero (at (pos 0) d.in_degree v') ≡ true) (sym same) z))
        | inr (other, e') ↦ old e'
      ]

  bfs-Started :
      (fuel c : ℕ) (worklist before : List ℕ) (s : Colored) {s' : Colored}
      → Started before s
      → bfs graph d fuel c worklist s ≡ some s'
      → Started before s'
  unfolding bfs
  bfs-Started fuel c [] before s h e = subst (Started before) (some-injective e) h
  bfs-Started zero c (cur ∷ worklist) before s h e = absurd (none-ne-some e)
  bfs-Started (suc fuel) c (cur ∷ worklist) before s h e =
      bfs-Started fuel c _ before (visit graph d c cur s) (visit-Started c cur before s h) e

  abbrev AllStarted : Components → Type 0
  AllStarted c =
      (v : ℕ)
      → 1 ≤ color_of c.color v
      → is_zero (at (pos 0) d.in_degree v) ≡ true
      → any_of (concat c.initial_handlers) v ≡ true

  color_all-AllStarted :
      (fuel : ℕ) (g : Graph) (n : ℕ) (c : Components) {c' : Components}
      → AllStarted c
      → color_all graph d fuel g n c ≡ some c'
      → AllStarted c'
  unfolding color_all new_component add_component
  color_all-AllStarted fuel [] n c h e = subst AllStarted (some-injective e) h
  color_all-AllStarted fuel ((handler, ts) ∷ rest) n c h e =
      elim (color_all-cases graph d fuel handler ts rest n c e) [
        | inl old ↦ color_all-AllStarted fuel rest n c h old.1
        | inr (new, (s, e₁, e₂)) ↦
            let found =
              bfs-Started fuel n (handler ∷ []) (concat c.initial_handlers) (new_component c)
                (λ v colored z. any_of-left (concat c.initial_handlers) [] v (h v colored z)) e₁ in
            color_all-AllStarted fuel rest (suc n) (add_component c s)
              (λ v colored z.
                subst (λ ns. any_of ns v ≡ true) (sym (concat-snoc c.initial_handlers s.nodes))
                  (found v colored z))
              e₂
      ]

  no_colors : AllStarted (record { color = []; sub_graphs = []; initial_handlers = [] })
  unfolding at
  no_colors v colored z = absurd (omega (arith, colored))

-- Where no key stands twice in the graph and no handler twice in the initial handlers of the
-- components, get_connected_components gives those components, and in its orders, one behind
-- another, no handler stands twice and each stands behind all that have an edge to it. Every key
-- of the graph stands in the orders, unless a key that does not has an edge to it.
pub get_connected_components-Topological :
    (fuel : ℕ) (graph : Graph) (v : ℕ) {c : Components} {sub_graphs : List Graph}
    {orders : List (List ℕ)}
    → Unique (keys graph)
    → find_components fuel graph ≡ some c
    → Unique (concat c.initial_handlers)
    → get_connected_components fuel graph ≡ some (sub_graphs, orders)
    → any_of (keys graph) v ≡ true
    → (sub_graphs ≡ c.sub_graphs)
      × Topological graph [] (concat orders)
      × Placed graph (concat orders) v
unfolding get_connected_components find_components any_of
get_connected_components-Topological fuel graph v {c} {sub_graphs} {orders} uk e u r k =
    let (c', e', r') = some-of_chain (find_components fuel graph) _ r in
    let (os, e₂, r₂) =
      some-of_chain (sort_all graph fuel c'.initial_handlers (degrees graph).in_degree) _ r' in
    let same : c' ≡ c = some-injective (sym e' ∙ e) in
    let d = degrees graph in
    let sources : Sources graph d (concat c'.initial_handlers) =
      color_all-Sources graph d fuel d.undirected_graph 1 _ (λ v m. absurd (cc m)) e' in
    let (p, colored) =
      color_all-Partition graph d (λ x y near. degrees-symmetric graph x y uk near) fuel 1
        d.undirected_graph _ (empty-Partition d.undirected_graph) e' in
    let started = color_all-AllStarted graph d fuel d.undirected_graph 1 _ (no_colors graph d) e' in
    let pair = some-injective r₂ in
    let (t, placed) =
      sort_all-sources graph uk (keys graph) fuel c'.initial_handlers d.in_degree
        (degrees-open_edges graph)
        (λ v m. zero-is_zero _ (degrees-open_edges graph v) (sources v m))
        (λ v key z.
          started v (colored v (inl (degrees-keys graph v key)))
            (ap is_zero (degrees-open_edges graph v) ∙ ap (λ n. is_zero (pos n)) z))
        (subst (λ q. Unique (concat q.initial_handlers)) (sym same) u) e₂ in
    subst
      (λ os'.
        (sub_graphs ≡ c.sub_graphs)
        × Topological graph [] (concat os')
        × Placed graph (concat os') v)
      (ap (λ q. q.1) pair) (sym (ap (λ q. q.0) pair) ∙ ap (λ q. q.sub_graphs) same, t, placed v k)
