-- ===== src/Handlers/Components/Subgraphs.antt =====
-- The subgraphs have all handlers, each once, and the ends of an edge together.
use alkali.Prelude.{ℕ, suc, ◌-◌, ◌≡◌, ◌≢◌, ◌∙◌, true, false, some, arith, inl, inr, get_elem?}
use alkali.Handlers.Maps.{any_of}
use alkali.Handlers.Sets.{Unique, any_of-no}
use alkali.Handlers.Components.{Graph, edges, degrees, Components, find_components}
use alkali.Handlers.Components.Release.{keys}
use alkali.Handlers.Components.Symmetric.{Near-keys, degrees-Near, degrees-symmetric}
use alkali.Handlers.Components.Searched.{color_of}
use alkali.Handlers.Components.Partition.{get_elem?-some, color_all-Partition, empty-Partition}

-- Both ends of every edge are in one of the subgraphs that getConnectedComponents finds.
pub find_components-edge :
    (fuel : ℕ) (graph : Graph) (u v : ℕ) {c : Components}
    → Unique (keys graph)
    → find_components fuel graph ≡ some c
    → any_of (edges graph u) v ≡ true
    → (i : ℕ) × ((sg : Graph) × (get_elem? c.sub_graphs i ≡ some sg)
        × (any_of (keys sg) u ≡ true)
        × (any_of (keys sg) v ≡ true))
unfolding find_components
find_components-edge fuel graph u v {c} uk e near =
    let und = (degrees graph).undirected_graph in
    let ((n, p), all) =
      color_all-Partition graph (degrees graph) (λ x y m. degrees-symmetric graph x y uk m) fuel 1
        und _ (empty-Partition und) e in
    let near' = degrees-Near graph u v near in
    let pos = all u (inl (Near-keys und u v near')) in
    let at_u : color_of c.color u ≡ suc (color_of c.color u - 1) = omega (arith, pos) in
    let l = p.number in
    let h = p.below u in
    let (sg, at_i) =
      get_elem?-some c.sub_graphs (color_of c.color u - 1) (omega (arith, pos, l, h)) in
    let at_v : color_of c.color v ≡ suc (color_of c.color u - 1) = elim (p.ends u v near') [
      | inl z ↦ absurd (omega (arith, z, pos))
      | inr same ↦ same ∙ at_u
    ] in
    (color_of c.color u - 1, (sg, at_i, (p.parts _ sg at_i u).1 at_u, (p.parts _ sg at_i v).1 at_v))

-- No handler is in two of the subgraphs that getConnectedComponents finds.
pub find_components-disjoint :
    (fuel : ℕ) (graph : Graph) (i j v : ℕ) {c : Components} {sg sh : Graph}
    → i ≢ j
    → Unique (keys graph)
    → find_components fuel graph ≡ some c
    → get_elem? c.sub_graphs i ≡ some sg
    → get_elem? c.sub_graphs j ≡ some sh
    → any_of (keys sg) v ≡ true
    → any_of (keys sh) v ≡ false
unfolding find_components
find_components-disjoint fuel graph i j v {c} {sg} {sh} ne uk e at_i at_j m =
    let und = (degrees graph).undirected_graph in
    let ((n, p), all) =
      color_all-Partition graph (degrees graph) (λ x y near. degrees-symmetric graph x y uk near)
        fuel 1 und _ (empty-Partition und) e in
    let a = (p.parts i sg at_i v).0 m in
    any_of-no (keys sh) v (λ m'. let b = (p.parts j sh at_j v).0 m' in ne (omega (arith, a, b)))
