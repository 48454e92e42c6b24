-- ===== src/Handlers/Components/Orders.antt =====
-- The order of a component has handlers of its subgraph only.
use alkali.Prelude.{
  ℕ, zero, suc, ◌≡◌, refl, sym, ap, ◌∙◌, subst, Bool, true, false, List, [], ◌∷◌, ◌++◌, some,
  some-injective, none-ne-some, some-of_chain, arith, inl, inr, get_elem?, is_zero, if◌then◌else◌,
  ℤ, pos, predℤ,
}
use alkali.Handlers.Maps.{Map, at, put, any_of}
use alkali.Handlers.Sets.{Unique, any_of-or, any_of-here, any_of-there}
use alkali.Handlers.Components.{
  Graph, edges, degrees, release, sort_nodes, sort_all, find_components, get_connected_components,
}
use alkali.Handlers.Components.Release.{keys, any_of-one}
use alkali.Handlers.Components.Symmetric.{Near, Near-keys, degrees-Near, degrees-symmetric}
use alkali.Handlers.Components.Searched.{color_of}
use alkali.Handlers.Components.Partition.{get_elem?-some, color_all-Partition, empty-Partition}
use alkali.Handlers.Components.Initials.{color_all-Initials, empty-Initials}

module _ (graph : Graph) (P : ℕ → Type 0) (closed : (u v : ℕ) → P u → Near graph u v → P v) where
  -- Handlers that have a property which the edges keep.
  abbrev Every : List ℕ → Type 0
  Every xs = (v : ℕ) → any_of xs v ≡ true → P v

  Every-snoc : (xs : List ℕ) (x : ℕ) → Every xs → P x → Every (xs ++ (x ∷ []))
  Every-snoc xs x h p v m = elim (any_of-or xs (x ∷ []) v m) [
    | inl k ↦ h v k
    | inr k ↦ subst P (any_of-one x v k) p
  ]

  release-Every :
      (targets worklist : List ℕ) (deg : Map ℤ)
      → Every targets
      → Every worklist
      → Every (release targets worklist deg).0
  unfolding release
  release-Every [] worklist deg t w = w
  release-Every (target ∷ targets) worklist deg t w =
      let degree = predℤ (at (pos 0) deg target) in
      let rest =
        release-Every targets (if is_zero degree then worklist ++ (target ∷ []) else worklist)
          (put target degree deg) (λ v m. t v (any_of-there target v targets m)) in
      rest (pushed (is_zero degree))
    where
      pushed : (b : Bool) → Every (if b then worklist ++ (target ∷ []) else worklist)
      pushed true = Every-snoc worklist target w (t target (any_of-here target targets))
      pushed false = w

  sort_nodes-Every :
      (fuel : ℕ) (worklist : List ℕ) (deg : Map ℤ) (nodes : List ℕ) {r : List ℕ × Map ℤ}
      → Every worklist
      → Every nodes
      → sort_nodes graph fuel worklist deg nodes ≡ some r
      → Every r.0
  unfolding sort_nodes
  sort_nodes-Every fuel [] deg nodes w n e = subst (λ q. Every q.0) (some-injective e) n
  sort_nodes-Every zero (cur ∷ worklist) deg nodes w n e = absurd (none-ne-some e)
  sort_nodes-Every (suc fuel) (cur ∷ worklist) deg nodes w n e =
      let here = w cur (any_of-here cur worklist) in
      let r = release (edges graph cur) worklist deg in
      sort_nodes-Every fuel r.0 r.1 (nodes ++ (cur ∷ []))
        (release-Every (edges graph cur) worklist deg (λ v m. closed cur v here m)
          (λ v m. w v (any_of-there cur v worklist m)))
        (Every-snoc nodes cur n here) e

  sort_all-Every :
      (fuel : ℕ) (initials : List (List ℕ)) (deg : Map ℤ) (i : ℕ) {orders : List (List ℕ)}
      {order : List ℕ}
      → sort_all graph fuel initials deg ≡ some orders
      → get_elem? orders i ≡ some order
      → ((initial : List ℕ) → get_elem? initials i ≡ some initial → Every initial)
      → Every order
  unfolding sort_all any_of
  sort_all-Every fuel [] deg i {order = order} e at_i h =
      absurd (none-ne-some (subst (λ q. get_elem? q i ≡ some order) (sym (some-injective e)) at_i))
  sort_all-Every fuel (initial ∷ rest) deg i {order = order} e at_i h =
      let (r, e₁, e₂) = some-of_chain (sort_nodes graph fuel initial deg []) _ e in
      let (os, e₃, e₄) = some-of_chain (sort_all graph fuel rest r.1) _ e₂ in
      at_place i r os e₁ e₃ h (λ k orders' order' e' a h'. sort_all-Every fuel rest r.1 k e' a h')
        (subst (λ q. get_elem? q i ≡ some order) (sym (some-injective e₄)) at_i)
    where
      at_place :
          (j : ℕ) (r : List ℕ × Map ℤ) (os : List (List ℕ))
          → sort_nodes graph fuel initial deg [] ≡ some r
          → sort_all graph fuel rest r.1 ≡ some os
          → ((first : List ℕ) → get_elem? (initial ∷ rest) j ≡ some first → Every first)
          → ((k : ℕ) (orders' : List (List ℕ)) (order' : List ℕ)
              → sort_all graph fuel rest r.1 ≡ some orders'
              → get_elem? orders' k ≡ some order'
              → ((first : List ℕ) → get_elem? rest k ≡ some first → Every first)
              → Every order')
          → get_elem? (r.0 ∷ os) j ≡ some order
          → Every order
      at_place zero r os e₁ e₃ h' rec at_j =
          subst Every (some-injective at_j)
            (sort_nodes-Every fuel initial deg [] (h' initial refl) (λ v m. absurd (cc m)) e₁)
      at_place (suc j) r os e₁ e₃ h' rec at_j = rec j os order e₃ at_j h'

-- The components by their colors.
pub record Coloring (graph : Graph) (sub_graphs : List Graph) (orders : List (List ℕ))
    : Type 0 where
  pub color : ℕ → ℕ
  pub along : (u v : ℕ) → Near graph u v → color v ≡ color u
  pub ordered :
      (i : ℕ) (order : List ℕ)
      → get_elem? orders i ≡ some order
      → (v : ℕ) → any_of order v ≡ true
      → color v ≡ suc i
  pub part :
      (i v : ℕ)
      → color v ≡ suc i
      → (sg : Graph) × (get_elem? sub_graphs i ≡ some sg) × (any_of (keys sg) v ≡ true)

pub get_connected_components-Coloring :
    (fuel : ℕ) (graph : Graph) {sub_graphs : List Graph} {orders : List (List ℕ)}
    → Unique (keys graph)
    → get_connected_components fuel graph ≡ some (sub_graphs, orders)
    → Coloring graph sub_graphs orders
unfolding get_connected_components find_components
get_connected_components-Coloring fuel graph {sub_graphs} {orders} uk e =
    let (c, e₁, e₂) = some-of_chain (find_components fuel graph) _ e in
    let (os, e₃, e₄) =
      some-of_chain (sort_all graph fuel c.initial_handlers (degrees graph).in_degree) _ e₂ in
    let und = (degrees graph).undirected_graph in
    let symmetric : (x y : ℕ) → Near und x y → Near und y x =
      λ x y near. degrees-symmetric graph x y uk near in
    let ((n, p), all) =
      color_all-Partition graph (degrees graph) symmetric fuel 1 und _ (empty-Partition und) e₁ in
    let (n', q) =
      color_all-Initials graph (degrees graph) symmetric fuel 1 und _ (empty-Partition und)
        empty-Initials e₁ in
    let pair = some-injective e₄ in
    let near : (u v : ℕ) → Near graph u v → color_of c.color v ≡ color_of c.color u = λ u v m.
      (let m' = degrees-Near graph u v m in
        let positive = all u (inl (Near-keys und u v m')) in
        elim (p.ends u v m') [ inl z ↦ absurd (omega (arith, z, positive)) | inr same ↦ same ]) in
    record {
      color = color_of c.color;
      along = near;
      ordered = λ i order at_i.
          sort_all-Every graph (λ v. color_of c.color v ≡ suc i) (λ u v h m. near u v m ∙ h) fuel
            c.initial_handlers (degrees graph).in_degree i e₃
            (subst (λ z. get_elem? z i ≡ some order) (sym (ap (λ z. z.1) pair)) at_i)
            (λ initial at_initial. q.colored i initial at_initial);
      part = λ i v h.
          (let l = p.number in
            let b = p.below v in
            let (sg, at_i) = get_elem?-some c.sub_graphs i (omega (arith, h, l, b)) in
            (
              sg,
              subst (λ z. get_elem? z i ≡ some sg) (ap (λ z. z.0) pair) at_i,
              (p.parts i sg at_i v).1 h,
            ));
    }

-- In the order that getConnectedComponents gives for a component, repeated handlers included,
-- there are only handlers of its subgraph.
pub get_connected_components-within :
    (fuel : ℕ) (graph : Graph) (i v : ℕ) {sub_graphs : List Graph} {orders : List (List ℕ)}
    {order : List ℕ}
    → Unique (keys graph)
    → get_connected_components fuel graph ≡ some (sub_graphs, orders)
    → get_elem? orders i ≡ some order
    → any_of order v ≡ true
    → (sg : Graph) × (get_elem? sub_graphs i ≡ some sg) × (any_of (keys sg) v ≡ true)
get_connected_components-within fuel graph i v {order = order} uk e at_i m =
    let c = get_connected_components-Coloring fuel graph uk e in
    c.part i v (c.ordered i order at_i v m)
