-- ===== src/Handlers/Components.antt =====
-- `getConnectedComponents`: the components by a breadth-first search, and in each the topological
-- order.
pub mod Undirected
pub mod Release
pub mod Order
pub mod Placed
pub mod Rounds
pub mod Sources
pub mod Symmetric
pub mod Searched
pub mod Connected
pub mod Partition
pub mod Subgraphs
pub mod Complete
pub mod Initials
pub mod Orders
pub mod Colorless
pub mod SearchEnds
pub mod Totals
pub mod SortEnds
pub mod Ends
use alkali.Prelude.{
  ℕ, zero, suc, Bool, true, false, List, [], ◌∷◌, ◌++◌, Option, none, some, ◌>>=◌, ◌==◌,
  if◌then◌else◌, ℤ, pos, sucℤ, predℤ, is_zero,
}
use alkali.Handlers.Maps.{Map, at, put, any_of}

abbrev pub Graph : Type 0
Graph = Map (List ℕ)

abbrev pub edges : Graph → ℕ → List ℕ
edges = at []

-- The undirected graph and the in-degrees, in the first loops.
pub record Degrees : Type 0 where
  pub undirected_graph : Graph
  pub in_degree : Map ℤ

-- The body for one edge.
unfoldable pub add_edge : ℕ → ℕ → Degrees → Degrees
add_edge handler target d =
    let target_edges = edges d.undirected_graph target in
    record {
      in_degree = put target (sucℤ (at (pos 0) d.in_degree target)) d.in_degree;
      undirected_graph =
          if any_of target_edges handler
          then d.undirected_graph
          else put target (target_edges ++ (handler ∷ [])) d.undirected_graph;
    }

unfoldable pub add_edges : ℕ → List ℕ → Degrees → Degrees
unfolding add_edge
add_edges handler [] d = d
add_edges handler (target ∷ targets) d = add_edges handler targets (add_edge handler target d)

unfoldable pub add_all : Graph → Degrees → Degrees
unfolding add_edges
add_all [] d = d
add_all ((handler, targets) ∷ g) d = add_all g (add_edges handler targets d)

unfoldable pub degrees : Graph → Degrees
unfolding add_all
degrees graph = add_all graph (record { undirected_graph = graph; in_degree = [] })

-- `color`, `subGraph` and `nodes`.
pub record Colored : Type 0 where
  pub color : Map ℕ
  pub sub_graph : Graph
  pub nodes : List ℕ

-- The targets that have no color yet.
unfoldable pub uncolored : Map ℕ → List ℕ → List ℕ
uncolored color [] = []
uncolored color (target ∷ targets) =
    let rest = uncolored color targets in if at 0 color target == 0 then target ∷ rest else rest

module _ (graph : Graph) (d : Degrees) where
  -- What is done with the front of the worklist.
  unfoldable pub visit : ℕ → ℕ → Colored → Colored
  visit cur_color cur s = record {
    sub_graph = put cur (edges graph cur) s.sub_graph;
    nodes = if is_zero (at (pos 0) d.in_degree cur) then s.nodes ++ (cur ∷ []) else s.nodes;
    color = put cur cur_color s.color;
  }

  -- The loop over the worklist.
  unfoldable pub bfs : ℕ → ℕ → List ℕ → Colored → Option Colored
  bfs fuel cur_color [] s = some s
  bfs zero cur_color (cur ∷ worklist) s = none
  bfs (suc fuel) cur_color (cur ∷ worklist) s =
      let s' = visit cur_color cur s in
      bfs fuel cur_color (worklist ++ uncolored s'.color (edges d.undirected_graph cur)) s'

-- `color`, `subGraphs` and `initialHandlers`.
pub record Components : Type 0 where
  pub color : Map ℕ
  pub sub_graphs : List Graph
  pub initial_handlers : List (List ℕ)

-- A new subgraph, and its place behind the others.
unfoldable pub new_component : Components → Colored
new_component c = record { color = c.color; sub_graph = []; nodes = [] }

unfoldable pub add_component : Components → Colored → Components
add_component c s = record {
  color = s.color;
  sub_graphs = c.sub_graphs ++ (s.sub_graph ∷ []);
  initial_handlers = c.initial_handlers ++ (s.nodes ∷ []);
}

module _ (graph : Graph) (d : Degrees) where
  -- The loop over the keys of the undirected graph, with `numColors`.
  unfoldable pub color_all : ℕ → Graph → ℕ → Components → Option Components
  color_all fuel [] num_colors c = some c
  color_all fuel ((handler, _) ∷ rest) num_colors c = elim (at 0 c.color handler == 0) [
    | false ↦ color_all fuel rest num_colors c
    | true ↦ do
      s ← bfs graph d fuel num_colors (handler ∷ []) (new_component c)
      color_all fuel rest (suc num_colors) (add_component c s)
  ]

-- The targets of a handler in the order lose one predecessor; those without any are pushed.
unfoldable pub release : List ℕ → List ℕ → Map ℤ → List ℕ × Map ℤ
release [] worklist in_degree = (worklist, in_degree)
release (target ∷ targets) worklist in_degree =
    let degree = predℤ (at (pos 0) in_degree target) in
    release targets (if is_zero degree then worklist ++ (target ∷ []) else worklist)
      (put target degree in_degree)

module _ (graph : Graph) where
  -- The loop over the worklist of one subgraph.
  unfoldable pub sort_nodes : ℕ → List ℕ → Map ℤ → List ℕ → Option (List ℕ × Map ℤ)
  sort_nodes fuel [] in_degree nodes = some (nodes, in_degree)
  sort_nodes zero (cur ∷ worklist) in_degree nodes = none
  sort_nodes (suc fuel) (cur ∷ worklist) in_degree nodes =
      let r = release (edges graph cur) worklist in_degree in
      sort_nodes fuel r.0 r.1 (nodes ++ (cur ∷ []))

  -- The loop over the subgraphs.
  unfoldable pub sort_all : ℕ → List (List ℕ) → Map ℤ → Option (List (List ℕ))
  sort_all fuel [] in_degree = some []
  sort_all fuel (initial ∷ rest) in_degree = do
    (nodes, in_degree') ← sort_nodes fuel initial in_degree []
    orders ← sort_all fuel rest in_degree'
    some (nodes ∷ orders)

-- The first half, and the whole.
unfoldable pub find_components : ℕ → Graph → Option Components
find_components fuel graph =
    let d = degrees graph in
    color_all graph d fuel d.undirected_graph 1
      (record { color = []; sub_graphs = []; initial_handlers = [] })

unfoldable pub get_connected_components : ℕ → Graph → Option (List Graph × List (List ℕ))
get_connected_components fuel graph = do
  c ← find_components fuel graph
  orders ← sort_all graph fuel c.initial_handlers (degrees graph).in_degree
  some (c.sub_graphs, orders)
