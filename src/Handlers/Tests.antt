-- ===== src/Handlers/Tests.antt =====
-- Handlers in a diamond, from the source on and from the sink on, and a module with an extern.
use alkali.Prelude.{ℕ, ◌≡◌, refl, true, false, List, [], ◌∷◌, some, get_elem?, arith}
use alkali.Handlers.Maps.{any_of, at, put}
use alkali.Handlers.Sets.{Unique}
use alkali.Handlers.Names.{
  HandlerFullName, HandlerOp, mangle, lookup_handler, find_name, find_general, emplace,
}
use alkali.Handlers.Dependencies.{
  Dependency, handler_dependency, add_handlers, add_handler, add_full, add_extern, add_targets,
  emplace_all, emplace_forwards, set_forward, add_event_deps, mark_extern,
}
use alkali.Lang.Lexer.Chars.{same_text}
use alkali.Handlers.Dependencies.Lookups.{lookups, add_targets-lookups}
use alkali.Handlers.Dependencies.Targets.{handler_dependency-edges}
use alkali.Handlers.Components.{
  Graph, edges, Components, degrees, find_components, get_connected_components, color_all, bfs,
  visit, uncolored, new_component, add_component, sort_all, sort_nodes, release,
}
use alkali.Handlers.Components.Release.{keys}
use alkali.Handlers.Components.Order.{Topological, concat}
use alkali.Handlers.Components.Placed.{Placed}
use alkali.Handlers.Components.Complete.{get_connected_components-Topological}
use alkali.Handlers.Components.Subgraphs.{find_components-edge, find_components-disjoint}
use alkali.Handlers.Components.Orders.{get_connected_components-within}
use alkali.Handlers.Components.Ends.{get_connected_components-ends}

abbrev diamond : Graph
diamond = (1, 2 ∷ 3 ∷ []) ∷ (2, 4 ∷ []) ∷ (3, 4 ∷ []) ∷ (4, []) ∷ []

abbrev found : Components
found = record {
  color = (1, 1) ∷ (2, 1) ∷ (3, 1) ∷ (4, 1) ∷ [];
  sub_graphs = diamond ∷ [];
  initial_handlers = (1 ∷ []) ∷ [];
}

diamond-keys : Unique (keys diamond)
unfolding any_of
diamond-keys = (refl, (refl, (refl, (refl, tt))))

diamond-found : find_components 9 diamond ≡ some found
unfolding find_components color_all bfs visit uncolored degrees new_component add_component any_of
    at put
diamond-found = refl

diamond-order : get_connected_components 9 diamond ≡ some (diamond ∷ [], (1 ∷ 2 ∷ 3 ∷ 4 ∷ []) ∷ [])
unfolding get_connected_components find_components color_all bfs visit uncolored degrees
    new_component add_component sort_all sort_nodes release any_of at put
diamond-order = refl

-- The source 4 of a diamond is queued twice when the search begins at the sink, and 3 comes before 6.
abbrev turned : Graph
turned = (1, []) ∷ (2, 1 ∷ []) ∷ (3, 1 ∷ []) ∷ (4, 2 ∷ 3 ∷ []) ∷ (5, 6 ∷ []) ∷ (6, 3 ∷ []) ∷ []

turned-order :
    get_connected_components 15 turned ≡ some (turned ∷ [], (4 ∷ 4 ∷ 5 ∷ 2 ∷ 3 ∷ 6 ∷ 1 ∷ []) ∷ [])
unfolding get_connected_components find_components color_all bfs visit uncolored degrees
    new_component add_component sort_all sort_nodes release any_of at put
turned-order = refl

turned-keys : Unique (keys turned)
unfolding any_of
turned-keys = (refl, (refl, (refl, (refl, (refl, (refl, tt))))))

get_connected_components-Topological_example :
    (diamond ∷ [] ≡ found.sub_graphs)
    × Topological diamond [] (concat ((1 ∷ 2 ∷ 3 ∷ 4 ∷ []) ∷ []))
    × Placed diamond (concat ((1 ∷ 2 ∷ 3 ∷ 4 ∷ []) ∷ [])) 4
unfolding any_of
get_connected_components-Topological_example =
    get_connected_components-Topological 9 diamond 4 {c = found} diamond-keys diamond-found
      (refl, tt) diamond-order refl

get_connected_components-within_example :
    (sg : Graph) × (get_elem? (turned ∷ []) 0 ≡ some sg) × (any_of (keys sg) 6 ≡ true)
unfolding any_of
get_connected_components-within_example =
    get_connected_components-within 15 turned 0 6 {sub_graphs = turned ∷ []}
      {orders = (4 ∷ 4 ∷ 5 ∷ 2 ∷ 3 ∷ 6 ∷ 1 ∷ []) ∷ []} turned-keys turned-order refl refl

get_connected_components-ends_example :
    (fuel : ℕ) × ((r : List Graph × List (List ℕ)) × (get_connected_components fuel diamond
        ≡ some r))
get_connected_components-ends_example = get_connected_components-ends diamond diamond-keys

find_components-edge_example :
    (i : ℕ) × ((sg : Graph) × (get_elem? found.sub_graphs i ≡ some sg)
      × (any_of (keys sg) 1 ≡ true)
      × (any_of (keys sg) 3 ≡ true))
unfolding any_of at
find_components-edge_example =
    find_components-edge 9 diamond 1 3 {c = found} diamond-keys diamond-found refl

-- Two handlers that lead to one each.
abbrev pairs : Graph
pairs = (1, 2 ∷ []) ∷ (3, 4 ∷ []) ∷ []

abbrev found_pairs : Components
found_pairs = record {
  color = (1, 1) ∷ (2, 1) ∷ (3, 2) ∷ (4, 2) ∷ [];
  sub_graphs = ((1, 2 ∷ []) ∷ (2, []) ∷ []) ∷ ((3, 4 ∷ []) ∷ (4, []) ∷ []) ∷ [];
  initial_handlers = (1 ∷ []) ∷ (3 ∷ []) ∷ [];
}

pairs-found : find_components 5 pairs ≡ some found_pairs
unfolding find_components color_all bfs visit uncolored degrees new_component add_component any_of
    at put
pairs-found = refl

find_components-disjoint_example : any_of (keys ((3, 4 ∷ []) ∷ (4, []) ∷ [])) 2 ≡ false
unfolding any_of
find_components-disjoint_example =
    find_components-disjoint 5 pairs 0 1 2 {c = found_pairs} (λ e. omega (arith, e))
      (refl, (refl, tt)) pairs-found refl refl refl

abbrev lookup_name : HandlerFullName
lookup_name = record { event = b'L' ∷ []; atom = b'a' ∷ [] }

abbrev send_name : HandlerFullName
send_name = record { event = b'S' ∷ []; atom = [] }

-- A handler that returns an event of an extern with an atom, and the extern.
abbrev looker : HandlerOp
looker = record {
  key = 1;
  name = lookup_name;
  is_controller = false;
  is_handler = true;
  is_extern = false;
  returns = record { event = b'S' ∷ []; atom = b'b' ∷ [] } ∷ [];
}

abbrev sender : HandlerOp
sender = record {
  key = 2;
  name = send_name;
  is_controller = false;
  is_handler = true;
  is_extern = true;
  returns = lookup_name ∷ [];
}

abbrev both : List HandlerOp
both = sender ∷ looker ∷ []

abbrev both_dependency : Dependency
both_dependency = record {
  handlers_map = (lookup_name, looker) ∷ (send_name, sender) ∷ [];
  controllers_map = [];
  extern_forwards = (b'S' ∷ [], lookup_name ∷ []) ∷ [];
  forwarded = 1 ∷ 2 ∷ [];
  event_deps = (b'L' ∷ [], b'S' ∷ []) ∷ [];
  graph = (1, 2 ∷ []) ∷ [];
}

both-dependency : handler_dependency both ≡ some both_dependency
unfolding handler_dependency add_handlers add_handler add_full add_extern add_targets find_name
    emplace_all emplace find_general same_text emplace_forwards set_forward add_event_deps put
    lookup_handler mark_extern
both-dependency = refl

add_targets-lookups_example :
    add_targets both_dependency.handlers_map both_dependency.extern_forwards looker.returns
    ≡ lookups both_dependency.handlers_map looker.returns
add_targets-lookups_example =
    add_targets-lookups both_dependency.handlers_map both_dependency.extern_forwards looker.returns

handler_dependency-edges_example :
    lookups both_dependency.handlers_map looker.returns ≡ some (edges both_dependency.graph 1)
unfolding any_of
handler_dependency-edges_example =
    handler_dependency-edges both 1 {op = looker} {d = both_dependency} (refl, (refl, tt))
      both-dependency refl refl refl

-- An event with `_` in its name, and an event with an atom.
mangle-collision :
    mangle (record { event = b'a' ∷ b'_' ∷ b'b' ∷ []; atom = [] })
    ≡ mangle (record { event = b'a' ∷ []; atom = b'b' ∷ [] })
unfolding mangle
mangle-collision = refl
