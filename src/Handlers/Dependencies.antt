-- ===== src/Handlers/Dependencies.antt =====
-- The constructor of `HandlerDependencyAnalysis`: from the functions of a module to the graph.
pub mod Lookups
pub mod Targets
use alkali.Prelude.{
  ℕ, Bool, true, false, ◌&&◌, not, List, [], ◌∷◌, ◌++◌, Option, none, some, ◌>>=◌, ◌||◌,
  if◌then◌else◌,
}
use alkali.Lang.Token.{Text}
use alkali.Lang.Lexer.Chars.{same_text}
use alkali.Handlers.Maps.{Map, at, put, any_of}
use alkali.Handlers.Components.{Graph, edges}
use alkali.Handlers.Names.{
  HandlerFullName, HandlerOp, NameMap, emplace, find_name, find_general, lookup_handler,
}

-- `externForwards`.
abbrev pub Forwards : Type 0
Forwards = List (Text × List HandlerFullName)

unfoldable pub find_forwards : Text → Forwards → Option (List HandlerFullName)
find_forwards event [] = none
find_forwards event ((j, to) ∷ m) =
    let rest = find_forwards event m in elim (same_text j event) [ true ↦ some to | false ↦ rest ]

unfoldable pub emplace_forwards : Text → List HandlerFullName → Forwards → Forwards
unfolding find_forwards
emplace_forwards event to m = elim (find_forwards event m) [ some old ↦ m | none ↦ (event, to) ∷ m ]

-- What the analysis has, and the functions with the attribute `extern_forward`.
pub record Dependency : Type 0 where
  pub handlers_map : NameMap
  pub controllers_map : NameMap
  pub extern_forwards : Forwards
  pub forwarded : List ℕ
  pub event_deps : List (Text × Text)
  pub graph : Graph

unfoldable pub emplace_all : (HandlerOp → Bool) → List HandlerOp → NameMap → NameMap
emplace_all wanted [] m = m
emplace_all wanted (op ∷ ops) m =
    emplace_all wanted ops (if wanted op then emplace op.name op m else m)

-- The attributes that an extern sets, on itself and on the handlers behind it.
unfoldable pub set_forward : NameMap → List HandlerFullName → List ℕ → List ℕ
set_forward handlers [] forwarded = forwarded
set_forward handlers (target ∷ to) forwarded = elim (lookup_handler handlers target) [
  | none ↦ set_forward handlers to forwarded
  | some op ↦ set_forward handlers to (op.key ∷ forwarded)
]

-- The loop over an extern's forwards: it looks for the target again, not for the new one.
unfoldable pub forward_targets : NameMap → HandlerFullName → List HandlerFullName → List ℕ
forward_targets handlers target [] = []
forward_targets handlers target (target2 ∷ to) =
    let rest = forward_targets handlers target to in
    elim (find_name target handlers) [ some op ↦ op.key ∷ rest | none ↦ rest ]

-- The targets that one return adds; undefined, `none`, where there is no handler for it.
unfoldable pub add_target : NameMap → Forwards → HandlerFullName → Option (List ℕ)
unfolding find_forwards forward_targets
add_target handlers forwards target = elim (find_name target handlers) [
  | some op ↦ some (op.key ∷ [])
  | none ↦ elim (find_general target.event handlers) [
    | none ↦ none
    | some op ↦ elim op.is_extern [
      | false ↦ some (op.key ∷ [])
      | true ↦ elim (find_forwards target.event forwards) [
        | none ↦ some (op.key ∷ [])
        | some to ↦ some (op.key ∷ forward_targets handlers target to)
      ]
    ]
  ]
]

unfoldable pub add_targets : NameMap → Forwards → List HandlerFullName → Option (List ℕ)
unfolding add_target
add_targets handlers forwards [] = some []
add_targets handlers forwards (target ∷ to) = do
  ts ← add_target handlers forwards target
  rest ← add_targets handlers forwards to
  some (ts ++ rest)

unfoldable pub mark_extern : HandlerOp → List ℕ → List ℕ
mark_extern op forwarded = elim op.returns [ [] ↦ forwarded | _ ∷ _ ↦ op.key ∷ forwarded ]

-- `eventDeps`, as pairs of events, with repetitions.
unfoldable pub add_event_deps :
    Text → List HandlerFullName → List (Text × Text) → List (Text × Text)
add_event_deps from [] deps = deps
add_event_deps from (target ∷ to) deps = add_event_deps from to ((from, target.event) ∷ deps)

-- What the loop over the handlers does with an extern, and with a full handler.
unfoldable pub add_extern : HandlerOp → Dependency → Dependency
add_extern op d = record d {
  forwarded = set_forward d.handlers_map op.returns (mark_extern op d.forwarded);
  extern_forwards = emplace_forwards op.name.event op.returns d.extern_forwards;
}

unfoldable pub add_full : HandlerOp → Dependency → Option Dependency
add_full op d = do
  targets ← add_targets d.handlers_map d.extern_forwards op.returns
  some (record d {
    event_deps = add_event_deps op.name.event op.returns d.event_deps;
    graph = put op.key targets d.graph;
  })

-- The body of the loop.
unfoldable pub add_handler : HandlerOp → Dependency → Option Dependency
add_handler op d = elim op.is_extern [ true ↦ some (add_extern op d) | false ↦ add_full op d ]

unfoldable pub add_handlers : List HandlerOp → Dependency → Option Dependency
add_handlers [] d = some d
add_handlers (op ∷ ops) d = elim op.is_handler [
  | false ↦ add_handlers ops d
  | true ↦ do d' ← add_handler op d; add_handlers ops d'
]

unfoldable pub handler_dependency : List HandlerOp → Option Dependency
handler_dependency ops = add_handlers ops (record {
  handlers_map = emplace_all (λ op. op.is_handler) ops [];
  controllers_map = emplace_all (λ op. op.is_controller) ops [];
  extern_forwards = [];
  forwarded = [];
  event_deps = [];
  graph = [];
})

-- `hasSuccessor`, by the first handler of the event.
unfoldable pub has_successor : NameMap → Text → Bool
has_successor [] event = false
has_successor ((j, op) ∷ m) event =
    let rest = has_successor m event in
    elim (same_text j.event event) [ true ↦ not op.is_extern | false ↦ rest ]
