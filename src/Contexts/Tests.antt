-- ===== src/Contexts/Tests.antt =====
-- Three handlers: the first alone, the second and the third with a common context.
use mathlib.Core.List.Permᴰ
use alkali.Prelude.{
  ℕ, zero, suc, arith, ◌+◌, ◌≡◌, refl, true, false, List, [], ◌∷◌, ◌++◌, Option, some, length,
  get_elem?, inl, inr, ◌⊎◌, subst, some-injective,
}
use alkali.Lang.Token.{Text}
use alkali.Lang.Lexer.Chars.{same_text}
use alkali.Handlers.Maps.{any_of, at, put}
use alkali.Contexts.{
  FieldType, any_type, context_type, integer_type, Field, TableT, Ref, found, event_prefix,
  contains, starts_with, find_index, find_field, get_func_name, get_function_table,
  get_context_table, get_context_type, context_bufferization, add_orders, add_order, add_functions,
  add_refs, add_ref, resolve, mismatch, set_type, emplace_index, is_any, same_type,
}
use alkali.Contexts.Names.{named, named_in}
use alkali.Contexts.Resolve.{Agrees}
use alkali.Contexts.Lookups.{get_context_type-ref, get_func_name-event}
use alkali.Contexts.Errors.{context_bufferization-no_errors}
use alkali.Contexts.Arguments.{
  Argument, Operand, operand, operand_type, Function, run_on_event, run_on_function,
}
use alkali.Contexts.Arguments.Match.{Fits}
use alkali.Contexts.Arguments.Edges.{run_on_event-edge}
use alkali.Handlers.Components.{
  Graph, get_connected_components, find_components, color_all, bfs, visit, uncolored, degrees,
  new_component, add_component, sort_all, sort_nodes, release,
}
use alkali.Contexts.Structs.{Collected, member_type, collect_context}
use alkali.Contexts.Structs.Members.{collect_context-member}

abbrev names : ℕ → Text
names n = (97 + n) ∷ []

abbrev x : Text
x = b'x' ∷ []

abbrev y : Text
y = b'y' ∷ []

abbrev refs : ℕ → List Ref
refs zero = []
refs (suc zero) = (y, integer_type 8) ∷ []
refs (suc (suc zero)) = (x, any_type) ∷ (y, integer_type 8) ∷ []
refs (suc (suc (suc n))) = (x, integer_type 16) ∷ []

abbrev orders : List (List ℕ)
orders = (1 ∷ []) ∷ (2 ∷ 3 ∷ []) ∷ []

abbrev the_table : TableT
the_table =
    (x, record { index = 0; type = integer_type 16 })
    ∷ (y, record { index = 1; type = integer_type 8 })
    ∷ []

the_analysis : context_bufferization names refs orders ≡ record {
  context_tables = ((y, record { index = 0; type = integer_type 8 }) ∷ []) ∷ the_table ∷ [];
  context_map = (names 1, 0) ∷ (names 2, 1) ∷ (names 3, 1) ∷ [];
  errors = [];
}
unfolding context_bufferization add_orders add_order add_functions add_refs add_ref emplace_index
    find_index find_field set_type resolve mismatch is_any same_type same_text
the_analysis = refl

-- Two types for one field.
mixed :
    (context_bufferization names (λ n. (x, integer_type n) ∷ []) ((1 ∷ 2 ∷ []) ∷ [])).errors
    ≡ x ∷ []
unfolding context_bufferization add_orders add_order add_functions add_refs add_ref emplace_index
    find_index find_field set_type resolve mismatch is_any same_type same_text
mixed = refl

-- The prefix is cut off also where the name does not begin with it.
in_the_middle : get_func_name (b'f' ∷ event_prefix) ≡ b'_' ∷ []
unfolding get_func_name contains starts_with
in_the_middle = refl

get_context_type-ref_example :
    (f : Field) × (get_context_type
        (context_bufferization names refs orders)
        (event_prefix ++ names 3)
        x
      ≡ some (found f))
    × Agrees (x, integer_type 16) f.type (context_bufferization names refs orders).errors
unfolding any_of named_in named same_text
get_context_type-ref_example =
    get_context_type-ref names refs ((1 ∷ []) ∷ []) [] (2 ∷ 3 ∷ []) 3 0 (x, integer_type 16)
      (event_prefix ++ names 3) refl refl refl (get_func_name-event (names 3))

abbrev want : Text → FieldType
want s = elim (same_text s x) [ true ↦ integer_type 16 | false ↦ integer_type 8 ]

agreed :
    {r r' : Ref}
    → r ≡ r'
    → ((r.1 ≡ any_type) ⊎ (r.1 ≡ want r.0))
    → ((r'.1 ≡ any_type) ⊎ (r'.1 ≡ want r'.0))
agreed e h = subst (λ q. (q.1 ≡ any_type) ⊎ (q.1 ≡ want q.0)) e h

refs-agree :
    (h i : ℕ) (r : Ref) → get_elem? (refs h) i ≡ some r → (r.1 ≡ any_type) ⊎ (r.1 ≡ want r.0)
unfolding same_text
refs-agree zero i r e = absurd (cc e)
refs-agree (suc zero) zero r e = agreed (some-injective e) (inr refl)
refs-agree (suc zero) (suc i) r e = absurd (cc e)
refs-agree (suc (suc zero)) zero r e = agreed (some-injective e) (inl refl)
refs-agree (suc (suc zero)) (suc zero) r e = agreed (some-injective e) (inr refl)
refs-agree (suc (suc zero)) (suc (suc i)) r e = absurd (cc e)
refs-agree (suc (suc (suc n))) zero r e = agreed (some-injective e) (inr refl)
refs-agree (suc (suc (suc n))) (suc i) r e = absurd (cc e)

context_bufferization-no_errors_example : (context_bufferization names refs orders).errors ≡ []
context_bufferization-no_errors_example =
    context_bufferization-no_errors want names refs orders refs-agree

abbrev caller : Function
caller = record {
  name = names 2;
  arguments = context_type ∷ [];
  is_extern = false;
  extern_forward = false;
  has_predecessor = false;
}

abbrev target : Function
target = record {
  name = names 3;
  arguments = integer_type 32 ∷ context_type ∷ [];
  is_extern = false;
  extern_forward = false;
  has_predecessor = true;
}

abbrev pair : Graph
pair = (1, []) ∷ (2, 3 ∷ []) ∷ (3, []) ∷ []

pair-orders :
    get_connected_components 9 pair
    ≡ some (((1, []) ∷ []) ∷ ((2, 3 ∷ []) ∷ (3, []) ∷ []) ∷ [], orders)
unfolding get_connected_components find_components color_all bfs visit uncolored degrees
    new_component add_component sort_all sort_nodes release any_of at put
pair-orders = refl

names-injective : (u v : ℕ) → names u ≡ names v → u ≡ v
names-injective u v e = let h : 97 + u ≡ 97 + v = cc e in omega (arith, h)

run_on_event-edge_example :
    (event : List Operand × Option (List Text)) × (arguments : List Argument) × (run_on_event
        (λ t. t)
        (context_bufferization names refs orders)
        false
        caller
        target
        (operand 0 (integer_type 32) ∷ operand 1 context_type ∷ [])
      ≡ some event)
    × (run_on_function (λ t. t) (context_bufferization names refs orders) target ≡ some arguments)
    × Fits event arguments (integer_type 32 ∷ context_type ∷ [])
unfolding any_of at get_func_name contains starts_with operand_type
run_on_event-edge_example =
    run_on_event-edge (λ t. t) names refs 9 pair 2 3 false caller target
      (operand 0 (integer_type 32) ∷ operand 1 context_type ∷ [])
      {sub_graphs = ((1, []) ∷ []) ∷ ((2, 3 ∷ []) ∷ (3, []) ∷ []) ∷ []} {orders = orders}
      (refl, (refl, (refl, tt))) pair-orders refl refl refl names-injective refl refl refl refl refl

collect_context-member_example :
    (c : Collected ℕ) × (collect_context 0 (λ n. n + 1) (λ n. n + 1) (λ t. t) the_table [] ≡ some c)
    × (length c.context_types ≡ length the_table)
    × (get_elem? c.context_types 1
        ≡ some (member_type 0 (λ n. n + 1) (λ n. n + 1) (integer_type 8)))
unfolding any_of named_in named same_text get_func_name contains starts_with get_function_table
    get_context_table get_context_type find_index find_field member_type
collect_context-member_example =
    collect_context-member 0 (λ n. n + 1) (λ n. n + 1) (λ t. t) names refs ((1 ∷ []) ∷ []) []
      (2 ∷ 3 ∷ []) 2 (names 2) y (record { index = 1; type = integer_type 8 }) the_table []
      Permᴰ.refl refl refl refl (rw (the_analysis) refl) (rw (the_analysis) refl)
      ((17, refl), ((9, refl), tt))
