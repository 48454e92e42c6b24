-- ===== src/Contexts.antt =====
-- lib/ep2/ContextBufferizationAnalysis.cpp: the fields of the contexts that the handlers of a connected
-- component share. A function of the module is known by a number, as in Handlers.
pub mod Texts
pub mod Fields
pub mod Resolve
pub mod Refs
pub mod Names
pub mod Tables
pub mod Lookups
pub mod Errors
pub mod Arguments
pub mod Structs
mod Tests
use alkali.Prelude.{
  ℕ, suc, Bool, true, false, not, ◌&&◌, List, [], ◌∷◌, ◌++◌, Option, none, some, ◌>>=◌, ◌==◌,
  length, get_elem?, drop, map,
}
use alkali.Lang.Token.{Text}
use alkali.Lang.Lexer.Chars.{same_text}
use alkali.Handlers.Names.{HandlerFullName, mangle}

-- `mlir::Type`. Types are unique in MLIR, so that a struct, and any of the remaining types, is known
-- by a number.
pub data FieldType : Type 0 where
  any_type : FieldType
  context_type : FieldType
  buffer_type : FieldType
  integer_type : ℕ → FieldType
  struct_type : ℕ → FieldType
  other_type : ℕ → FieldType

unfoldable pub is_any : FieldType → Bool
is_any any_type = true
is_any _ = false

-- `==` on types.
unfoldable pub same_type : FieldType → FieldType → Bool
same_type any_type any_type = true
same_type context_type context_type = true
same_type buffer_type buffer_type = true
same_type (integer_type m) (integer_type n) = m == n
same_type (struct_type m) (struct_type n) = m == n
same_type (other_type m) (other_type n) = m == n
same_type _ _ = false

-- The pair of a table's entry.
pub record Field : Type 0 where
  pub index : ℕ
  pub type : FieldType

-- `TableT`, the newest entry last. Where the code iterates over a table, the order is LLVM's.
abbrev pub TableT : Type 0
TableT = List (Text × Field)

unfoldable pub find_field : Text → TableT → Option Field
find_field name [] = none
find_field name ((n, f) ∷ t) = elim (same_text n name) [ true ↦ some f | false ↦ find_field name t ]

-- What a further reference to a field does to its type.
unfoldable pub resolve : FieldType → FieldType → FieldType
resolve old new = elim (is_any old) [ true ↦ new | false ↦ old ]

unfoldable pub mismatch : FieldType → FieldType → Bool
mismatch old new = not (is_any old) && (not (same_type old new) && not (is_any new))

unfoldable pub set_type : Text → FieldType → TableT → TableT
set_type name type [] = []
set_type name type ((n, f) ∷ t) = elim (same_text n name) [
  | true ↦ (n, record { index = f.index; type = type }) ∷ t
  | false ↦ (n, f) ∷ set_type name type t
]

-- A table with `ctr`, and the fields for which an error is emitted.
pub record Build : Type 0 where
  pub table : TableT
  pub ctr : ℕ
  pub errors : List Text

-- A `ContextRefOp`: the field's name and type.
abbrev pub Ref : Type 0
Ref = Text × FieldType

-- The body for one reference.
unfoldable pub add_ref : Ref → Build → Build
unfolding find_field set_type resolve mismatch
add_ref (name, type) b = elim (find_field name b.table) [
  | none ↦ record {
    table = b.table ++ ((name, record { index = b.ctr; type = type }) ∷ []);
    ctr = suc b.ctr;
    errors = b.errors;
  }
  | some f ↦ record {
    table = set_type name (resolve f.type type) b.table;
    ctr = b.ctr;
    errors = elim (mismatch f.type type) [ true ↦ b.errors ++ (name ∷ []) | false ↦ b.errors ];
  }
]

unfoldable pub add_refs : List Ref → Build → Build
unfolding add_ref
add_refs [] b = b
add_refs (r ∷ rs) b = add_refs rs (add_ref r b)

-- `contextTables`, `contextMap` and the errors.
pub record Analysis : Type 0 where
  pub context_tables : List TableT
  pub context_map : List (Text × ℕ)
  pub errors : List Text

unfoldable pub find_index : Text → List (Text × ℕ) → Option ℕ
find_index name [] = none
find_index name ((n, i) ∷ m) = elim (same_text n name) [ true ↦ some i | false ↦ find_index name m ]

-- `try_emplace` on `contextMap`, which only find reads.
unfoldable pub emplace_index : Text → ℕ → List (Text × ℕ) → List (Text × ℕ)
unfolding find_index
emplace_index name i m = elim (find_index name m) [ none ↦ m ++ ((name, i) ∷ []) | some _ ↦ m ]

module _ (sym_name : ℕ → Text) (refs : ℕ → List Ref) where
  -- The loop over the order of a component; the references of a function in the order of its walk.
  unfoldable pub add_functions : ℕ → List ℕ → Build → List (Text × ℕ) → Build × List (Text × ℕ)
  unfolding add_refs emplace_index
  add_functions table_idx [] b m = (b, m)
  add_functions table_idx (func ∷ order) b m =
      add_functions table_idx order (add_refs (refs func) b)
        (emplace_index (sym_name func) table_idx m)

  unfoldable pub add_order : List ℕ → Analysis → Analysis
  unfolding add_functions
  add_order order a =
      let empty : Build = record { table = []; ctr = 0; errors = a.errors } in
      let r = add_functions (length a.context_tables) order empty a.context_map in
      record {
        context_tables = a.context_tables ++ (r.0.table ∷ []);
        context_map = r.1;
        errors = r.0.errors;
      }

  unfoldable pub add_orders : List (List ℕ) → Analysis → Analysis
  unfolding add_order
  add_orders [] a = a
  add_orders (order ∷ orders) a = add_orders orders (add_order order a)

  unfoldable pub context_bufferization : List (List ℕ) → Analysis
  unfolding add_orders
  context_bufferization orders =
      add_orders orders (record { context_tables = []; context_map = []; errors = [] })

unfoldable pub starts_with : Text → Text → Bool
starts_with [] s = true
starts_with (_ ∷ _) [] = false
starts_with (c ∷ cs) (d ∷ s) = c == d && starts_with cs s

unfoldable pub contains : Text → Text → Bool
unfolding starts_with
contains pattern [] = starts_with pattern []
contains pattern (c ∷ s) = elim (starts_with pattern (c ∷ s)) [
  | true ↦ true
  | false ↦ contains pattern s
]

abbrev pub event_prefix : Text
event_prefix = b'_' ∷ b'_' ∷ b'e' ∷ b'v' ∷ b'e' ∷ b'n' ∷ b't' ∷ b'_' ∷ []

unfoldable pub get_func_name : Text → Text
unfolding contains
get_func_name name = elim (contains event_prefix name) [ false ↦ name | true ↦ drop 8 name ]

-- `getContextTable` by the mangled name; `none` is the failed assertion.
unfoldable pub get_context_table : Analysis → Text → Option TableT
get_context_table a mangled_name = do
  i ← find_index mangled_name a.context_map
  get_elem? a.context_tables i

-- `getContextTable` by the function.
unfoldable pub get_function_table : Analysis → Text → Option TableT
get_function_table a name = get_context_table a (get_func_name name)

-- Both errors are emitted on the function, and return the index 0 with the null type.
pub data TypeLookup : Type 0 where
  found : Field → TypeLookup
  operation_not_found : TypeLookup
  field_not_found : TypeLookup

-- `none` is a read of `contextTables` out of bounds.
unfoldable pub get_context_type : Analysis → Text → Text → Option TypeLookup
get_context_type a func_name name = elim (find_index (get_func_name func_name) a.context_map) [
  | none ↦ some operation_not_found
  | some i ↦ do
    table ← get_elem? a.context_tables i
    some (elim (find_field name table) [ none ↦ field_not_found | some f ↦ found f ])
]

-- `getContextTable` by the name of the handler that an `InitOp` leads to.
unfoldable pub get_init_table : Analysis → HandlerFullName → Option TableT
get_init_table a name = get_context_table a (mangle name)

-- `getContextAsStruct`: the name and the types of the members, in LLVM's order.
unfoldable pub get_context_as_struct :
    (TableT → List (Text × Field)) → Analysis → Text → Option (Text × List FieldType)
get_context_as_struct iterate a func_name = do
  table ← get_function_table a func_name
  some (
    (b'_' ∷ b'_' ∷ b'c' ∷ b't' ∷ b'x' ∷ b'_' ∷ []) ++ get_func_name func_name,
    map (λ p. p.1.type) (iterate table),
  )
