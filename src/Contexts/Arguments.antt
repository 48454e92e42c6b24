-- ===== src/Contexts/Arguments.antt =====
-- lib/ep2/ContextToArgumentPass.cpp: the context as arguments, of the handlers and of the events that
-- call them. The order in which LLVM iterates over a table is a parameter.
pub mod Types
pub mod Match
pub mod Edges
use alkali.Prelude.{
  ℕ, Bool, true, false, not, ◌&&◌, ◌||◌, List, [], ◌∷◌, ◌++◌, Option, none, some, ◌>>=◌, map,
  if◌then◌else◌,
}
use alkali.Lang.Token.{Text}
use alkali.Contexts.{
  FieldType, context_type, Field, TableT, Analysis, get_function_table, find_field,
}

-- `isa<ContextType>`.
unfoldable pub is_context : FieldType → Bool
is_context context_type = true
is_context _ = false

module _ {A : Type 0} (type : A → FieldType) where
  unfoldable pub has_context : List A → Bool
  unfolding is_context
  has_context [] = false
  has_context (x ∷ xs) = is_context (type x) || has_context xs

  unfoldable pub erase_context : List A → List A
  unfolding is_context
  erase_context [] = []
  erase_context (x ∷ xs) =
      let rest = erase_context xs in if is_context (type x) then xs else x ∷ rest

-- An argument of a function with its `ep2.context_name`, empty where it has none.
pub record Argument : Type 0 where
  pub context_name : Text
  pub type : FieldType

abbrev pub argument_type : Argument → FieldType
argument_type x = x.type

abbrev pub argument_name : Argument → Text
argument_name x = x.context_name

unfoldable pub plain : List FieldType → List Argument
plain [] = []
plain (t ∷ ts) = record { context_name = []; type = t } ∷ plain ts

unfoldable pub field_arguments : List (Text × Field) → List Argument
field_arguments [] = []
field_arguments ((name, f) ∷ fs) =
    record { context_name = name; type = f.type } ∷ field_arguments fs

-- An operand of an `InitOp`: one that was there, known by a number, or the load of a field.
pub data Operand : Type 0 where
  operand : ℕ → FieldType → Operand
  load : Text → FieldType → Operand

unfoldable pub operand_type : Operand → FieldType
operand_type (operand _ t) = t
operand_type (load _ t) = t

unfoldable pub loads : List (Text × Field) → List Operand
loads [] = []
loads ((name, f) ∷ fs) = load name f.type ∷ loads fs

unfoldable pub field_names : List (Text × Field) → List Text
field_names [] = []
field_names ((name, _) ∷ fs) = name ∷ field_names fs

unfoldable pub no_names : List Operand → List Text
no_names [] = []
no_names (_ ∷ xs) = [] ∷ no_names xs

-- Whether the last event of a chain goes without its context.
unfoldable pub no_context : Bool → Bool → Bool → Bool
no_context keep_last is_extern extern_forward = not keep_last && (is_extern && not extern_forward)

-- What the pass reads of a function.
pub record Function : Type 0 where
  pub name : Text
  pub arguments : List FieldType
  pub is_extern : Bool
  pub extern_forward : Bool
  pub has_predecessor : Bool

module _ (iterate : TableT → List (Text × Field)) (analysis : Analysis) where
  unfoldable pub insert_context_to_arguments : Text → List Argument → Option (List Argument)
  unfolding has_context field_arguments
  insert_context_to_arguments name args = elim (has_context argument_type args) [
    | false ↦ some args
    | true ↦ do
      table ← get_function_table analysis name
      some (args ++ field_arguments (iterate table))
  ]

  -- The references at the top of the function, by name; the first argument that is a context is what
  -- they refer to.
  unfoldable pub insert_context_refs : Text → List Argument → Option (List (Text × FieldType))
  unfolding has_context
  insert_context_refs name args = elim (has_context argument_type args) [
    | false ↦ some []
    | true ↦ do
      table ← get_function_table analysis name
      some (map (λ p. (p.0, p.1.type)) (iterate table))
  ]

  -- The new operands, with the attribute `context_names`; an event without a context is not rewritten.
  unfoldable pub rewrite_event_init :
      Text → Bool → List Operand → Option (List Operand × Option (List Text))
  unfolding has_context erase_context operand_type loads field_names no_names
  rewrite_event_init name no_context args = elim (has_context operand_type args) [
    | false ↦ some (args, none)
    | true ↦ do
      table ← get_function_table analysis name
      let arg_list = erase_context operand_type args in
          some (elim no_context [
            | true ↦ (arg_list, some (no_names arg_list))
            | false ↦ (
              arg_list ++ loads (iterate table),
              some (no_names arg_list ++ field_names (iterate table)),
            )
          ])
  ]

  -- `runOnFunction` on the arguments of the function; `none` is a failed assertion.
  unfoldable pub run_on_function : Function → Option (List Argument)
  unfolding plain erase_context insert_context_to_arguments insert_context_refs
  run_on_function func = elim func.is_extern [
    | true ↦ some (plain func.arguments)
    | false ↦ do
      args ← elim (func.has_predecessor || func.extern_forward) [
        | true ↦ insert_context_to_arguments func.name (plain func.arguments)
        | false ↦ some (plain func.arguments)
      ]
      _ ← insert_context_refs func.name args
      some (erase_context argument_type args)
  ]

  -- The rewrite of an event that `lookupHandler` resolves to `target`, in the walk of a function that
  -- the pass does not skip as external.
  unfoldable pub run_on_event :
      Bool → Function → Function → List Operand → Option (List Operand × Option (List Text))
  run_on_event keep_last func target args =
      rewrite_event_init func.name (no_context keep_last target.is_extern target.extern_forward)
        args
