-- ===== src/Contexts/Structs.antt =====
-- lib/ep2/CollectHeaderPass.cpp: the structs of the contexts. LLVM's types, the conversions to them and
-- the order in which it iterates over a table are parameters.
pub mod Indices
pub mod Members
use alkali.Prelude.{
  ℕ, suc, true, false, List, [], ◌∷◌, ◌++◌, Option, none, some, ◌>>=◌, length, set, replicate, ltb,
}
use alkali.Lang.Token.{Text}
use alkali.Contexts.{FieldType, any_type, buffer_type, struct_type, integer_type, Field, TableT}

-- `contextTypes`, where a type is null at first, and what is put into `typeBitWidths`.
pub record Collected (L : Type 0) : Type 0 where
  pub context_types : List (Option L)
  pub type_bit_widths : List ℕ

module _ {L : Type 0} (buf_type : L) (make_llvm_struct convert_integer : ℕ → L) where
  -- The type of a member; `none` is the failed assertion that it is an integer.
  unfoldable pub member_type : FieldType → Option L
  member_type buffer_type = some buf_type
  member_type (struct_type n) = some (make_llvm_struct n)
  member_type (integer_type w) = some (convert_integer w)
  member_type _ = none

  unfoldable pub bit_widths : FieldType → List ℕ
  bit_widths (integer_type w) = w ∷ []
  bit_widths _ = []

  -- The loop over the fields; `none` is also a write out of bounds.
  unfoldable pub collect_fields : List (Text × Field) → Collected L → Option (Collected L)
  unfolding member_type bit_widths
  collect_fields [] c = some c
  collect_fields ((_, f) ∷ fs) c = do
    type ← member_type f.type
    elim (ltb f.index (length c.context_types)) [
      | false ↦ none
      | true ↦ collect_fields fs (record {
        context_types = set c.context_types f.index (some type);
        type_bit_widths = c.type_bit_widths ++ bit_widths f.type;
      })
    ]

  module _ (iterate : TableT → List (Text × Field)) where
    unfoldable pub collect_context : TableT → List ℕ → Option (Collected L)
    unfolding collect_fields
    collect_context table widths =
        collect_fields (iterate table)
          (record { context_types = replicate (length table) none; type_bit_widths = widths })

    -- The loop over the tables, with `ctx_id`, from which the name of the struct is made.
    unfoldable pub collect_contexts :
        ℕ → List TableT → List ℕ → Option (List (ℕ × List (Option L)) × List ℕ)
    unfolding collect_context
    collect_contexts ctx_id [] widths = some ([], widths)
    collect_contexts ctx_id (table ∷ tables) widths = do
      c ← collect_context table widths
      r ← collect_contexts (suc ctx_id) tables c.type_bit_widths
      some ((ctx_id, c.context_types) ∷ r.0, r.1)
