-- ===== src/Contexts/Lookups.antt =====
-- What the lookups of a component's handlers give.
use alkali.Prelude.{
  ℕ, ◌≡◌, refl, true, false, List, ◌∷◌, ◌++◌, some, get_elem?, inl, inr, none, Option, sym, ◌∙◌,
  some-injective,
}
use alkali.Lang.Token.{Text}
use alkali.Handlers.Maps.{any_of}
use alkali.Contexts.{
  Ref, Field, TypeLookup, found, field_not_found, starts_with, contains, event_prefix,
  get_func_name, get_context_table, get_function_table, get_context_type, context_bufferization,
  find_field,
}
use alkali.Contexts.Fields.{Numbered, IsTable}
use alkali.Contexts.Resolve.{Agrees}
use alkali.Contexts.Names.{named_in, named-any_of}
use alkali.Contexts.Tables.{
  Has, start, built, whole, whole-Has, whole-errors, empty, fold_refs-Typed_new, fold_refs-IsTable,
}

-- The prefix of an event's function is cut off.
pub get_func_name-event : (s : Text) → get_func_name (event_prefix ++ s) ≡ s
unfolding get_func_name contains starts_with
get_func_name-event s = refl

field_lookup : Option Field → TypeLookup
field_lookup o = elim o [ none ↦ field_not_found | some f ↦ found f ]

found-only : {f : Field} (o : Option Field) → field_lookup o ≡ found f → o ≡ some f
unfolding field_lookup
found-only none e = absurd (cc e)
found-only (some g) e = cc e

module _ (sym_name : ℕ → Text) (refs : ℕ → List Ref) (before after : List (List ℕ))
    (order : List ℕ) where
  -- The table of the component is what the analysis finds for each of its handlers, with its fields
  -- in the order of their indices.
  pub component_table :
      (h : ℕ) (func_name : Text)
      → any_of order h ≡ true
      → named_in sym_name before (sym_name h) ≡ false
      → get_func_name func_name ≡ sym_name h
      → (get_function_table
            (context_bufferization sym_name refs (before ++ (order ∷ after)))
            func_name
          ≡ some (built sym_name refs before after order).table)
        × Numbered 0 (built sym_name refs before after order).table
  unfolding get_function_table get_context_table whole Has built IsTable
  component_table h func_name own free name =
      let (i, t) =
        whole-Has sym_name refs before after order (sym_name h) free
          (named-any_of sym_name order h own) in
      let (v, _) =
        fold_refs-IsTable sym_name refs order
          (empty (start sym_name refs before after order).errors) (tt, refl) in
      (rw (name, i, get_function_table, get_context_table) t, v)

  -- For every reference in a handler of a component that is the first with the handler's name,
  -- getContextType finds the field, by any name of a function that getFuncName turns into the handler's;
  -- the field has the type of the reference, unless that is not known or an error was emitted for the
  -- field.
  pub get_context_type-ref :
      (h i : ℕ) (r : Ref) (func_name : Text)
      → any_of order h ≡ true
      → get_elem? (refs h) i ≡ some r
      → named_in sym_name before (sym_name h) ≡ false
      → get_func_name func_name ≡ sym_name h
      → (f : Field) × (get_context_type
            (context_bufferization sym_name refs (before ++ (order ∷ after)))
            func_name
            r.0
          ≡ some (found f))
        × Agrees r f.type (context_bufferization sym_name refs (before ++ (order ∷ after))).errors
  unfolding get_context_type whole Has built
  get_context_type-ref h i r func_name own ref free name =
      let (at_index, at_table) =
        whole-Has sym_name refs before after order (sym_name h) free
          (named-any_of sym_name order h own) in
      let (f, e, a) =
        fold_refs-Typed_new sym_name refs order h i r
          (empty (start sym_name refs before after order).errors) own ref in
      (
        f,
        rw (name, at_index, at_table, e, get_context_type),
        elim a [
          | inl d ↦ inl d
          | inr (inl d) ↦ inr (inl d)
          | inr (inr d) ↦ inr (inr (whole-errors sym_name refs before after order r.0 d))
        ],
      )

  -- What is found is in the table of the component.
  pub find_field-found :
      (h : ℕ) (name : Text) (f : Field) (func_name : Text)
      → any_of order h ≡ true
      → named_in sym_name before (sym_name h) ≡ false
      → get_func_name func_name ≡ sym_name h
      → get_context_type
          (context_bufferization sym_name refs (before ++ (order ∷ after)))
          func_name
          name
        ≡ some (found f)
      → find_field name (built sym_name refs before after order).table ≡ some f
  unfolding get_context_type whole Has field_lookup
  find_field-found h name f func_name own free same looked =
      let (at_index, at_table) =
        whole-Has sym_name refs before after order (sym_name h) free
          (named-any_of sym_name order h own) in
      let parts : get_context_type (context_bufferization sym_name refs (before ++ (order ∷ after)))
            func_name name
          ≡ some (field_lookup (find_field name (built sym_name refs before after order).table)) =
        rw (same, at_index, at_table, get_context_type, field_lookup) in
      found-only (find_field name (built sym_name refs before after order).table)
        (some-injective (sym parts ∙ looked))
