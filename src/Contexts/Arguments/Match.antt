-- ===== src/Contexts/Arguments/Match.antt =====
-- The events of a component fit the handlers that they call, also with the context as arguments.
use alkali.Prelude.{
  ℕ, ◌≡◌, ap, ◌∙◌, sym, Bool, true, false, ◌||◌, List, [], ◌∷◌, ◌++◌, Option, some, map, arith,
  Bool-cases, inl, inr, if◌then◌else◌, none,
}
use alkali.Lang.Token.{Text}
use alkali.Handlers.Maps.{any_of}
use alkali.Contexts.{
  FieldType, Field, TableT, Analysis, Ref, get_func_name, get_function_table, context_bufferization,
}
use alkali.Contexts.Names.{named_in}
use alkali.Contexts.Tables.{built}
use alkali.Contexts.Lookups.{component_table}
use alkali.Contexts.Arguments.{
  has_context, erase_context, Argument, argument_type, argument_name, plain, field_arguments,
  Operand, operand_type, loads, field_names, no_names, no_context, Function,
  insert_context_to_arguments, insert_context_refs, rewrite_event_init, run_on_function,
  run_on_event,
}
use alkali.Contexts.Arguments.Types.{
  erase-names, erase_context-append, erase_context-none, fields-names, fields-types,
  has_context-append, has_context-map, map-append, map-erase_context, no_names-types, plain-types,
  type_itself,
}

-- The operands of the event, the names and the arguments of the handler that it calls, from the
-- operands and the arguments before.
pub Fits : List Operand × Option (List Text) → List Argument → List FieldType → Type 0
Fits event arguments before =
    (map operand_type event.0 ≡ map argument_type arguments)
    × (event.1
        ≡ (if has_context type_itself before then some (map argument_name arguments) else none))

module _ (iterate : TableT → List (Text × Field)) (analysis : Analysis) (keep_last : Bool)
    (caller target : Function) (args : List Operand) (table : TableT)
    (internal : target.is_extern ≡ false)
    (called : (target.has_predecessor || target.extern_forward) ≡ true)
    (same_types : map operand_type args ≡ target.arguments)
    (caller_table : get_function_table analysis caller.name ≡ some table)
    (target_table : get_function_table analysis target.name ≡ some table) where
  operands : List Operand
  operands = erase_context operand_type args ++ loads (iterate table)

  params : List Argument
  params = erase_context argument_type (plain target.arguments) ++ field_arguments (iterate table)

  operands-types : map operand_type operands ≡ map argument_type params
  unfolding operands params
  operands-types =
      let fields = fields-types (iterate table) in
      let left =
        map-append operand_type (erase_context operand_type args) (loads (iterate table)) in
      let right =
        map-append argument_type (erase_context argument_type (plain target.arguments))
          (field_arguments (iterate table)) in
      let l = map-erase_context operand_type args in
      let r = map-erase_context argument_type (plain target.arguments) in
      let p = plain-types target.arguments in cc (fields, left, right, l, r, p, same_types)

  operands-names :
      no_names (erase_context operand_type args) ++ field_names (iterate table)
      ≡ map argument_name params
  unfolding params
  operands-names =
      let fields = fields-names (iterate table) in
      let right =
        map-append argument_name (erase_context argument_type (plain target.arguments))
          (field_arguments (iterate table)) in
      let l = map-erase_context operand_type args in
      let n = no_names-types (erase_context operand_type args) in
      let e = erase-names target.arguments in cc (fields, right, l, n, e, same_types)

  kept : no_context keep_last target.is_extern target.extern_forward ≡ false
  unfolding no_context
  kept = ground (arith, internal)

  with_context :
      has_context type_itself target.arguments ≡ true
      → (run_on_event iterate analysis keep_last caller target args
          ≡ some (operands, some (map argument_name params)))
        × (run_on_function iterate analysis target ≡ some params)
  unfolding run_on_event rewrite_event_init run_on_function insert_context_to_arguments
      insert_context_refs operands params
  with_context h =
      let o : has_context operand_type args ≡ true =
        has_context-map operand_type args ∙ ap (has_context type_itself) same_types ∙ h in
      let p : has_context argument_type (plain target.arguments) ≡ true =
        has_context-map argument_type (plain target.arguments)
        ∙ ap (has_context type_itself) (plain-types target.arguments)
        ∙ h in
      let more =
        has_context-append argument_type (plain target.arguments) (field_arguments (iterate table))
          p in
      let erased =
        erase_context-append argument_type (plain target.arguments)
          (field_arguments (iterate table)) p in
      let inserted : insert_context_to_arguments iterate analysis target.name
            (plain target.arguments)
          ≡ some (plain target.arguments ++ field_arguments (iterate table)) =
        rw (p, target_table, insert_context_to_arguments) in
      let refs : insert_context_refs iterate analysis target.name
            (plain target.arguments ++ field_arguments (iterate table))
          ≡ some (map (λ p. (p.0, p.1.type)) (iterate table)) =
        rw (more, target_table, insert_context_refs) in
      (
        rw (o, caller_table, kept, operands-names, run_on_event, rewrite_event_init, operands),
        rw (internal, called, inserted, refs, erased, run_on_function, params),
      )

  without_context :
      has_context type_itself target.arguments ≡ false
      → (run_on_event iterate analysis keep_last caller target args ≡ some (args, none))
        × (run_on_function iterate analysis target ≡ some (plain target.arguments))
  unfolding run_on_event rewrite_event_init run_on_function insert_context_to_arguments
      insert_context_refs
  without_context h =
      let o : has_context operand_type args ≡ false =
        has_context-map operand_type args ∙ ap (has_context type_itself) same_types ∙ h in
      let p : has_context argument_type (plain target.arguments) ≡ false =
        has_context-map argument_type (plain target.arguments)
        ∙ ap (has_context type_itself) (plain-types target.arguments)
        ∙ h in
      let inserted : insert_context_to_arguments iterate analysis target.name
            (plain target.arguments)
          ≡ some (plain target.arguments) =
        rw (p, insert_context_to_arguments) in
      let refs : insert_context_refs iterate analysis target.name (plain target.arguments)
          ≡ some [] =
        rw (p, insert_context_refs) in
      (
        rw (o, run_on_event, rewrite_event_init),
        rw (
          internal,
          called,
          inserted,
          refs,
          erase_context-none argument_type (plain target.arguments) p,
          run_on_function,
        ),
      )

  fits :
      (event : List Operand × Option (List Text)) × (arguments : List Argument) × (run_on_event
          iterate analysis keep_last caller target args
        ≡ some event)
      × (run_on_function iterate analysis target ≡ some arguments)
      × Fits event arguments target.arguments
  unfolding Fits
  fits = elim (Bool-cases (has_context type_itself target.arguments)) [
    | inl h ↦
        let (e, f) = with_context h in
        ((operands, some (map argument_name params)), params, e, f, (operands-types, rw (h)))
    | inr h ↦
        let (e, f) = without_context h in
        (
          (args, none),
          plain target.arguments,
          e,
          f,
          (same_types ∙ sym (plain-types target.arguments), rw (h)),
        )
  ]

-- Where two handlers are in the order of a component that is the first with their names, and an event
-- whose operands have the types of the arguments of the second, which is not external and has a
-- predecessor or is an external forward, is made in the first, both are still defined after the pass:
-- the types agree again, and the names on the event are those on the arguments, where the handler
-- takes a context.
pub run_on_event-Fits :
    (iterate : TableT → List (Text × Field)) (sym_name : ℕ → Text) (refs : ℕ → List Ref)
    (before after : List (List ℕ)) (order : List ℕ) (h h' : ℕ) (keep_last : Bool)
    (caller target : Function) (args : List Operand)
    → any_of order h ≡ true
    → any_of order h' ≡ true
    → named_in sym_name before (sym_name h) ≡ false
    → named_in sym_name before (sym_name h') ≡ false
    → get_func_name caller.name ≡ sym_name h
    → get_func_name target.name ≡ sym_name h'
    → target.is_extern ≡ false
    → (target.has_predecessor || target.extern_forward) ≡ true
    → map operand_type args ≡ target.arguments
    → (event : List Operand × Option (List Text)) × (arguments : List Argument) × (run_on_event
          iterate
          (context_bufferization sym_name refs (before ++ (order ∷ after)))
          keep_last
          caller
          target
          args
        ≡ some event)
      × (run_on_function iterate
            (context_bufferization sym_name refs (before ++ (order ∷ after)))
            target
          ≡ some arguments)
      × Fits event arguments target.arguments
run_on_event-Fits iterate sym_name refs before after order h h' keep_last caller target args own
      own' free free' name name' internal called same =
    fits iterate (context_bufferization sym_name refs (before ++ (order ∷ after))) keep_last caller
      target args (built sym_name refs before after order).table internal called same
      (component_table sym_name refs before after order h caller.name own free name).0
      (component_table sym_name refs before after order h' target.name own' free' name').0
