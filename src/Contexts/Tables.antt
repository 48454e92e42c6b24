-- ===== src/Contexts/Tables.antt =====
-- The tables of the components, and what a handler finds in its own.
use alkali.Prelude.{
  ℕ, zero, suc, ◌≡◌, refl, sym, ap, subst, ◌∙◌, true, false, List, [], ◌∷◌, ◌++◌, none, some, arith,
  length, get_elem?, inl, inr,
}
use alkali.Lang.Token.{Text}
use alkali.Handlers.Maps.{any_of}
use alkali.Handlers.Sets.{any_of-cons}
use alkali.Contexts.{
  Build, Ref, TableT, Analysis, add_refs, add_functions, add_order, add_orders,
  context_bufferization, find_index,
}
use alkali.Contexts.Fields.{any_text, IsTable, add_refs-IsTable}
use alkali.Contexts.Resolve.{Typed}
use alkali.Contexts.Refs.{add_refs-Typed, add_refs-Typed_new, add_refs-errors}
use alkali.Contexts.Names.{
  IndexMap, named, named_in, add_names, add_names-kept, add_names-new, add_names-other,
}

abbrev pub empty : List Text → Build
empty errors = record { table = []; ctr = 0; errors = errors }

get_elem?-kept :
    {A : Type 0} (xs : List A) (y : A) (i : ℕ) (x : A)
    → get_elem? xs i ≡ some x
    → get_elem? (xs ++ (y ∷ [])) i ≡ some x
get_elem?-kept [] y i x h = absurd (cc h)
get_elem?-kept (z ∷ xs) y zero x h = h
get_elem?-kept (z ∷ xs) y (suc i) x h = get_elem?-kept xs y i x h

get_elem?-last :
    {A : Type 0} (xs : List A) (y : A) → get_elem? (xs ++ (y ∷ [])) (length xs) ≡ some y
get_elem?-last [] y = refl
get_elem?-last (x ∷ xs) y = get_elem?-last xs y

module _ (sym_name : ℕ → Text) (refs : ℕ → List Ref) where
  -- The references of an order in the table.
  unfoldable pub fold_refs : List ℕ → Build → Build
  fold_refs [] b = b
  fold_refs (func ∷ order) b = fold_refs order (add_refs (refs func) b)

  pub fold_refs-IsTable : (order : List ℕ) (b : Build) → IsTable b → IsTable (fold_refs order b)
  unfolding fold_refs
  fold_refs-IsTable [] b v = v
  fold_refs-IsTable (func ∷ order) b v =
      fold_refs-IsTable order (add_refs (refs func) b) (add_refs-IsTable (refs func) b v)

  fold_refs-Typed : (order : List ℕ) (r : Ref) (b : Build) → Typed r b → Typed r (fold_refs order b)
  unfolding fold_refs
  fold_refs-Typed [] r b v = v
  fold_refs-Typed (func ∷ order) r b v =
      fold_refs-Typed order r (add_refs (refs func) b) (add_refs-Typed (refs func) r b v)

  pub fold_refs-Typed_new :
      (order : List ℕ) (h i : ℕ) (r : Ref) (b : Build)
      → any_of order h ≡ true
      → get_elem? (refs h) i ≡ some r
      → Typed r (fold_refs order b)
  unfolding fold_refs any_of
  fold_refs-Typed_new [] h i r b e g = absurd (cc e)
  fold_refs-Typed_new (func ∷ order) h i r b e g = elim (any_of-cons func h order e) [
    | inl d ↦ fold_refs-Typed order r (add_refs (refs func) b) (
        add_refs-Typed_new (refs func) i r b (subst (λ x. get_elem? (refs x) i ≡ some r) (sym d) g))
    | inr d ↦ fold_refs-Typed_new order h i r (add_refs (refs func) b) d g
  ]

  add_functions-parts :
      (k : ℕ) (order : List ℕ) (b : Build) (m : IndexMap)
      → add_functions sym_name refs k order b m ≡ (fold_refs order b, add_names sym_name k order m)
  unfolding add_functions fold_refs add_names
  add_functions-parts k [] b m = refl
  add_functions-parts k (func ∷ order) b m = add_functions-parts k order _ _

  fold_refs-errors :
      (order : List ℕ) (b : Build) (s : Text)
      → any_text b.errors s ≡ true
      → any_text (fold_refs order b).errors s ≡ true
  unfolding fold_refs
  fold_refs-errors [] b s h = h
  fold_refs-errors (func ∷ order) b s h =
      fold_refs-errors order (add_refs (refs func) b) s (add_refs-errors (refs func) b s h)

  -- The analysis with one more component.
  unfoldable pub with_component : List ℕ → Analysis → Analysis
  with_component order a = record {
    context_tables = a.context_tables ++ ((fold_refs order (empty a.errors)).table ∷ []);
    context_map = add_names sym_name (length a.context_tables) order a.context_map;
    errors = (fold_refs order (empty a.errors)).errors;
  }

  pub add_order-parts :
      (order : List ℕ) (a : Analysis) → add_order sym_name refs order a ≡ with_component order a
  unfolding add_order with_component
  add_order-parts order a =
      let e = add_functions-parts (length a.context_tables) order (empty a.errors) a.context_map in
      simp (e)

  add_orders-append :
      (before after : List (List ℕ)) (a : Analysis)
      → add_orders sym_name refs (before ++ after) a
        ≡ add_orders sym_name refs after (add_orders sym_name refs before a)
  unfolding add_orders
  add_orders-append [] after a = refl
  add_orders-append (order ∷ before) after a =
      add_orders-append before after (add_order sym_name refs order a)

  add_orders-free :
      (orders : List (List ℕ)) (a : Analysis) (s : Text)
      → find_index s a.context_map ≡ none
      → named_in sym_name orders s ≡ false
      → find_index s (add_orders sym_name refs orders a).context_map ≡ none
  unfolding add_orders named_in with_component
  add_orders-free [] a s h e = h
  add_orders-free (order ∷ orders) a s h e =
      add_orders-free orders (add_order sym_name refs order a) s
        (subst (λ x. find_index s x.context_map ≡ none) (sym (add_order-parts order a))
          (add_names-other sym_name (length a.context_tables) order a.context_map s h
            (ground (arith, e))))
        (ground (arith, e))

  -- What a later component leaves as it is.
  unfoldable pub Has : Text → ℕ → TableT → Analysis → Type 0
  Has s k t a = (find_index s a.context_map ≡ some k) × (get_elem? a.context_tables k ≡ some t)

  add_orders-Has :
      (orders : List (List ℕ)) (a : Analysis) (s : Text) (k : ℕ) (t : TableT)
      → Has s k t a
      → Has s k t (add_orders sym_name refs orders a)
  unfolding add_orders with_component Has
  add_orders-Has [] a s k t h = h
  add_orders-Has (order ∷ orders) a s k t (h, g) =
      add_orders-Has orders (add_order sym_name refs order a) s k t (
        subst (Has s k t) (sym (add_order-parts order a)) (
          add_names-kept sym_name (length a.context_tables) k order a.context_map s h,
          get_elem?-kept a.context_tables (fold_refs order (empty a.errors)).table k t g,
        ))

  add_orders-errors :
      (orders : List (List ℕ)) (a : Analysis) (s : Text)
      → any_text a.errors s ≡ true
      → any_text (add_orders sym_name refs orders a).errors s ≡ true
  unfolding add_orders with_component
  add_orders-errors [] a s h = h
  add_orders-errors (order ∷ orders) a s h =
      add_orders-errors orders (add_order sym_name refs order a) s (
        subst (λ x. any_text x.errors s ≡ true) (sym (add_order-parts order a))
          (fold_refs-errors order (empty a.errors) s h))

  module _ (before after : List (List ℕ)) (order : List ℕ) where
    -- The analysis before the component of the order, and its table.
    unfoldable pub start : Analysis
    start = context_bufferization sym_name refs before

    unfoldable pub built : Build
    built = fold_refs order (empty start.errors)

    unfoldable pub whole : Analysis
    whole = context_bufferization sym_name refs (before ++ (order ∷ after))

    whole-parts : whole ≡ add_orders sym_name refs after (with_component order start)
    unfolding whole start context_bufferization add_orders
    whole-parts =
        let e =
          add_orders-append before (order ∷ after)
            (record { context_tables = []; context_map = []; errors = [] }) in
        e ∙ ap (add_orders sym_name refs after) (add_order-parts order start)

    pub whole-Has :
        (s : Text)
        → named_in sym_name before s ≡ false
        → named sym_name order s ≡ true
        → Has s (length start.context_tables) built.table whole
    unfolding Has start built with_component context_bufferization
    whole-Has s free own =
        subst (Has s (length start.context_tables) built.table) (sym whole-parts) (
          add_orders-Has after (with_component order start) s (length start.context_tables)
            built.table
            (
              add_names-new sym_name (length start.context_tables) order start.context_map s
                  (add_orders-free before
                    (record { context_tables = []; context_map = []; errors = [] }) s refl free)
                  own,
              get_elem?-last start.context_tables built.table,
            ))

    pub whole-errors : (s : Text) → any_text built.errors s ≡ true → any_text whole.errors s ≡ true
    unfolding built with_component
    whole-errors s h =
        subst (λ x. any_text x.errors s ≡ true) (sym whole-parts)
          (add_orders-errors after (with_component order start) s h)
