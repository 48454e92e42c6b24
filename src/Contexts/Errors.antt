-- ===== src/Contexts/Errors.antt =====
-- The analysis emits no error where the references agree on the types.
use alkali.Prelude.{
  ℕ, suc, ◌≡◌, refl, sym, ◌∙◌, subst, true, false, List, [], ◌∷◌, ◌++◌, some, get_elem?, arith,
  Bool-cases, inl, inr, ◌⊎◌,
}
use alkali.Lang.Token.{Text}
use alkali.Lang.Lexer.Chars.{same_text}
use alkali.Contexts.{
  FieldType, any_type, is_any, same_type, context_type, buffer_type, integer_type, struct_type,
  other_type, Field, TableT, find_field, resolve, mismatch, set_type, Build, Ref, Analysis,
  add_refs, add_ref, add_order, add_orders, context_bufferization,
}
use alkali.Contexts.Texts.{same_text-eq}
use alkali.Contexts.Refs.{with_new, with_old, with_errors, add_ref-cases}
use alkali.Contexts.Resolve.{resolve-old}
use alkali.Contexts.Tables.{fold_refs, with_component, add_order-parts, empty}

same_type_refl : (t : FieldType) → same_type t t ≡ true
unfolding same_type
same_type_refl any_type = refl
same_type_refl context_type = refl
same_type_refl buffer_type = refl
same_type_refl (integer_type w) = ground arith
same_type_refl (struct_type n) = ground arith
same_type_refl (other_type n) = ground arith

any-is_any : (t : FieldType) → t ≡ any_type → is_any t ≡ true
unfolding is_any
any-is_any t e = subst (λ x. is_any x ≡ true) (sym e) refl

-- A type that is not known, or the one that all agree on.
abbrev Expected : FieldType → FieldType → Type 0
Expected want t = (t ≡ any_type) ⊎ (t ≡ want)

module _ (want : Text → FieldType) where
  abbrev AllExpected : TableT → Type 0
  AllExpected [] = Unit
  AllExpected (x ∷ t) = Expected (want x.0) x.1.type × AllExpected t

  find_field-Expected :
      (name : Text) (f : Field) (t : TableT)
      → AllExpected t
      → find_field name t ≡ some f
      → Expected (want name) f.type
  unfolding find_field
  find_field-Expected name f [] a h = absurd (cc h)
  find_field-Expected name f ((n, g) ∷ t) (e, a) h = elim (Bool-cases (same_text n name)) [
    | inl s ↦
        let eq : find_field name ((n, g) ∷ t) ≡ some g = rw (s, find_field) in
        let q = same_text-eq n name s in
        let r : g ≡ f = cc (eq, h) in
        elim e [ inl d ↦ inl (cc (d, r)) | inr d ↦ inr (cc (d, r, q)) ]
    | inr s ↦
        let eq : find_field name ((n, g) ∷ t) ≡ find_field name t = rw (s, find_field) in
        find_field-Expected name f t a (sym eq ∙ h)
  ]

  append-AllExpected :
      (t : TableT) (n : Text) (f : Field)
      → AllExpected t
      → Expected (want n) f.type
      → AllExpected (t ++ ((n, f) ∷ []))
  append-AllExpected [] n f a e = (e, tt)
  append-AllExpected (x ∷ t) n f (d, a) e = (d, append-AllExpected t n f a e)

  set_type-AllExpected :
      (name : Text) (type : FieldType) (t : TableT)
      → AllExpected t
      → Expected (want name) type
      → AllExpected (set_type name type t)
  unfolding set_type
  set_type-AllExpected name type [] a e = tt
  set_type-AllExpected name type ((n, f) ∷ t) (d, a) e = elim (Bool-cases (same_text n name)) [
    | inl s ↦
        let eq : set_type name type ((n, f) ∷ t)
            ≡ (n, record { index = f.index; type = type }) ∷ t =
          rw (s, set_type) in
        subst AllExpected (sym eq)
          (subst (λ x. Expected (want x) type) (sym (same_text-eq n name s)) e, a)
    | inr s ↦
        let eq : set_type name type ((n, f) ∷ t) ≡ (n, f) ∷ set_type name type t =
          rw (s, set_type) in
        subst AllExpected (sym eq) (d, set_type-AllExpected name type t a e)
  ]

  -- Two expected types do not mismatch, and what remains is expected.
  mismatch-Expected :
      (w old new : FieldType) → Expected w old → Expected w new → mismatch old new ≡ false
  unfolding mismatch
  mismatch-Expected w old new (inl d) e = ground (arith, any-is_any old d)
  mismatch-Expected w old new (inr d) (inl e) = ground (arith, any-is_any new e)
  mismatch-Expected w old new (inr d) (inr e) =
      let same : same_type old new ≡ true =
        subst (λ x. same_type old x ≡ true) (d ∙ sym e) (same_type_refl old) in
      ground (arith, same)

  resolve-Expected :
      (w old new : FieldType) → Expected w old → Expected w new → Expected w (resolve old new)
  unfolding resolve is_any
  resolve-Expected w old new (inl d) e = subst (λ x. Expected w (resolve x new)) (sym d) e
  resolve-Expected w old new (inr d) e = elim (resolve-old old new) [
    | inl c ↦ subst (λ x. Expected w (resolve x new)) (sym c) e
    | inr c ↦ inr (c ∙ d)
  ]

  errors-same :
      (name : Text) (type : FieldType) (b : Build) (old : FieldType)
      → mismatch old type ≡ false
      → with_errors name type b old ≡ b.errors
  unfolding with_errors
  errors-same name type b old h = rw (h, with_errors)

  Calm : Build → Type 0
  Calm b = (b.errors ≡ []) × AllExpected b.table

  add_ref-Calm : (r : Ref) (b : Build) → Expected (want r.0) r.1 → Calm b → Calm (add_ref r b)
  unfolding Calm with_new with_old with_errors
  add_ref-Calm (name, type) b e (q, a) = elim (add_ref-cases name type b) [
    | inl (n, s) ↦
        subst Calm (sym s)
          (q, append-AllExpected b.table name (record { index = b.ctr; type = type }) a e)
    | inr (f, n, s) ↦
        let d = find_field-Expected name f b.table a n in
        subst Calm (sym s) (
          errors-same name type b f.type (mismatch-Expected (want name) f.type type d e) ∙ q,
          set_type-AllExpected name (resolve f.type type) b.table a
              (resolve-Expected (want name) f.type type d e),
        )
  ]

  add_refs-Calm :
      (rs : List Ref) (b : Build)
      → ((i : ℕ) (r : Ref) → get_elem? rs i ≡ some r → Expected (want r.0) r.1)
      → Calm b
      → Calm (add_refs rs b)
  unfolding add_refs
  add_refs-Calm [] b e c = c
  add_refs-Calm (r ∷ rs) b e c =
      add_refs-Calm rs (add_ref r b) (λ i. e (suc i)) (add_ref-Calm r b (e 0 r refl) c)

  module _ (sym_name : ℕ → Text) (refs : ℕ → List Ref)
      (agree : (h i : ℕ) (r : Ref) → get_elem? (refs h) i ≡ some r → Expected (want r.0) r.1) where
    fold_refs-Calm : (order : List ℕ) (b : Build) → Calm b → Calm (fold_refs sym_name refs order b)
    unfolding fold_refs
    fold_refs-Calm [] b c = c
    fold_refs-Calm (h ∷ order) b c =
        fold_refs-Calm order (add_refs (refs h) b) (add_refs-Calm (refs h) b (agree h) c)

    add_orders-errors :
        (orders : List (List ℕ)) (a : Analysis)
        → a.errors ≡ []
        → (add_orders sym_name refs orders a).errors ≡ []
    unfolding add_orders with_component Calm
    add_orders-errors [] a q = q
    add_orders-errors (order ∷ orders) a q =
        add_orders-errors orders (add_order sym_name refs order a) (
          subst (λ x. x.errors ≡ []) (sym (add_order-parts sym_name refs order a))
            (fold_refs-Calm order (empty a.errors) (q, tt)).0)

-- Where all references to a field that have a known type have the same, the analysis emits no error.
pub context_bufferization-no_errors :
    (want : Text → FieldType) (sym_name : ℕ → Text) (refs : ℕ → List Ref) (orders : List (List ℕ))
    → ((h i : ℕ) (r : Ref) → get_elem? (refs h) i ≡ some r → (r.1 ≡ any_type) ⊎ (r.1 ≡ want r.0))
    → (context_bufferization sym_name refs orders).errors ≡ []
unfolding context_bufferization
context_bufferization-no_errors want sym_name refs orders agree =
    add_orders-errors want sym_name refs agree orders
      (record { context_tables = []; context_map = []; errors = [] }) refl
