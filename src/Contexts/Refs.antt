-- ===== src/Contexts/Refs.antt =====
-- What a reference has in the table: a field of its type, unless the type is not known or an error was
-- emitted.
use alkali.Prelude.{
  suc, ◌≡◌, refl, sym, subst, ◌∙◌, true, false, List, [], ◌∷◌, ◌++◌, Option, none, some, zero,
  get_elem?, ℕ, arith, Bool-cases, inl, inr, ◌⊎◌, some-injective,
}
use alkali.Lang.Token.{Text}
use alkali.Lang.Lexer.Chars.{same_text}
use alkali.Contexts.{
  FieldType, Field, find_field, resolve, mismatch, set_type, Build, Ref, add_ref, add_refs,
}
use alkali.Contexts.Texts.{same_text_refl, same_text-eq}
use alkali.Contexts.Fields.{
  any_text, find_field-append, find_field-set_type, find_field-set_type_other,
}
use alkali.Contexts.Resolve.{Typed, any_text-append, resolve-new, resolve-old}

module _ (name : Text) (type : FieldType) (b : Build) where
  -- The two branches of the body.
  unfoldable pub with_new : Build
  with_new = record {
    table = b.table ++ ((name, record { index = b.ctr; type = type }) ∷ []);
    ctr = suc b.ctr;
    errors = b.errors;
  }

  unfoldable pub with_errors : FieldType → List Text
  with_errors old = elim (mismatch old type) [ true ↦ b.errors ++ (name ∷ []) | false ↦ b.errors ]

  unfoldable pub with_old : Field → Build
  with_old f = record {
    table = set_type name (resolve f.type type) b.table;
    ctr = b.ctr;
    errors = with_errors f.type;
  }

  pub add_ref-cases :
      ((find_field name b.table ≡ none) × (add_ref (name, type) b ≡ with_new))
      ⊎ ((f : Field) × (find_field name b.table ≡ some f) × (add_ref (name, type) b ≡ with_old f))
  unfolding add_ref with_new with_old with_errors
  add_ref-cases = go (find_field name b.table) refl
    where
      go :
          (o : Option Field)
          → find_field name b.table ≡ o
          → ((find_field name b.table ≡ none) × (add_ref (name, type) b ≡ with_new))
            ⊎ ((f : Field) × (find_field name b.table ≡ some f)
                × (add_ref (name, type) b ≡ with_old f))
      go none e = inl (e, simp (e, add_ref))
      go (some f) e = inr (f, e, simp (e, add_ref, with_old, with_errors))

  errors-kept :
      (old : FieldType) (s : Text)
      → any_text b.errors s ≡ true
      → any_text (with_errors old) s ≡ true
  unfolding with_errors
  errors-kept old s h = ground (arith, any_text-append b.errors (name ∷ []) s, h)

  errors-new : (old : FieldType) → mismatch old type ≡ true → any_text (with_errors old) name ≡ true
  unfolding with_errors any_text
  errors-new old h =
      ground (arith, any_text-append b.errors (name ∷ []) name, h, same_text_refl name)

add_ref-Typed_new : (r : Ref) (b : Build) → Typed r (add_ref r b)
unfolding with_new with_old
add_ref-Typed_new (name, type) b = elim (add_ref-cases name type b) [
  | inl (e, q) ↦
      let f : Field = record { index = b.ctr; type = type } in
      let found : find_field name (b.table ++ ((name, f) ∷ [])) ≡ some f =
        find_field-append name name f b.table ∙ rw (e, same_text_refl name) in
      subst (Typed (name, type)) (sym q) (f, found, inr (inl refl))
  | inr (f, e, q) ↦ subst (Typed (name, type)) (sym q) (
    record { index = f.index; type = resolve f.type type },
    find_field-set_type name (resolve f.type type) f b.table e,
    elim (resolve-new f.type type) [
      | inl d ↦ inl d
      | inr (inl d) ↦ inr (inl d)
      | inr (inr d) ↦ inr (inr (errors-new name type b f.type d))
    ],
  )
]

add_ref-Typed : (r r' : Ref) (b : Build) → Typed r b → Typed r (add_ref r' b)
unfolding with_new with_old
add_ref-Typed (n, t) (name, type) b (g, h, a) = elim (add_ref-cases name type b) [
  | inl (e, q) ↦
      let f : Field = record { index = b.ctr; type = type } in
      let found : find_field n (b.table ++ ((name, f) ∷ [])) ≡ some g =
        find_field-append n name f b.table ∙ rw (h) in
      subst (Typed (n, t)) (sym q) (g, found, a)
  | inr (f, e, q) ↦ subst (Typed (n, t)) (sym q) (again f e (Bool-cases (same_text name n)))
]
  where
    again :
        (f : Field)
        → find_field name b.table ≡ some f
        → (same_text name n ≡ true) ⊎ (same_text name n ≡ false)
        → Typed (n, t) (with_old name type b f)
    again f e (inl s) =
        let eq : name ≡ n = same_text-eq name n s in
        let fg : f ≡ g =
          some-injective (sym e ∙ subst (λ x. find_field x b.table ≡ some g) (sym eq) h) in
        (
          record { index = f.index; type = resolve f.type type },
          subst
              (λ x.
                find_field x (set_type name (resolve f.type type) b.table)
                ≡ some (record { index = f.index; type = resolve f.type type }))
              eq (find_field-set_type name (resolve f.type type) f b.table e),
          elim a [
            | inl d ↦ inl d
            | inr (inl d) ↦ elim (resolve-old f.type type) [
              | inl c ↦ inl (cc (c, d, fg))
              | inr c ↦ inr (inl (cc (c, d, fg)))
            ]
            | inr (inr d) ↦ inr (inr (errors-kept name type b f.type n d))
          ],
        )
    again f e (inr s) = (
      g,
      find_field-set_type_other name n (resolve f.type type) b.table
            (λ q. absurd (cc (s, q, same_text_refl n)))
          ∙ h,
      elim a [
        | inl d ↦ inl d
        | inr (inl d) ↦ inr (inl d)
        | inr (inr d) ↦ inr (inr (errors-kept name type b f.type n d))
      ],
    )

pub add_refs-Typed : (rs : List Ref) (r : Ref) (b : Build) → Typed r b → Typed r (add_refs rs b)
unfolding add_refs
add_refs-Typed [] r b h = h
add_refs-Typed (r' ∷ rs) r b h = add_refs-Typed rs r (add_ref r' b) (add_ref-Typed r r' b h)

pub add_refs-Typed_new :
    (rs : List Ref) (i : ℕ) (r : Ref) (b : Build)
    → get_elem? rs i ≡ some r
    → Typed r (add_refs rs b)
unfolding add_refs
add_refs-Typed_new [] i r b h = absurd (cc h)
add_refs-Typed_new (r' ∷ rs) zero r b h =
    add_refs-Typed rs r (add_ref r' b)
      (subst (λ x. Typed x (add_ref r' b)) (some-injective h) (add_ref-Typed_new r' b))
add_refs-Typed_new (r' ∷ rs) (suc i) r b h = add_refs-Typed_new rs i r (add_ref r' b) h

add_ref-errors :
    (r : Ref) (b : Build) (s : Text)
    → any_text b.errors s ≡ true
    → any_text (add_ref r b).errors s ≡ true
unfolding with_new with_old
add_ref-errors (name, type) b s h = elim (add_ref-cases name type b) [
  | inl (e, q) ↦ subst (λ x. any_text x.errors s ≡ true) (sym q) h
  | inr (f, e, q) ↦
      subst (λ x. any_text x.errors s ≡ true) (sym q) (errors-kept name type b f.type s h)
]

pub add_refs-errors :
    (rs : List Ref) (b : Build) (s : Text)
    → any_text b.errors s ≡ true
    → any_text (add_refs rs b).errors s ≡ true
unfolding add_refs
add_refs-errors [] b s h = h
add_refs-errors (r ∷ rs) b s h = add_refs-errors rs (add_ref r b) s (add_ref-errors r b s h)
