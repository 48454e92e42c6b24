-- ===== src/Contexts/Resolve.antt =====
-- What a further reference does to the type of a field.
use alkali.Prelude.{
  ◌≡◌, refl, true, ◌||◌, List, [], ◌∷◌, ◌++◌, some, arith, Bool-cases, inl, inr, ◌⊎◌,
}
use alkali.Lang.Token.{Text}
use alkali.Contexts.{
  FieldType, any_type, is_any, same_type, Field, find_field, resolve, mismatch, Build, Ref,
}
use alkali.Contexts.Fields.{any_text, same_type-eq}

pub is_any-eq : (t : FieldType) → is_any t ≡ true → t ≡ any_type
unfolding is_any
is_any-eq t h =
    elim t as (λ k. is_any k ≡ true → k ≡ any_type) [
      | any_type ↦ λ _. refl
      | _ ↦ λ q. absurd (cc q)
    ]
      h

pub any_text-append :
    (ts us : List Text) (s : Text) → any_text (ts ++ us) s ≡ (any_text ts s || any_text us s)
unfolding any_text
any_text-append [] us s = refl
any_text-append (t ∷ ts) us s = ground (arith, any_text-append ts us s)

-- The type agrees with a field's, or there is a reason that it does not.
abbrev pub Agrees : Ref → FieldType → List Text → Type 0
Agrees r type errors = (r.1 ≡ any_type) ⊎ ((type ≡ r.1) ⊎ (any_text errors r.0 ≡ true))

abbrev pub Typed : Ref → Build → Type 0
Typed r b = (f : Field) × (find_field r.0 b.table ≡ some f) × Agrees r f.type b.errors

pub resolve-new :
    (old new : FieldType) → (new ≡ any_type) ⊎ ((resolve old new ≡ new) ⊎ (mismatch old new ≡ true))
unfolding resolve mismatch
resolve-new old new = elim (Bool-cases (is_any old)) [
  | inl e ↦ inr (inl (rw (e, resolve)))
  | inr e ↦ elim (Bool-cases (is_any new)) [
    | inl d ↦ inl (is_any-eq new d)
    | inr d ↦ elim (Bool-cases (same_type old new)) [
      | inl c ↦ inr (inl (rw (e, resolve) (same_type-eq old new c)))
      | inr c ↦ inr (inr (rw (e, d, c, mismatch)))
    ]
  ]
]

pub resolve-old : (old new : FieldType) → (old ≡ any_type) ⊎ (resolve old new ≡ old)
unfolding resolve
resolve-old old new = elim (Bool-cases (is_any old)) [
  | inl e ↦ inl (is_any-eq old e)
  | inr e ↦ inr (rw (e, resolve))
]
