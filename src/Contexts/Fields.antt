-- ===== src/Contexts/Fields.antt =====
-- The fields of one table: their indices, and the types that the references give them.
use alkali.Prelude.{
  ℕ, suc, ◌+◌, ◌≡◌, ◌≢◌, refl, sym, ◌∙◌, ap, subst, Bool, true, false, ◌||◌, List, [], ◌∷◌, ◌++◌,
  Option, none, some, length, length-append, arith, Bool-cases, inl, inr,
}
use alkali.Lang.Token.{Text}
use alkali.Lang.Lexer.Chars.{same_text}
use alkali.Contexts.{
  FieldType, any_type, context_type, buffer_type, integer_type, struct_type, other_type, same_type,
  Field, TableT, find_field, resolve, mismatch, set_type, Build, Ref, add_ref, add_refs,
}
use alkali.Contexts.Texts.{same_text-eq, same_text-ne}

unfoldable pub any_text : List Text → Text → Bool
any_text [] s = false
any_text (t ∷ ts) s = same_text t s || any_text ts s

pub same_type-eq : (s t : FieldType) → same_type s t ≡ true → s ≡ t
unfolding same_type
same_type-eq any_type t h =
    elim t as (λ k. same_type any_type k ≡ true → any_type ≡ k) [
      | any_type ↦ λ _. refl
      | _ ↦ λ q. absurd (cc q)
    ]
      h
same_type-eq context_type t h =
    elim t as (λ k. same_type context_type k ≡ true → context_type ≡ k) [
      | context_type ↦ λ _. refl
      | _ ↦ λ q. absurd (cc q)
    ]
      h
same_type-eq buffer_type t h =
    elim t as (λ k. same_type buffer_type k ≡ true → buffer_type ≡ k) [
      | buffer_type ↦ λ _. refl
      | _ ↦ λ q. absurd (cc q)
    ]
      h
same_type-eq (integer_type m) t h =
    elim t as (λ k. same_type (integer_type m) k ≡ true → integer_type m ≡ k) [
      | integer_type n ↦ λ q. ap integer_type (ground (arith, q))
      | _ ↦ λ q. absurd (cc q)
    ]
      h
same_type-eq (struct_type m) t h =
    elim t as (λ k. same_type (struct_type m) k ≡ true → struct_type m ≡ k) [
      | struct_type n ↦ λ q. ap struct_type (ground (arith, q))
      | _ ↦ λ q. absurd (cc q)
    ]
      h
same_type-eq (other_type m) t h =
    elim t as (λ k. same_type (other_type m) k ≡ true → other_type m ≡ k) [
      | other_type n ↦ λ q. ap other_type (ground (arith, q))
      | _ ↦ λ q. absurd (cc q)
    ]
      h

-- Fields in the order of their indices.
abbrev pub Numbered : ℕ → TableT → Type 0
Numbered k [] = Unit
Numbered k ((n, f) ∷ t) = (f.index ≡ k) × Numbered (suc k) t

pub find_field-append :
    (name n : Text) (f : Field) (t : TableT)
    → find_field name (t ++ ((n, f) ∷ [])) ≡ (elim (find_field name t) [
      | some g ↦ some g
      | none ↦ elim (same_text n name) [ true ↦ some f | false ↦ none ]
    ])
unfolding find_field
find_field-append name n f [] = refl
find_field-append name n f ((n', f') ∷ t) = ground (arith, find_field-append name n f t)

pub find_field-set_type :
    (name : Text) (type : FieldType) (f : Field) (t : TableT)
    → find_field name t ≡ some f
    → find_field name (set_type name type t) ≡ some (record { index = f.index; type = type })
unfolding find_field set_type
find_field-set_type name type f [] h = absurd (cc h)
find_field-set_type name type f ((n, g) ∷ t) h = grind (arith, find_field-set_type name type f t)

pub find_field-set_type_other :
    (name n : Text) (type : FieldType) (t : TableT)
    → n ≢ name
    → find_field n (set_type name type t) ≡ find_field n t
unfolding find_field set_type
find_field-set_type_other name n type [] ne = refl
find_field-set_type_other name n type ((n', g) ∷ t) ne = elim (Bool-cases (same_text n' name)) [
  | inl e ↦
      let d : same_text n' n ≡ false =
        subst (λ x. same_text x n ≡ false) (sym (same_text-eq n' name e))
          (same_text-ne name n λ q. ne (sym q)) in
      ground (arith, e, d)
  | inr e ↦ ground (arith, e, find_field-set_type_other name n type t ne)
]

Numbered-append :
    (k : ℕ) (t : TableT) (n : Text) (f : Field)
    → Numbered k t
    → f.index ≡ k + length t
    → Numbered k (t ++ ((n, f) ∷ []))
Numbered-append k [] n f v h = (omega (arith, h), tt)
Numbered-append k ((n', g) ∷ t) n f (e, v) h =
    (e, Numbered-append (suc k) t n f v (omega (arith, h)))

Numbered-set_type :
    (k : ℕ) (name : Text) (type : FieldType) (t : TableT)
    → Numbered k t
    → Numbered k (set_type name type t) × (length (set_type name type t) ≡ length t)
unfolding set_type
Numbered-set_type k name type [] v = (tt, refl)
Numbered-set_type k name type ((n, f) ∷ t) (e, v) =
    let (vs, ls) = Numbered-set_type (suc k) name type t v in
    elim (Bool-cases (same_text n name)) [
      | inl h ↦
          let eq : set_type name type ((n, f) ∷ t)
              ≡ (n, record { index = f.index; type = type }) ∷ t =
            rw (h, set_type) in
          subst (λ x. Numbered k x × (length x ≡ suc (length t))) (sym eq) ((e, v), refl)
      | inr h ↦
          let eq : set_type name type ((n, f) ∷ t) ≡ (n, f) ∷ set_type name type t =
            rw (h, set_type) in
          subst (λ x. Numbered k x × (length x ≡ suc (length t))) (sym eq) ((e, vs), ap suc ls)
    ]

-- The invariant of a table under construction.
unfoldable pub IsTable : Build → Type 0
IsTable b = Numbered 0 b.table × (b.ctr ≡ length b.table)

add_ref-IsTable : (r : Ref) (b : Build) → IsTable b → IsTable (add_ref r b)
unfolding IsTable add_ref
add_ref-IsTable (name, type) b (v, c) = go (find_field name b.table)
  where
    go :
        (o : Option Field)
        → let b' : Build = elim o [
          | none ↦ record {
            table = b.table ++ ((name, record { index = b.ctr; type = type }) ∷ []);
            ctr = suc b.ctr;
            errors = b.errors;
          }
          | some f ↦ record {
            table = set_type name (resolve f.type type) b.table;
            ctr = b.ctr;
            errors = elim (mismatch f.type type) [
              | true ↦ b.errors ++ (name ∷ [])
              | false ↦ b.errors
            ];
          }
        ] in
          Numbered 0 b'.table × (b'.ctr ≡ length b'.table)
    go none = (
      Numbered-append 0 b.table name (record { index = b.ctr; type = type }) v (omega (arith, c)),
      omega (arith, c, length-append b.table ((name, record { index = b.ctr; type = type }) ∷ [])),
    )
    go (some f) =
        let (vs, ls) = Numbered-set_type 0 name (resolve f.type type) b.table v in (vs, c ∙ sym ls)

pub add_refs-IsTable : (rs : List Ref) (b : Build) → IsTable b → IsTable (add_refs rs b)
unfolding add_refs
add_refs-IsTable [] b v = v
add_refs-IsTable (r ∷ rs) b v = add_refs-IsTable rs (add_ref r b) (add_ref-IsTable r b v)
