-- ===== src/Contexts/Arguments/Types.antt =====
-- The types and the names of operands and arguments, with a context erased and fields appended.
use alkali.Prelude.{◌≡◌, refl, ap, true, false, ◌||◌, List, [], ◌∷◌, ◌++◌, map, arith}
use alkali.Lang.Token.{Text}
use alkali.Contexts.{FieldType, Field}
use alkali.Contexts.Arguments.{
  is_context, has_context, erase_context, argument_type, argument_name, plain, field_arguments,
  Operand, operand_type, loads, field_names, no_names,
}

abbrev pub type_itself : FieldType → FieldType
type_itself t = t

module _ {A : Type 0} (type : A → FieldType) where
  pub has_context-map : (xs : List A) → has_context type xs ≡ has_context type_itself (map type xs)
  unfolding has_context
  has_context-map [] = refl
  has_context-map (x ∷ xs) = ap (λ b. is_context (type x) || b) (has_context-map xs)

  pub map-erase_context :
      (xs : List A) → map type (erase_context type xs) ≡ erase_context type_itself (map type xs)
  unfolding erase_context
  map-erase_context [] = refl
  map-erase_context (x ∷ xs) = ground (arith, map-erase_context xs)

  pub erase_context-append :
      (xs ys : List A)
      → has_context type xs ≡ true
      → erase_context type (xs ++ ys) ≡ erase_context type xs ++ ys
  unfolding erase_context has_context
  erase_context-append [] ys h = absurd (cc h)
  erase_context-append (x ∷ xs) ys h = grind (arith, erase_context-append xs ys)

  pub erase_context-none : (xs : List A) → has_context type xs ≡ false → erase_context type xs ≡ xs
  unfolding erase_context has_context
  erase_context-none [] h = refl
  erase_context-none (x ∷ xs) h = grind (arith, erase_context-none xs)

  pub has_context-append :
      (xs ys : List A) → has_context type xs ≡ true → has_context type (xs ++ ys) ≡ true
  unfolding has_context
  has_context-append [] ys h = absurd (cc h)
  has_context-append (x ∷ xs) ys h = grind (arith, has_context-append xs ys)

pub map-append :
    {A B : Type 0} (f : A → B) (xs ys : List A) → map f (xs ++ ys) ≡ map f xs ++ map f ys
map-append f [] ys = refl
map-append f (x ∷ xs) ys = ap (λ t. f x ∷ t) (map-append f xs ys)

pub plain-types : (ts : List FieldType) → map argument_type (plain ts) ≡ ts
unfolding plain
plain-types [] = refl
plain-types (t ∷ ts) = ap (λ r. t ∷ r) (plain-types ts)

pub fields-types :
    (fs : List (Text × Field))
    → map operand_type (loads fs) ≡ map argument_type (field_arguments fs)
unfolding loads field_arguments operand_type
fields-types [] = refl
fields-types ((n, f) ∷ fs) = ap (λ r. f.type ∷ r) (fields-types fs)

pub fields-names :
    (fs : List (Text × Field)) → field_names fs ≡ map argument_name (field_arguments fs)
unfolding field_names field_arguments
fields-names [] = refl
fields-names ((n, f) ∷ fs) = ap (λ r. n ∷ r) (fields-names fs)

pub unnamed : List FieldType → List Text
unnamed [] = []
unnamed (t ∷ ts) = [] ∷ unnamed ts

pub no_names-types : (xs : List Operand) → no_names xs ≡ unnamed (map operand_type xs)
unfolding no_names unnamed
no_names-types [] = refl
no_names-types (x ∷ xs) = ap (λ r. [] ∷ r) (no_names-types xs)

pub plain-names : (ts : List FieldType) → map argument_name (plain ts) ≡ unnamed ts
unfolding plain unnamed
plain-names [] = refl
plain-names (t ∷ ts) = ap (λ r. [] ∷ r) (plain-names ts)

pub erase-names :
    (ts : List FieldType)
    → map argument_name (erase_context argument_type (plain ts))
      ≡ unnamed (erase_context type_itself ts)
unfolding plain unnamed erase_context
erase-names [] = refl
erase-names (t ∷ ts) = ground (arith, erase-names ts, plain-names ts)
