-- ===== src/Lang/Attributes.antt =====
-- include/ep2/lang/AST.h, `RecordAST::AttributesType`: a `std::map` from strings, as the list of its
-- entries in the order of the keys.
pub mod Lookup
use Prim.Native.Nat.{compare, Ordering}
use alkali.Prelude.{[], ◌∷◌, Option, none, some}
use alkali.Lang.Token.{Text}
use alkali.Lang.Ast.{AttrValue, Attributes}

-- The order of `std::string`.
unfoldable pub compare_text : Text → Text → Ordering
compare_text [] [] = Ordering.eq
compare_text [] (_ ∷ _) = Ordering.lt
compare_text (_ ∷ _) [] = Ordering.gt
compare_text (a ∷ s) (b ∷ t) = elim (compare a b) [
  | Ordering.lt ↦ Ordering.lt
  | Ordering.gt ↦ Ordering.gt
  | Ordering.eq ↦ compare_text s t
]

-- `insert_or_assign(key, value)`.
unfoldable pub insert_or_assign : Text → AttrValue → Attributes → Attributes
unfolding compare_text
insert_or_assign k v [] = (k, v) ∷ []
insert_or_assign k v ((j, w) ∷ m) = elim (compare_text k j) [
  | Ordering.lt ↦ (k, v) ∷ (j, w) ∷ m
  | Ordering.eq ↦ (k, v) ∷ m
  | Ordering.gt ↦ (j, w) ∷ insert_or_assign k v m
]

-- `find(key)`.
unfoldable pub find : Text → Attributes → Option AttrValue
unfolding compare_text
find k [] = none
find k ((j, w) ∷ m) = elim (compare_text k j) [ Ordering.eq ↦ some w | _ ↦ find k m ]
