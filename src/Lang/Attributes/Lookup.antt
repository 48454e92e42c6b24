-- ===== src/Lang/Attributes/Lookup.antt =====
-- include/ep2/lang/AST.h, `RecordAST::AttributesType`: lookups in the map after an insertion.
use Prim.Native.Nat.{Ordering}
use alkali.Prelude.{◌≡◌, ◌≢◌, refl, sym, ◌∙◌, subst, [], ◌∷◌, some, arith, ◌⊎◌, inl, inr}
use alkali.Lang.Token.{Text}
use alkali.Lang.Ast.{AttrValue, Attributes}
use alkali.Lang.Attributes.{compare_text, insert_or_assign, find}

pub compare_text_refl : (s : Text) → compare_text s s ≡ Ordering.eq
unfolding compare_text
compare_text_refl [] = refl
compare_text_refl (c ∷ s) = ground (arith, compare_text_refl s)

pub compare_text-eq : (s t : Text) → compare_text s t ≡ Ordering.eq → s ≡ t
unfolding compare_text
compare_text-eq [] [] h = refl
compare_text-eq [] (_ ∷ _) h = cc
compare_text-eq (_ ∷ _) [] h = cc
compare_text-eq (a ∷ s) (b ∷ t) h = grind (arith, compare_text-eq s t)

Ordering-cases : (o : Ordering) → (o ≡ Ordering.eq) ⊎ ((o ≡ Ordering.lt) ⊎ (o ≡ Ordering.gt))
Ordering-cases Ordering.eq = inl refl
Ordering-cases Ordering.lt = inr (inl refl)
Ordering-cases Ordering.gt = inr (inr refl)

-- The entry in front is the one looked for, or it is passed over.
find-here : (k : Text) (v : AttrValue) (m : Attributes) → find k ((k, v) ∷ m) ≡ some v
unfolding find
find-here k v m = rw (find, compare_text_refl k)

find-there : (k j : Text) (w : AttrValue) (m : Attributes) → k ≢ j → find k ((j, w) ∷ m) ≡ find k m
unfolding find
find-there k j w m ne = elim (Ordering-cases (compare_text k j)) [
  | inl e ↦ absurd (ne (compare_text-eq k j e))
  | inr (inl e) ↦ rw (find, e)
  | inr (inr e) ↦ rw (find, e)
]

compare_text-gt : (k j : Text) → compare_text k j ≡ Ordering.gt → k ≢ j
compare_text-gt k j h e =
    let s = compare_text_refl j in let h' = subst (λ k'. compare_text k' j ≡ Ordering.gt) e h in cc

-- What is inserted is found.
pub find-insert_or_assign :
    (k : Text) (v : AttrValue) (m : Attributes) → find k (insert_or_assign k v m) ≡ some v
unfolding insert_or_assign
find-insert_or_assign k v [] = find-here k v []
find-insert_or_assign k v ((j, w) ∷ m) = elim (Ordering-cases (compare_text k j)) [
  | inl e ↦ rw (insert_or_assign, e) (find-here k v m)
  | inr (inl e) ↦ rw (insert_or_assign, e) (find-here k v ((j, w) ∷ m))
  | inr (inr e) ↦
      rw (insert_or_assign, e)
        (find-there k j w _ (compare_text-gt k j e) ∙ find-insert_or_assign k v m)
]

-- Other keys keep their values.
pub find-insert_or_assign_other :
    (k i : Text) (v : AttrValue) (m : Attributes)
    → i ≢ k
    → find i (insert_or_assign k v m) ≡ find i m
unfolding insert_or_assign find
find-insert_or_assign_other k i v [] ne = find-there i k v [] ne
find-insert_or_assign_other k i v ((j, w) ∷ m) ne = elim (Ordering-cases (compare_text k j)) [
  | inl e ↦
      rw (insert_or_assign, e)
        (find-there i k v m ne
          ∙ sym (find-there i j w m (subst (λ j'. i ≢ j') (compare_text-eq k j e) ne)))
  | inr (inl e) ↦ rw (insert_or_assign, e) (find-there i k v ((j, w) ∷ m) ne)
  | inr (inr e) ↦
      let rec = find-insert_or_assign_other k i v m ne in
      elim (Ordering-cases (compare_text i j)) [
        | inl same' ↦ rw (insert_or_assign, e, find, same')
        | inr (inl d) ↦ rw (insert_or_assign, e, find, d) rec
        | inr (inr d) ↦ rw (insert_or_assign, e, find, d) rec
      ]
]
