-- ===== src/Handlers/Maps.antt =====
-- `std::map` with the functions of the module for its keys: its entries in the order of the keys.
use Prim.Native.Nat.{compare, Ordering}
use alkali.Prelude.{ℕ, ◌≡◌, ◌≢◌, Bool, true, false, ◌||◌, List, [], ◌∷◌, ◌==◌, arith}

abbrev pub Map : Type 0 → Type 0
Map V = List (ℕ × V)

module _ {V : Type 0} where
  -- Reads by `operator[]`; the entry that it adds for a missing key, with a default value, is left out.
  unfoldable pub at : V → Map V → ℕ → V
  at d [] k = d
  at d ((j, v) ∷ m) k = elim (k == j) [ true ↦ v | false ↦ at d m k ]

  -- Writes by it.
  unfoldable pub put : ℕ → V → Map V → Map V
  put k v [] = (k, v) ∷ []
  put k v ((j, w) ∷ m) = elim (compare k j) [
    | Ordering.lt ↦ (k, v) ∷ (j, w) ∷ m
    | Ordering.eq ↦ (k, v) ∷ m
    | Ordering.gt ↦ (j, w) ∷ put k v m
  ]

  pub at-put : (d : V) (k : ℕ) (v : V) (m : Map V) → at d (put k v m) k ≡ v
  unfolding at put
  at-put d k v [] = ground arith
  at-put d k v ((j, w) ∷ m) = grind (arith, at-put d k v m)

  pub at-put_other : (d : V) (k i : ℕ) (v : V) (m : Map V) → i ≢ k → at d (put k v m) i ≡ at d m i
  unfolding at put
  at-put_other d k i v [] ne = ground arith
  at-put_other d k i v ((j, w) ∷ m) ne = grind (arith, at-put_other d k i v m ne)

-- `any_of` with the equality to an element.
unfoldable pub any_of : List ℕ → ℕ → Bool
any_of [] v = false
any_of (x ∷ xs) v = (x == v) || any_of xs v
