-- ===== src/Contexts/Names.antt =====
-- `contextMap`: the first component that has a name keeps it.
use alkali.Prelude.{
  ℕ, ◌≡◌, refl, sym, subst, true, false, ◌||◌, List, [], ◌∷◌, ◌++◌, none, some, arith, Bool,
  Bool-cases, inl, inr,
}
use alkali.Lang.Token.{Text}
use alkali.Lang.Lexer.Chars.{same_text}
use alkali.Handlers.Maps.{any_of}
use alkali.Contexts.{find_index, emplace_index}
use alkali.Contexts.Texts.{same_text_refl, same_text-eq}

abbrev pub IndexMap : Type 0
IndexMap = List (Text × ℕ)

find_index-append :
    (s n : Text) (k : ℕ) (m : IndexMap)
    → find_index s (m ++ ((n, k) ∷ [])) ≡ (elim (find_index s m) [
      | some i ↦ some i
      | none ↦ elim (same_text n s) [ true ↦ some k | false ↦ none ]
    ])
unfolding find_index
find_index-append s n k [] = refl
find_index-append s n k ((n', j) ∷ m) = ground (arith, find_index-append s n k m)

pub find_index-kept :
    (s n : Text) (k i : ℕ) (m : IndexMap)
    → find_index s m ≡ some i
    → find_index s (emplace_index n k m) ≡ some i
unfolding emplace_index
find_index-kept s n k i m h = ground (arith, find_index-append s n k m, h)

pub find_index-new :
    (s n : Text) (k : ℕ) (m : IndexMap)
    → find_index s m ≡ none
    → same_text n s ≡ true
    → find_index s (emplace_index n k m) ≡ some k
unfolding emplace_index
find_index-new s n k m h e =
    let free : find_index n m ≡ none =
      subst (λ x. find_index x m ≡ none) (sym (same_text-eq n s e)) h in
    ground (arith, find_index-append s n k m, h, e, free)

pub find_index-other :
    (s n : Text) (k : ℕ) (m : IndexMap)
    → find_index s m ≡ none
    → same_text n s ≡ false
    → find_index s (emplace_index n k m) ≡ none
unfolding emplace_index
find_index-other s n k m h e = ground (arith, find_index-append s n k m, h, e)

module _ (sym_name : ℕ → Text) where
  -- Whether a function of an order, or of one of several, has the name.
  unfoldable pub named : List ℕ → Text → Bool
  named [] s = false
  named (func ∷ order) s = same_text (sym_name func) s || named order s

  unfoldable pub named_in : List (List ℕ) → Text → Bool
  named_in [] s = false
  named_in (order ∷ orders) s = named order s || named_in orders s

  -- The names of an order in the map.
  unfoldable pub add_names : ℕ → List ℕ → IndexMap → IndexMap
  add_names k [] m = m
  add_names k (func ∷ order) m = add_names k order (emplace_index (sym_name func) k m)

  pub named-any_of :
      (order : List ℕ) (h : ℕ) → any_of order h ≡ true → named order (sym_name h) ≡ true
  unfolding named any_of
  named-any_of [] h e = absurd (cc e)
  named-any_of (func ∷ order) h e = grind (arith, named-any_of order h, same_text_refl (sym_name h))

  pub add_names-kept :
      (k i : ℕ) (order : List ℕ) (m : IndexMap) (s : Text)
      → find_index s m ≡ some i
      → find_index s (add_names k order m) ≡ some i
  unfolding add_names
  add_names-kept k i [] m s h = h
  add_names-kept k i (func ∷ order) m s h =
      add_names-kept k i order (emplace_index (sym_name func) k m) s
        (find_index-kept s (sym_name func) k i m h)

  pub add_names-new :
      (k : ℕ) (order : List ℕ) (m : IndexMap) (s : Text)
      → find_index s m ≡ none
      → named order s ≡ true
      → find_index s (add_names k order m) ≡ some k
  unfolding add_names named
  add_names-new k [] m s h e = absurd (cc e)
  add_names-new k (func ∷ order) m s h e = elim (Bool-cases (same_text (sym_name func) s)) [
    | inl d ↦
        add_names-kept k k order (emplace_index (sym_name func) k m) s
          (find_index-new s (sym_name func) k m h d)
    | inr d ↦
        add_names-new k order (emplace_index (sym_name func) k m) s
          (find_index-other s (sym_name func) k m h d) (ground (arith, e, d))
  ]

  pub add_names-other :
      (k : ℕ) (order : List ℕ) (m : IndexMap) (s : Text)
      → find_index s m ≡ none
      → named order s ≡ false
      → find_index s (add_names k order m) ≡ none
  unfolding add_names named
  add_names-other k [] m s h e = h
  add_names-other k (func ∷ order) m s h e =
      add_names-other k order (emplace_index (sym_name func) k m) s
        (find_index-other s (sym_name func) k m h (ground (arith, e))) (ground (arith, e))
