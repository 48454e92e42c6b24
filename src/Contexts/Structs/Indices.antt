-- ===== src/Contexts/Structs/Indices.antt =====
-- The indices of a table's fields, in any order, and writes at them.
use mathlib.Core.List.{Permᴰ, Memᴰ}
use alkali.Prelude.{
  ℕ, suc, zero, ◌+◌, ◌<◌, ◌≤◌, ◌≡◌, ◌≢◌, refl, ap, ◌∙◌, sym, true, List, [], ◌∷◌, some, arith,
  Bool-cases, inl, inr, length, get_elem?, set, ◌==◌, some-injective,
}
use alkali.Lang.Token.{Text}
use alkali.Lang.Lexer.Chars.{same_text}
use alkali.Handlers.Maps.{any_of}
use alkali.Handlers.Sets.{Unique}
use alkali.Contexts.{Field, TableT, find_field}
use alkali.Contexts.Texts.{same_text-eq}
use alkali.Contexts.Fields.{Numbered}

abbrev pub Entry : Type 0
Entry = Text × Field

unfoldable pub indices : List Entry → List ℕ
indices [] = []
indices (x ∷ fs) = x.1.index ∷ indices fs

-- The indices in any other order.
pub indices-perm :
    {fs gs : List Entry} (j : ℕ) → Permᴰ fs gs → any_of (indices gs) j ≡ any_of (indices fs) j
unfolding any_of indices
indices-perm j Permᴰ.nil = refl
indices-perm j (Permᴰ.cons {a = a} {b = b} e q) =
    let d : a.1.index ≡ b.1.index = ap (λ x. x.1.index) e in ground (arith, d, indices-perm j q)
indices-perm j (Permᴰ.swap {a = a} {b = b} {a' = a'} {b' = b'} e e') =
    let d : a.1.index ≡ b'.1.index = ap (λ x. x.1.index) e in
    let d' : b.1.index ≡ a'.1.index = ap (λ x. x.1.index) e' in ground (arith, d, d')
indices-perm j (Permᴰ.trans p q) = indices-perm j q ∙ indices-perm j p

pub Unique-perm : {fs gs : List Entry} → Permᴰ fs gs → Unique (indices fs) → Unique (indices gs)
unfolding any_of indices
Unique-perm Permᴰ.nil u = u
Unique-perm (Permᴰ.cons {a = a} {b = b} e q) (n, u) =
    let d : a.1.index ≡ b.1.index = ap (λ x. x.1.index) e in
    (indices-perm b.1.index q ∙ rw (sym d) n, Unique-perm q u)
Unique-perm (Permᴰ.swap {a = a} {b = b} {a' = a'} {b' = b'} e e') (n, (m, u)) =
    let d : a.1.index ≡ b'.1.index = ap (λ x. x.1.index) e in
    let d' : b.1.index ≡ a'.1.index = ap (λ x. x.1.index) e' in
    (ground (arith, n, m, d, d'), (ground (arith, n, m, d, d'), u))
Unique-perm (Permᴰ.trans p q) u = Unique-perm q (Unique-perm p u)

pub mem-perm : {fs gs : List Entry} {x : Entry} → Permᴰ fs gs → Memᴰ x fs → Memᴰ x gs
mem-perm Permᴰ.nil m = elim m [ ]
mem-perm (Permᴰ.cons e q) (Memᴰ.head h) = Memᴰ.head (h ∙ e)
mem-perm (Permᴰ.cons e q) (Memᴰ.tail m) = Memᴰ.tail (mem-perm q m)
mem-perm (Permᴰ.swap e e') (Memᴰ.head h) = Memᴰ.tail (Memᴰ.head (h ∙ e))
mem-perm (Permᴰ.swap e e') (Memᴰ.tail (Memᴰ.head h)) = Memᴰ.head (h ∙ e')
mem-perm (Permᴰ.swap e e') (Memᴰ.tail (Memᴰ.tail m)) = Memᴰ.tail (Memᴰ.tail m)
mem-perm (Permᴰ.trans p q) m = mem-perm q (mem-perm p m)

pub find_field-mem :
    (name : Text) (f : Field) (t : TableT) → find_field name t ≡ some f → Memᴰ (name, f) t
unfolding find_field
find_field-mem name f [] h = absurd (cc h)
find_field-mem name f ((n, g) ∷ t) h = elim (Bool-cases (same_text n name)) [
  | inl e ↦
      let eq : find_field name ((n, g) ∷ t) ≡ some g = rw (e, find_field) in
      let q = same_text-eq n name e in
      let r : g ≡ f = some-injective (sym eq ∙ h) in Memᴰ.head (cc (q, r))
  | inr e ↦
      let eq : find_field name ((n, g) ∷ t) ≡ find_field name t = rw (e, find_field) in
      Memᴰ.tail (find_field-mem name f t (sym eq ∙ h))
]

pub indices-bound :
    (k : ℕ) (t : TableT) (j : ℕ)
    → Numbered k t
    → any_of (indices t) j ≡ true
    → (k ≤ j) × (j < k + length t)
unfolding any_of indices
indices-bound k [] j v h = absurd (cc h)
indices-bound k ((n, f) ∷ t) j (e, v) h = elim (Bool-cases (f.index == j)) [
  | inl d ↦ (ground (arith, e, d), ground (arith, e, d))
  | inr d ↦
      let (l, u) = indices-bound (suc k) t j v (ground (arith, h, d)) in
      (omega (arith, l), omega (arith, u))
]

pub indices-Unique : (k : ℕ) (t : TableT) → Numbered k t → Unique (indices t)
unfolding any_of indices
indices-Unique k [] v = tt
indices-Unique k ((n, f) ∷ t) (e, v) = (
  elim (Bool-cases (any_of (indices t) f.index)) [
    | inl h ↦ absurd (let (l, _) = indices-bound (suc k) t f.index v h in omega (arith, e, l))
    | inr h ↦ h
  ],
  indices-Unique (suc k) t v,
)

module _ {A : Type 0} where
  pub length-set : (xs : List A) (i : ℕ) (v : A) → length (set xs i v) ≡ length xs
  length-set [] i v = refl
  length-set (x ∷ xs) zero v = refl
  length-set (x ∷ xs) (suc i) v = ap suc (length-set xs i v)

  pub get_elem?-set :
      (xs : List A) (i : ℕ) (v : A) → i < length xs → get_elem? (set xs i v) i ≡ some v
  get_elem?-set [] i v h = absurd (omega (arith, h))
  get_elem?-set (x ∷ xs) zero v h = refl
  get_elem?-set (x ∷ xs) (suc i) v h = get_elem?-set xs i v (omega (arith, h))

  pub get_elem?-set_other :
      (xs : List A) (i j : ℕ) (v : A) → i ≢ j → get_elem? (set xs i v) j ≡ get_elem? xs j
  get_elem?-set_other [] i j v ne = refl
  get_elem?-set_other (x ∷ xs) zero zero v ne = absurd (ne refl)
  get_elem?-set_other (x ∷ xs) zero (suc j) v ne = refl
  get_elem?-set_other (x ∷ xs) (suc i) zero v ne = refl
  get_elem?-set_other (x ∷ xs) (suc i) (suc j) v ne =
      get_elem?-set_other xs i j v λ e. ne (ap suc e)
