-- ===== src/Contexts/Structs/Members.antt =====
-- The members of a context's struct stand where the index of their field says.
use mathlib.Core.List.{Permᴰ, Memᴰ}
use alkali.Prelude.{
  ℕ, ◌<◌, ◌≡◌, refl, ap, ◌∙◌, sym, subst, true, false, List, [], ◌∷◌, ◌++◌, none, some, arith, ltb,
  length, get_elem?, set, replicate, length-replicate, some-injective,
}
use alkali.Lang.Token.{Text}
use alkali.Handlers.Maps.{any_of}
use alkali.Handlers.Sets.{Unique}
use alkali.Contexts.{
  Field, TableT, find_field, Ref, found, get_func_name, get_function_table, context_bufferization,
  get_context_type,
}
use alkali.Contexts.Names.{named_in}
use alkali.Contexts.Tables.{built}
use alkali.Contexts.Lookups.{component_table, find_field-found}
use alkali.Contexts.Fields.{Numbered}
use alkali.Contexts.Structs.{Collected, member_type, bit_widths, collect_fields, collect_context}
use alkali.Contexts.Structs.Indices.{
  Entry, Unique-perm, find_field-mem, get_elem?-set, get_elem?-set_other, indices, indices-Unique,
  indices-bound, indices-perm, length-set, mem-perm,
}

module _ {L : Type 0} (buf_type : L) (make_llvm_struct convert_integer : ℕ → L) where
  -- Every field has a type that becomes a member.
  abbrev pub Lowered : List (Text × Field) → Type 0
  Lowered [] = Unit
  Lowered (x ∷ fs) =
      ((l : L) × (member_type buf_type make_llvm_struct convert_integer x.1.type ≡ some l))
      × Lowered fs

  Lowered-perm : {fs gs : List Entry} → Permᴰ fs gs → Lowered fs → Lowered gs
  Lowered-perm Permᴰ.nil w = w
  Lowered-perm (Permᴰ.cons e q) (l, w) = (
    subst (λ x. (l : L) × (member_type buf_type make_llvm_struct convert_integer x.1.type ≡ some l))
        e l,
    Lowered-perm q w,
  )
  Lowered-perm (Permᴰ.swap e e') (l, (l', w)) = (
    subst (λ x. (l : L) × (member_type buf_type make_llvm_struct convert_integer x.1.type ≡ some l))
        e' l',
    (
      subst
          (λ x. (l : L) × (member_type buf_type make_llvm_struct convert_integer x.1.type ≡ some l))
          e l,
      w,
    ),
  )
  Lowered-perm (Permᴰ.trans p q) w = Lowered-perm q (Lowered-perm p w)

  -- The loop on a list of fields whose indices are in bounds and differ.
  collect_fields-members :
      (fs : List Entry) (c : Collected L)
      → Unique (indices fs)
      → ((j : ℕ) → any_of (indices fs) j ≡ true → j < length c.context_types)
      → Lowered fs
      → (c' : Collected L) × (collect_fields buf_type make_llvm_struct convert_integer fs c
          ≡ some c')
        × (length c'.context_types ≡ length c.context_types)
        × ((j : ℕ)
            → any_of (indices fs) j ≡ false
            → get_elem? c'.context_types j ≡ get_elem? c.context_types j)
        × ((x : Entry)
            → Memᴰ x fs
            → get_elem? c'.context_types x.1.index
              ≡ some (member_type buf_type make_llvm_struct convert_integer x.1.type))
  unfolding collect_fields indices any_of
  collect_fields-members [] c u b w = (c, refl, refl, λ j h. refl, λ x m. elim m [ ])
  collect_fields-members ((n, f) ∷ fs) c (free, u) b ((l, e), w) =
      let inside : f.index < length c.context_types = b f.index (ground arith) in
      let test : ltb f.index (length c.context_types) ≡ true = ground (arith, inside) in
      let next : Collected L = record {
        context_types = set c.context_types f.index (some l);
        type_bit_widths =
            c.type_bit_widths ++ bit_widths buf_type make_llvm_struct convert_integer f.type;
      } in
      let size = length-set c.context_types f.index (some l) in
      let (c', r, len, other, own) =
        collect_fields-members fs next u
          (λ j h. subst (λ k. j < k) (sym size) (b j (ground (arith, h)))) w in
      (
        c',
        rw (e, test, collect_fields) r,
        len ∙ size,
        λ j h.
            other j (ground (arith, h))
            ∙ get_elem?-set_other c.context_types f.index j (some l) (λ q. ground (arith, h, q)),
        λ x m.
            here_or_there x m c'
              (other f.index free
                ∙ get_elem?-set c.context_types f.index (some l) inside
                ∙ ap some (sym e))
              (own x),
      )
    where
      here_or_there :
          (x : Entry)
          → Memᴰ x ((n, f) ∷ fs)
          → (c' : Collected L)
          → get_elem? c'.context_types f.index
            ≡ some (member_type buf_type make_llvm_struct convert_integer f.type)
          → (Memᴰ x fs
              → get_elem? c'.context_types x.1.index
                ≡ some (member_type buf_type make_llvm_struct convert_integer x.1.type))
          → get_elem? c'.context_types x.1.index
            ≡ some (member_type buf_type make_llvm_struct convert_integer x.1.type)
      here_or_there x (Memᴰ.head q) c' here there =
          subst
            (λ y.
              get_elem? c'.context_types y.1.index
              ≡ some (member_type buf_type make_llvm_struct convert_integer y.1.type))
            (sym q) here
      here_or_there x (Memᴰ.tail m) c' here there = there m

  module _ (iterate : TableT → List (Text × Field)) where
    collect_context-table :
        (t : TableT) (widths : List ℕ) (name : Text) (f : Field)
        → Numbered 0 t
        → Permᴰ t (iterate t)
        → Lowered t
        → find_field name t ≡ some f
        → (c : Collected L) × (collect_context buf_type make_llvm_struct convert_integer iterate t
              widths
            ≡ some c)
          × (length c.context_types ≡ length t)
          × (get_elem? c.context_types f.index
              ≡ some (member_type buf_type make_llvm_struct convert_integer f.type))
    unfolding collect_context
    collect_context-table t widths name f v p w h =
        let blank : Collected L = record {
          context_types = replicate (length t) none;
          type_bit_widths = widths;
        } in
        let size : length blank.context_types ≡ length t = length-replicate (length t) none in
        let (c, r, len, _, own) =
          collect_fields-members (iterate t) blank (Unique-perm p (indices-Unique 0 t v))
            (λ j e.
              let (_, u) = indices-bound 0 t j v (sym (indices-perm j p) ∙ e) in
              omega (arith, u, size))
            (Lowered-perm p w) in
        (c, r, len ∙ size, own (name, f) (mem-perm p (find_field-mem name f t h)))

-- In the struct of a component's context, in whatever order LLVM iterates over the table, where every
-- field's type can be a member, there are as many members as fields, and the field that getContextType
-- finds for a handler of the component, the first with the handler's name, has its type at its index.
pub collect_context-member :
    {L : Type 0}
    → (buf_type : L) (make_llvm_struct convert_integer : ℕ → L)
      (iterate : TableT → List (Text × Field)) (sym_name : ℕ → Text) (refs : ℕ → List Ref)
      (before after : List (List ℕ)) (order : List ℕ) (h : ℕ) (func_name name : Text) (f : Field)
      (t : TableT) (widths : List ℕ)
    → ((u : TableT) → Permᴰ u (iterate u))
    → any_of order h ≡ true
    → named_in sym_name before (sym_name h) ≡ false
    → get_func_name func_name ≡ sym_name h
    → get_context_type
        (context_bufferization sym_name refs (before ++ (order ∷ after)))
        func_name
        name
      ≡ some (found f)
    → get_function_table (context_bufferization sym_name refs (before ++ (order ∷ after))) func_name
      ≡ some t
    → Lowered buf_type make_llvm_struct convert_integer t
    → (c : Collected L) × (collect_context buf_type make_llvm_struct convert_integer iterate t
          widths
        ≡ some c)
      × (length c.context_types ≡ length t)
      × (get_elem? c.context_types f.index
          ≡ some (member_type buf_type make_llvm_struct convert_integer f.type))
collect_context-member buf_type make_llvm_struct convert_integer iterate sym_name refs before after
      order h func_name name f t widths perm own free same looked has lowered =
    let (table, numbered) =
      component_table sym_name refs before after order h func_name own free same in
    let eq : (built sym_name refs before after order).table ≡ t =
      some-injective (sym table ∙ has) in
    collect_context-table buf_type make_llvm_struct convert_integer iterate t widths name f
      (subst (Numbered 0) eq numbered) (perm t) lowered
      (subst (λ x. find_field name x ≡ some f) eq
        (find_field-found sym_name refs before after order h name f func_name own free same looked))
