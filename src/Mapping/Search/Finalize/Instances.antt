-- ===== src/Mapping/Search/Finalize/Instances.antt =====
-- What `finalize` keeps, and the units that it gives.
use alkali.Prelude.{
  ℕ, zero, suc, ◌+◌, ◌≤◌, ◌≡◌, ◌≢◌, refl, sym, ap, ◌∙◌, subst, Bool, true, false, not, ◌&&◌, List,
  [], ◌∷◌, some, none-ne-some, some-injective, ◌==◌, if◌then◌else◌, Bool-cases, inl, inr, get_elem?,
  arith, ==_iff,
}
use alkali.Mapping.Model.{Func, PerformanceModel}
use alkali.Mapping.Greedy.{Placed, MappingResult, get_mapping}
use alkali.Mapping.Search.{PipelineMapper, PipelineCutExplorer, ended, optimization_loop}
use alkali.Mapping.Search.Outcome.{optimization_loop-ended}
use alkali.Mapping.Search.Finalize.{
  FuncOp, find_function, is_internal, remove_others, set_attr, set_instances, finalize,
}

abbrev pub internals : List FuncOp → List FuncOp
internals [] = []
internals (op ∷ ops) = if is_internal op then op ∷ internals ops else internals ops

remove_others-nil : (ops : List FuncOp) → internals (remove_others [] ops) ≡ []
unfolding remove_others
remove_others-nil [] = refl
remove_others-nil (op ∷ ops) = elim (Bool-cases (is_internal op)) [
  | inl h ↦ rw (h, find_function) (remove_others-nil ops)
  | inr h ↦ rw (h, find_function, h) (remove_others-nil ops)
]

-- Where the handler alone has a latency of the target and 1000 or more, finalize behind the search
-- leaves no handler in the module but the external ones.
pub finalize-slow :
    (model : PerformanceModel) (explorer : PipelineCutExplorer) (fuel : ℕ) (func : Func)
    (ops : List FuncOp) {r : MappingResult} {mapper : PipelineMapper}
    → get_mapping model (func ∷ []) ≡ some r
    → model.get_latency_target + 1000 ≤ r.latency
    → optimization_loop model explorer fuel func ≡ ended mapper
    → internals (finalize mapper ops) ≡ []
unfolding finalize set_instances
finalize-slow model explorer fuel func ops {r} {mapper} m h e =
    elim (optimization_loop-ended model explorer fuel func m e) [
      | inl fast ↦ absurd (omega (arith, fast.0, h))
      | inr slow ↦
          subst
            (λ fs.
              internals (set_instances fs mapper.mapping_result.unit_map (remove_others fs ops))
              ≡ [])
            (sym slow.1) (remove_others-nil ops)
    ]

-- The operations of the module with a name, in their order.
abbrev pub named : ℕ → List FuncOp → List FuncOp
named name [] = []
named name (op ∷ ops) = if op.func.name == name then op ∷ named name ops else named name ops

-- Operations with their units, and otherwise as they were.
abbrev pub with_units : List ℕ → List FuncOp → List FuncOp
with_units units [] = []
with_units units (op ∷ ops) = record op { instances = some units } ∷ with_units units ops

-- No function of the list has the name.
abbrev pub Fresh : ℕ → List Func → Type 0
Fresh name [] = Unit
Fresh name (f ∷ fs) = (f.name ≢ name) × Fresh name fs

abbrev pub Distinct : List Func → Type 0
Distinct [] = Unit
Distinct (f ∷ fs) = Fresh f.name fs × Distinct fs

find_function-here :
    (fs : List Func) (i : ℕ) {f : Func} → get_elem? fs i ≡ some f → find_function fs f.name ≡ true
unfolding find_function
find_function-here [] i e = absurd (none-ne-some e)
find_function-here (g ∷ fs) zero {f} e =
    let h : (g.name == f.name) ≡ true =
      (==_iff g.name f.name).1 (ap (λ x. x.name) (some-injective e)) in
    ground (arith, h)
find_function-here (g ∷ fs) (suc i) {f} e =
    let rest = find_function-here fs i {f = f} e in ground (arith, rest)

-- A handler of the mapper is not removed.
remove_others-named :
    (fs : List Func) (name : ℕ) (ops : List FuncOp)
    → find_function fs name ≡ true
    → named name (remove_others fs ops) ≡ named name ops
unfolding remove_others
remove_others-named fs name [] h = refl
remove_others-named fs name (op ∷ ops) h =
    let rest = remove_others-named fs name ops h in
    elim (Bool-cases (op.func.name == name)) [
      | inl e ↦
          let here : find_function fs op.func.name ≡ true =
            ap (find_function fs) ((==_iff op.func.name name).0 e) ∙ h in
          ground (arith, e, here, rest)
      | inr e ↦ removed-or-not e rest (is_internal op && not (find_function fs op.func.name))
    ]
  where
    removed-or-not :
        (op.func.name == name) ≡ false
        → named name (remove_others fs ops) ≡ named name ops
        → (b : Bool)
        → named name (if b then remove_others fs ops else op ∷ remove_others fs ops)
          ≡ named name (op ∷ ops)
    removed-or-not e rest true = rw e rest
    removed-or-not e rest false = rw e rest

set_attr-named :
    (name : ℕ) (units : List ℕ) (ops : List FuncOp)
    → named name (set_attr name units ops) ≡ with_units units (named name ops)
unfolding set_attr
set_attr-named name units [] = refl
set_attr-named name units (op ∷ ops) =
    let rest = set_attr-named name units ops in
    elim (Bool-cases (op.func.name == name)) [ inl e ↦ simp (e, rest) | inr e ↦ simp (e, rest) ]

set_attr-named_other :
    (name other : ℕ) (units : List ℕ) (ops : List FuncOp)
    → other ≢ name
    → named name (set_attr other units ops) ≡ named name ops
unfolding set_attr
set_attr-named_other name other units [] ne = refl
set_attr-named_other name other units (op ∷ ops) ne =
    let rest = set_attr-named_other name other units ops ne in
    elim (Bool-cases (op.func.name == other)) [
      | inl e ↦ let d : (op.func.name == name) ≡ false = ground (arith, e, ne) in simp (e, d, rest)
      | inr e ↦ simp (e, rest)
    ]

set_instances-named_other :
    (name : ℕ) (fs : List Func) (ps : List Placed) (ops : List FuncOp)
    → Fresh name fs
    → named name (set_instances fs ps ops) ≡ named name ops
unfolding set_instances
set_instances-named_other name [] ps ops fresh = refl
set_instances-named_other name (f ∷ fs) [] ops (ne, fresh) =
    set_instances-named_other name fs [] (set_attr f.name [] ops) fresh
    ∙ set_attr-named_other name f.name [] ops ne
set_instances-named_other name (f ∷ fs) (p ∷ ps) ops (ne, fresh) =
    set_instances-named_other name fs ps (set_attr f.name p.units ops) fresh
    ∙ set_attr-named_other name f.name p.units ops ne

Fresh-ne :
    (name : ℕ) (fs : List Func) (i : ℕ) {f : Func}
    → Fresh name fs
    → get_elem? fs i ≡ some f
    → f.name ≢ name
Fresh-ne name [] i fresh e = absurd (none-ne-some e)
Fresh-ne name (g ∷ fs) zero (ne, fresh) e = subst (λ x. x.name ≢ name) (some-injective e) ne
Fresh-ne name (g ∷ fs) (suc i) (ne, fresh) e = Fresh-ne name fs i fresh e

set_instances-named :
    (fs : List Func) (ps : List Placed) (ops : List FuncOp) (i : ℕ) {f : Func} {p : Placed}
    → Distinct fs
    → get_elem? fs i ≡ some f
    → get_elem? ps i ≡ some p
    → named f.name (set_instances fs ps ops) ≡ with_units p.units (named f.name ops)
unfolding set_instances
set_instances-named [] ps ops i distinct e e' = absurd (none-ne-some e)
set_instances-named (f ∷ fs) [] ops i distinct e e' = absurd (none-ne-some e')
set_instances-named (f ∷ fs) (p ∷ ps) ops zero {f = f'} {p = p'} (fresh, distinct) e e' =
    subst
      (λ g.
        named g.name (set_instances fs ps (set_attr f.name p.units ops))
        ≡ with_units p'.units (named g.name ops))
      (some-injective e)
      (subst
        (λ q.
          named f.name (set_instances fs ps (set_attr f.name p.units ops))
          ≡ with_units q.units (named f.name ops))
        (some-injective e')
        (set_instances-named_other f.name fs ps (set_attr f.name p.units ops) fresh
          ∙ set_attr-named f.name p.units ops))
set_instances-named (f ∷ fs) (p ∷ ps) ops (suc i) {f = f'} {p = p'} (fresh, distinct) e e' =
    let ne = Fresh-ne f.name fs i fresh e in
    set_instances-named fs ps (set_attr f.name p.units ops) i {f = f'} {p = p'} distinct e e'
    ∙ ap (with_units p'.units) (set_attr-named_other f'.name f.name p.units ops (λ q. ne (sym q)))

-- Where no function of the mapper has the name of another, the operations that finalize leaves under
-- the name of its i-th function are all that the module had under it, in their order, with the units
-- of the i-th place of its mapping and otherwise as they were.
pub finalize-named :
    (mapper : PipelineMapper) (ops : List FuncOp) (i : ℕ) {f : Func} {p : Placed}
    → Distinct mapper.functions
    → get_elem? mapper.functions i ≡ some f
    → get_elem? mapper.mapping_result.unit_map i ≡ some p
    → named f.name (finalize mapper ops) ≡ with_units p.units (named f.name ops)
unfolding finalize
finalize-named mapper ops i {f = f} {p = p} distinct e e' =
    set_instances-named mapper.functions mapper.mapping_result.unit_map
      (remove_others mapper.functions ops) i {f = f} {p = p} distinct e e'
    ∙ ap (with_units p.units) (
        remove_others-named mapper.functions f.name ops
          (find_function-here mapper.functions i {f = f} e))
