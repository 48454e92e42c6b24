-- ===== src/Mapping/Greedy/Target.antt =====
-- How many units a handler of the mapping has, and the latency that they reach.
use mathlib.Core.List.{Perm}
use alkali.Prelude.{
  take, take_all, ℕ, zero, suc, ◌*◌, ◌≤◌, ◌<◌, ◌≡◌, sym, ◌∙◌, subst, true, false, List, [], ◌∷◌,
  some, some-injective, none-ne-some, length, inl, inr, ◌⊎◌, Bool-cases, arith, ltb, leb,
  not_ltb→le, length-append,
}
use native.Mathlib.Nat.{div-le_of_le-mul}
use alkali.Mapping.Model.{Func, PerformanceModel, is_table_clean}
use alkali.Mapping.Greedy.{
  Placed, MappingResult, get_latency_for_unit, wants, assign, unassigned, get_unit_map, get_mapping,
}
use alkali.Mapping.Greedy.Units.{all_units, funcs, Sated, get_unit_map-units}
use alkali.Mapping.Greedy.Steps.{assign-cases, assign-nil, assign_all-invariant}
use alkali.Mapping.Greedy.Bottleneck.{rate_at, get_mapping-parts, get_mapping-latency}

abbrev pub AllClean : List Func → Type 0
AllClean [] = Unit
AllClean (f ∷ fs) = (is_table_clean f ≡ true) × AllClean fs

-- A handler whose tables have several keys, or that has none, has one unit at most.
abbrev pub Single : List Placed → Type 0
Single [] = Unit
Single (p ∷ ps) = ((is_table_clean p.func ≡ true) ⊎ (length p.units ≤ 1)) × Single ps

module _ (model : PerformanceModel) where
  wants-false :
      (p : Placed) (rest : List Placed)
      → is_table_clean p.func ≡ true
      → wants model p rest ≡ false
      → get_latency_for_unit model p rest ≤ model.get_latency_target * length p.units
  unfolding wants
  wants-false p rest clean e =
      elim (Bool-cases
        (ltb (model.get_latency_target * length p.units) (get_latency_for_unit model p rest))) [
          | inl h ↦ let eq : wants model p rest ≡ true = rw (h, clean, wants) in absurd (cc (eq, e))
          | inr h ↦
              not_ltb→le (model.get_latency_target * length p.units)
                (get_latency_for_unit model p rest) h
        ]

  wants-single :
      (p : Placed) (rest : List Placed)
      → is_table_clean p.func ≡ false
      → wants model p rest ≡ true
      → length p.units < 1
  unfolding wants
  wants-single p rest unclean e = elim (Bool-cases (leb 1 (length p.units))) [
    | inl h ↦
        elim (Bool-cases
          (ltb (model.get_latency_target * length p.units) (get_latency_for_unit model p rest))) [
            | inl h' ↦
                let eq : wants model p rest ≡ false = rw (h', unclean, h, wants) in
                absurd (cc (eq, e))
            | inr h' ↦ let eq : wants model p rest ≡ false = rw (h', wants) in absurd (cc (eq, e))
          ]
    | inr h ↦ ground arith
  ]

  Sated-rate :
      (ps : List Placed)
      → AllClean (funcs ps)
      → Sated model ps
      → (j l : ℕ) → rate_at model ps j ≡ some l
      → l ≤ model.get_latency_target
  Sated-rate [] clean sated j l e = absurd (none-ne-some e)
  Sated-rate (p ∷ ps) (c, cs) (s, ss) zero l e =
      let h = wants-false p ps c s in
      let e' = some-injective e in
      subst (λ x. x ≤ model.get_latency_target) e'
        (div-le_of_le-mul (length p.units) (
          let h' : get_latency_for_unit model p ps ≤ length p.units * model.get_latency_target =
            grind (arith, h) in
          h'))
  Sated-rate (p ∷ ps) (c, cs) (s, ss) (suc j) l e = Sated-rate ps cs ss j l e

  assign-Single :
      (unit : ℕ) (ps ps' : List Placed) → Single ps → assign model unit ps ≡ some ps' → Single ps'
  assign-Single unit [] ps' single e = absurd (none-ne-some (sym (assign-nil model unit) ∙ e))
  assign-Single unit (p ∷ ps) ps' (s, ss) e = elim (assign-cases model unit p ps e) [
    | inl here ↦ subst Single here.1 (
      elim (Bool-cases (is_table_clean p.func)) [
        | inl clean ↦ inl clean
        | inr unclean ↦
            let h = wants-single p ps unclean here.0 in
            inr (omega (arith, length-append p.units (unit ∷ []), h))
      ],
      ss,
    )
    | inr (w, (qs, e', same)) ↦ subst Single same (s, assign-Single unit ps qs ss e')
  ]

unassigned-Single : (ops : List Func) → Single (unassigned ops)
unfolding unassigned
unassigned-Single [] = tt
unassigned-Single (f ∷ fs) = (inr (omega arith), unassigned-Single fs)

-- A handler that is not table clean gets one unit at most, so that only handlers with a single key
-- are replicated.
pub get_unit_map-Single :
    (model : PerformanceModel) (ops : List Func) → Single (get_unit_map model ops)
unfolding get_unit_map
get_unit_map-Single model ops =
    assign_all-invariant model Single (assign-Single model) model.get_compute_units (unassigned ops)
      (unassigned-Single ops)

-- Where every handler is table clean and getMapping has a result, all units of the model are given,
-- each once, or the latency is within the model's target.
pub get_mapping-target :
    (model : PerformanceModel) (ops : List Func) {r : MappingResult}
    → AllClean ops
    → get_mapping model ops ≡ some r
    → Perm (all_units r.unit_map) model.get_compute_units ⊎ (r.latency ≤ model.get_latency_target)
get_mapping-target model ops {r} clean e =
    let (e₁, e₂) = get_mapping-parts model ops e in
    let (bound, end) = get_mapping-latency model ops e in
    let (k, h, perm, same, stop) = get_unit_map-units model ops in
    elim stop [
      | inl all ↦ inl (
          subst (λ us. Perm (all_units r.unit_map) us)
            (take_all k model.get_compute_units (omega (arith, all)))
            (subst (λ ps. Perm (all_units ps) (take k model.get_compute_units)) (sym e₁) perm))
      | inr sated ↦ inr (elim end [
        | inl z ↦ omega (arith, z.0)
        | inr at ↦
            Sated-rate model (get_unit_map model ops) (subst AllClean (sym same) clean) sated
              r.bottleneck_index r.latency
              (subst (λ ps. rate_at model ps r.bottleneck_index ≡ some r.latency) e₁ at)
      ])
    ]
