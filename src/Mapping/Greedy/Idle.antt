-- ===== src/Mapping/Greedy/Idle.antt =====
-- A handler without latency gets no unit, and the last loop of `getMapping` divides by that.
use alkali.Prelude.{
  ℕ, suc, ◌+◌, ◌*◌, ◌/◌, ◌≡◌, refl, ◌∙◌, subst, true, false, List, [], ◌∷◌, none, some, none-chain,
  length, inl, inr, Bool-cases, arith, ltb, ltb-false, ◌==◌,
}
use alkali.Mapping.Model.{Func, PerformanceModel}
use alkali.Mapping.Greedy.{
  Placed, get_latency_for_unit, wants, assign, unassigned, bottleneck, get_unit_map, get_mapping,
}
use alkali.Mapping.Greedy.Steps.{assign-cases, assign_all-invariant}

-- A handler of the pipeline has latency 0.
pub data Idle (model : PerformanceModel) : List Func → Type 0 where
  idle_here : {f : Func} {fs : List Func} → model.get_latency f ≡ 0 → Idle model (f ∷ fs)
  idle_there : {f : Func} {fs : List Func} → Idle model fs → Idle model (f ∷ fs)

module _ (model : PerformanceModel)
    (free : (us vs : List ℕ) → model.get_communication_cost us vs ≡ 0) where
  -- Such a handler stands there without units.
  data Starved : List Placed → Type 0 where
    starved_here :
        {p : Placed} {ps : List Placed}
        → model.get_latency p.func ≡ 0
        → p.units ≡ []
        → Starved (p ∷ ps)
    starved_there : {p : Placed} {ps : List Placed} → Starved ps → Starved (p ∷ ps)

  idle-wants :
      (p : Placed) (ps : List Placed) → model.get_latency p.func ≡ 0 → wants model p ps ≡ false
  unfolding wants get_latency_for_unit
  idle-wants p [] e =
      let h : ltb (model.get_latency_target * length p.units) (model.get_latency p.func + 0)
          ≡ false =
        ltb-false _ _ (omega (arith, e)) in
      rw (h)
  idle-wants p (q ∷ ps) e =
      let e' = free p.units q.units in
      let h : ltb (model.get_latency_target * length p.units)
            (model.get_latency p.func + model.get_communication_cost p.units q.units)
          ≡ false =
        ltb-false _ _ (omega (arith, e, e')) in
      rw (h)

  assign-Starved :
      (unit : ℕ) (ps ps' : List Placed) → Starved ps → assign model unit ps ≡ some ps' → Starved ps'
  assign-Starved unit [] ps' st e = elim st [ ]
  assign-Starved unit (p ∷ ps) ps' (starved_here z units) e =
      elim (assign-cases model unit p ps e) [
        | inl here ↦ absurd (cc (here.0, idle-wants p ps z))
        | inr (w, (qs, e', same)) ↦ subst Starved same (starved_here z units)
      ]
  assign-Starved unit (p ∷ ps) ps' (starved_there st) e = elim (assign-cases model unit p ps e) [
    | inl here ↦ subst Starved here.1 (starved_there st)
    | inr (w, (qs, e', same)) ↦ subst Starved same (starved_there (assign-Starved unit ps qs st e'))
  ]

  bottleneck-Starved :
      (idx m t : ℕ) (ps : List Placed) → Starved ps → bottleneck model idx m t ps ≡ none
  unfolding bottleneck
  bottleneck-Starved idx m t [] st = elim st [ ]
  bottleneck-Starved idx m t (p ∷ ps) (starved_here z units) =
      let h : (length p.units == 0) ≡ true = rw (units) in rw (h, bottleneck)
  bottleneck-Starved idx m t (p ∷ ps) (starved_there st) = elim (Bool-cases (length p.units == 0)) [
    | inl h ↦ rw (h, bottleneck)
    | inr h ↦ elim (Bool-cases (ltb m (get_latency_for_unit model p ps / length p.units))) [
      | inl l ↦
          let eq : bottleneck model idx m t (p ∷ ps)
              ≡ bottleneck model (suc idx) (get_latency_for_unit model p ps / length p.units) idx
                  ps =
            rw (h, l, bottleneck) in
          eq ∙ bottleneck-Starved (suc idx) _ idx ps st
      | inr l ↦
          let eq : bottleneck model idx m t (p ∷ ps) ≡ bottleneck model (suc idx) m t ps =
            rw (h, l, bottleneck) in
          eq ∙ bottleneck-Starved (suc idx) m t ps st
    ]
  ]

  unassigned-Starved : {ops : List Func} → Idle model ops → Starved (unassigned ops)
  unfolding unassigned
  unassigned-Starved (idle_here z) = starved_here z refl
  unassigned-Starved (idle_there i) = starved_there (unassigned-Starved i)

  -- Where communication costs nothing, as in both models, and a handler of the pipeline has latency
  -- 0, getMapping is undefined: the handler gets no unit, and its latency is divided by their
  -- number.
  pub get_mapping-Idle : (ops : List Func) → Idle model ops → get_mapping model ops ≡ none
  unfolding get_mapping get_unit_map
  get_mapping-Idle ops idle = none-chain _ (
      bottleneck-Starved 0 0 0 (get_unit_map model ops) (
        assign_all-invariant model Starved assign-Starved model.get_compute_units (unassigned ops)
          (unassigned-Starved idle)))
