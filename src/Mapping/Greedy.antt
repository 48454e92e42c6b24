-- ===== src/Mapping/Greedy.antt =====
-- lib/ep2/Passes/Mapping/PerformanceModel.cpp: the greedy mapping. Latencies are no negative numbers,
-- in both models, and the vector of units of each handler stands beside it.
pub mod Units
pub mod Bottleneck
pub mod Steps
pub mod Target
pub mod Idle
use alkali.Prelude.{
  ℕ, zero, suc, ◌+◌, ◌*◌, ◌/◌, Bool, true, false, ◌&&◌, ◌||◌, not, List, [], ◌∷◌, ◌++◌, map, Option,
  none, some, ◌>>=◌, ltb, leb, ◌==◌, if◌then◌else◌, length,
}
use alkali.Mapping.Model.{Func, PerformanceModel, is_table_clean}

-- A handler of the pipeline with its units of `UnitMap`.
pub record Placed : Type 0 where
  pub func : Func
  pub units : List ℕ

pub record MappingResult : Type 0 where
  pub latency : ℕ
  pub bottleneck_index : ℕ
  pub unit_map : List Placed

-- `unitMap` before the first unit.
unfoldable pub unassigned : List Func → List Placed
unassigned [] = []
unassigned (f ∷ fs) = record { func = f; units = [] } ∷ unassigned fs

module _ (model : PerformanceModel) where
  -- `getLatencyForUnit` of a handler, with those behind it.
  unfoldable pub get_latency_for_unit : Placed → List Placed → ℕ
  get_latency_for_unit p [] = model.get_latency p.func + 0
  get_latency_for_unit p (q ∷ rest) =
      model.get_latency p.func + model.get_communication_cost p.units q.units

  -- The conditions of the inner loop: the handler needs one more unit and may have it.
  unfoldable pub wants : Placed → List Placed → Bool
  unfolding get_latency_for_unit
  wants p rest =
      if ltb (model.get_latency_target * length p.units) (get_latency_for_unit p rest)
      then (if not (is_table_clean p.func) && leb 1 (length p.units) then false else true)
      else false

  -- The inner loop for one unit; `none` if it is not assigned.
  unfoldable pub assign : ℕ → List Placed → Option (List Placed)
  assign unit [] = none
  assign unit (p ∷ rest) = elim (wants p rest) [
    | true ↦ some (record p { units = p.units ++ (unit ∷ []) } ∷ rest)
    | false ↦ do rest' ← assign unit rest; some (p ∷ rest')
  ]

  -- The outer loop, which stops at a unit that is not assigned.
  unfoldable pub assign_all : List ℕ → List Placed → List Placed
  assign_all [] ps = ps
  assign_all (unit ∷ units) ps = elim (assign unit ps) [
    | none ↦ ps
    | some ps' ↦ assign_all units ps'
  ]

  -- The last loop, from handler `idx` on; without units the division is undefined, `none`.
  unfoldable pub bottleneck : ℕ → ℕ → ℕ → List Placed → Option (ℕ × ℕ)
  bottleneck idx max_latency target_index [] = some (max_latency, target_index)
  bottleneck idx max_latency target_index (p ∷ rest) = elim (length p.units == 0) [
    | true ↦ none
    | false ↦
        let total_latency = get_latency_for_unit p rest / length p.units in
        elim (ltb max_latency total_latency) [
          | true ↦ bottleneck (suc idx) total_latency idx rest
          | false ↦ bottleneck (suc idx) max_latency target_index rest
        ]
  ]

  unfoldable pub get_unit_map : List Func → List Placed
  get_unit_map ops = assign_all model.get_compute_units (unassigned ops)

  -- `getMapping`.
  unfoldable pub get_mapping : List Func → Option MappingResult
  get_mapping ops = do
    let unit_map = get_unit_map ops
    (max_latency, target_index) ← bottleneck 0 0 0 unit_map
    some (record { latency = max_latency; bottleneck_index = target_index; unit_map = unit_map })
