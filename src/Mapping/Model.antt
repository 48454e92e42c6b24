-- ===== src/Mapping/Model.antt =====
-- include/ep2/passes/Mapping.h: the performance models; and `isTableClean` of
-- lib/ep2/PipelineHandlerPass.cpp. A handler is the list of its operations.
use alkali.Prelude.{
  ℕ, zero, suc, ◌+◌, Bool, true, false, List, [], ◌∷◌, Option, none, some, ◌==◌, if◌then◌else◌,
}

-- The operations that the models tell apart; a lookup and an update with its key.
pub data Op : Type 0 where
  lookup_op : ℕ → Op
  update_op : ℕ → Op
  add_op sub_op emit_op extract_op other_op : Op

pub record Func : Type 0 where
  pub name : ℕ
  pub ops : List Op

unfoldable pub op_key : Op → Option ℕ
op_key (lookup_op key) = some key
op_key (update_op key) = some key
op_key _ = none

-- The walk of `isTableClean`, with its variables `key` and `keyUnique`.
unfoldable pub clean_walk : List Op → Option ℕ → Bool → Bool
unfolding op_key
clean_walk [] none key_unique = false
clean_walk [] (some key) key_unique = key_unique
clean_walk (op ∷ ops) key key_unique = elim (op_key op) [
  | none ↦ clean_walk ops key key_unique
  | some k ↦ elim key [
    | none ↦ clean_walk ops (some k) key_unique
    | some k₀ ↦ clean_walk ops (some k₀) (if k₀ == k then key_unique else false)
  ]
]

-- `isTableClean`: there is a table, and a single key.
unfoldable pub is_table_clean : Func → Bool
unfolding clean_walk
is_table_clean f = clean_walk f.ops none true

-- `PerformanceModel`, an abstract class; a compute unit is the number in its name.
pub record PerformanceModel : Type 0 where
  pub get_latency : Func → ℕ
  pub get_communication_cost : List ℕ → List ℕ → ℕ
  pub get_latency_target : ℕ
  pub get_compute_units : List ℕ

unfoldable pub fpga_latency : List Op → ℕ → ℕ
fpga_latency [] latency = latency
fpga_latency (lookup_op k ∷ ops) latency = fpga_latency ops 3
fpga_latency (update_op k ∷ ops) latency = fpga_latency ops 3
fpga_latency (_ ∷ ops) latency = fpga_latency ops latency

-- `n` units from number `i` on.
unfoldable pub vcus : ℕ → ℕ → List ℕ
vcus zero i = []
vcus (suc n) i = i ∷ vcus n (suc i)

-- `FPGAPerformanceModel`.
unfoldable pub fpga_model : PerformanceModel
unfolding fpga_latency vcus
fpga_model = record {
  get_latency = λ f. fpga_latency f.ops 1;
  get_communication_cost = λ froms tos. 0;
  get_latency_target = 1;
  get_compute_units = vcus 128 0;
}

unfoldable pub netronome_latency : List Op → ℕ
netronome_latency [] = 0
netronome_latency (lookup_op k ∷ ops) = 100 + netronome_latency ops
netronome_latency (update_op k ∷ ops) = 100 + netronome_latency ops
netronome_latency (other_op ∷ ops) = netronome_latency ops
netronome_latency (_ ∷ ops) = 1 + netronome_latency ops

-- `NetronomePerformanceModel`, which has no units 7 and 8.
unfoldable pub netronome_model : PerformanceModel
unfolding netronome_latency
netronome_model = record {
  get_latency = λ f. netronome_latency f.ops;
  get_communication_cost = λ froms tos. 0;
  get_latency_target = 100;
  get_compute_units =
      0 ∷ 1 ∷ 2 ∷ 3 ∷ 4 ∷ 5 ∷ 6 ∷ 9 ∷ 10 ∷ 11 ∷ 12 ∷ 13 ∷ 14 ∷ 15 ∷ 16 ∷ 17 ∷ 18 ∷ 19 ∷ 20 ∷ 21 ∷ 22
      ∷ 23 ∷ [];
}
