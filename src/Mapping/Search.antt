-- ===== src/Mapping/Search.antt =====
-- include/ep2/passes/Mapping.h and lib/ep2/Passes/Mapping/PipeliningPass.cpp: the search for a better
-- pipeline. A handler operation is known by its name.
pub mod Progress
pub mod Outcome
pub mod Finalize
use alkali.Prelude.{
  ℕ, zero, suc, ◌+◌, Bool, true, false, ◌||◌, List, [], ◌∷◌, ◌++◌, Option, none, some, ◌>>=◌, ltb,
  leb, ◌==◌, if◌then◌else◌, get_elem?, take, drop,
}
use alkali.Mapping.Model.{Func, PerformanceModel, is_table_clean}
use alkali.Mapping.Greedy.{Placed, MappingResult, get_mapping}

abbrev pub pipeline_extra_search : ℕ
pipeline_extra_search = 1

-- `PipelineMapper`; its model is a parameter of the operations.
pub record PipelineMapper : Type 0 where
  pub mapping_result : MappingResult
  pub functions : List Func

-- Its constructor.
unfoldable pub pipeline_mapper : PerformanceModel → PipelineMapper
pipeline_mapper model = record {
  mapping_result = record {
    latency = model.get_latency_target + 1000;
    bottleneck_index = 0;
    unit_map = [];
  };
  functions = [];
}

-- `tryMap`; the result that it returns beside the flag is the new mapper's.
unfoldable pub try_map :
    PerformanceModel → List Func → PipelineMapper → Option (Bool × PipelineMapper)
try_map model pipeline mapper = do
  result ← get_mapping model pipeline
  some (
      if ltb result.latency mapper.mapping_result.latency
      then (true, record { mapping_result = result; functions = pipeline })
      else (false, mapper))

-- What a search comes to: undefined at a division by zero.
pub data Search : Type 0 where
  ended : PipelineMapper → Search
  undefined_search out_of_fuel : Search

-- `PipelineCutExplorer`.
pub record PipelineCutExplorer : Type 0 where
  pub next : List Func → ℕ → List (List Func)

unfoldable pub any_table_clean : List Func → Bool
any_table_clean [] = false
any_table_clean (f ∷ fs) = is_table_clean f || any_table_clean fs

module _ (step_search : Func → ℕ × ℕ → List Func) where
  -- The loop of `tableCut`, on a step search with a source weight and a tolerance in tenths.
  unfoldable pub first_cut : Func → List (ℕ × ℕ) → Option (List Func)
  unfolding any_table_clean
  first_cut target_func [] = none
  first_cut target_func (params ∷ more) =
      let cuts = step_search target_func params in
      let rest = first_cut target_func more in if any_table_clean cuts then some cuts else rest

-- `i` from 1 to `n`, beside `j`.
unfoldable pub tolerances : ℕ → ℕ → ℕ → List (ℕ × ℕ)
tolerances j i zero = []
tolerances j i (suc n) = (j, i) ∷ tolerances j (suc i) n

-- `j` downwards.
unfoldable pub strong_cuts : ℕ → List (ℕ × ℕ)
unfolding tolerances
strong_cuts zero = tolerances 0 1 0
strong_cuts (suc j) = tolerances (suc j) 1 j ++ strong_cuts j

unfoldable pub weak_cuts : ℕ → ℕ → List (ℕ × ℕ)
weak_cuts i zero = []
weak_cuts i (suc n) = (i, i) ∷ weak_cuts (suc i) n

unfoldable pub cut_params : List (ℕ × ℕ)
unfolding strong_cuts weak_cuts
cut_params = strong_cuts 5 ++ weak_cuts 1 5

-- `tableCut`.
unfoldable pub table_cut : (Func → ℕ × ℕ → List Func) → Func → Option (List Func)
unfolding first_cut cut_params
table_cut step_search target_func = first_cut step_search target_func cut_params

-- `BottleneckExplorer`; an index out of the pipeline, where the source's is undefined, has no cut.
unfoldable pub bottleneck_explorer : (Func → ℕ × ℕ → List Func) → PipelineCutExplorer
bottleneck_explorer step_search = record {
  next = λ pipeline bottleneck_index. elim (get_elem? pipeline bottleneck_index) [
    | none ↦ []
    | some f ↦ elim (table_cut step_search f) [
      | none ↦ []
      | some new_funcs ↦
          (take bottleneck_index pipeline ++ (new_funcs ++ drop (suc bottleneck_index) pipeline))
          ∷ []
    ]
  ];
}

module _ (model : PerformanceModel) (explorer : PipelineCutExplorer) where
  -- The loop of `optimizationLoop`, with its queue and `numNonOpts`.
  unfoldable pub search_loop : ℕ → List (List Func) → ℕ → PipelineMapper → Search
  search_loop fuel [] num_non_opts mapper = ended mapper
  search_loop zero (pipeline ∷ pipelines) num_non_opts mapper = out_of_fuel
  search_loop (suc fuel) (pipeline ∷ pipelines) num_non_opts mapper =
      elim (try_map model pipeline mapper) [
        | none ↦ undefined_search
        | some (updated, mapper') ↦
            let num = if updated then 0 else suc num_non_opts in
            elim (leb pipeline_extra_search num) [
              | true ↦ ended mapper'
              | false ↦
                  search_loop fuel
                    (pipelines ++ explorer.next pipeline mapper'.mapping_result.bottleneck_index)
                    num mapper'
            ]
      ]

  -- `optimizationLoop`, on a new mapper.
  unfoldable pub optimization_loop : ℕ → Func → Search
  optimization_loop fuel func = search_loop fuel ((func ∷ []) ∷ []) 0 (pipeline_mapper model)
