-- ===== src/Mapping/Search/Progress.antt =====
-- Each round of the search but the last lowers the latency, so that the search ends.
use alkali.Prelude.{
  ℕ, zero, suc, ◌+◌, ◌≤◌, ◌<◌, ◌≡◌, ◌≢◌, refl, sym, subst, Bool, true, false, List, [], ◌∷◌, ◌++◌,
  Option, none, some, ◌>>=◌, ltb, leb, ltb→lt, not_ltb→le, arith, if◌then◌else◌,
}
use alkali.Mapping.Model.{Func, PerformanceModel}
use alkali.Mapping.Greedy.{MappingResult, get_mapping}
use alkali.Mapping.Search.{
  PipelineMapper, pipeline_mapper, try_map, Search, ended, undefined_search, out_of_fuel,
  PipelineCutExplorer, search_loop, optimization_loop, pipeline_extra_search,
}

module _ (model : PerformanceModel) where
  -- What `tryMap` does.
  pub data Try (pipeline : List Func) (mapper : PipelineMapper)
      : Option (Bool × PipelineMapper) → Type 0 where
    undefined_try : get_mapping model pipeline ≡ none → Try pipeline mapper none
    better :
        {r : MappingResult}
        → get_mapping model pipeline ≡ some r
        → r.latency < mapper.mapping_result.latency
        → Try pipeline mapper (some (true, record { mapping_result = r; functions = pipeline }))
    not_better :
        {r : MappingResult}
        → get_mapping model pipeline ≡ some r
        → mapper.mapping_result.latency ≤ r.latency
        → Try pipeline mapper (some (false, mapper))

  pub try_map-Try :
      (pipeline : List Func) (mapper : PipelineMapper)
      → Try pipeline mapper (try_map model pipeline mapper)
  unfolding try_map
  try_map-Try pipeline mapper = go (get_mapping model pipeline) refl
    where
      go :
          (o : Option MappingResult)
          → get_mapping model pipeline ≡ o
          → Try pipeline mapper (
              o >>= (λ result. some (
                if ltb result.latency mapper.mapping_result.latency
                then (true, record { mapping_result = result; functions = pipeline })
                else (false, mapper))))
      go none e = undefined_try e
      go (some r) e = test (ltb r.latency mapper.mapping_result.latency) refl
        where
          test :
              (b : Bool)
              → ltb r.latency mapper.mapping_result.latency ≡ b
              → Try pipeline mapper (
                  some (
                    if b
                    then (true, record { mapping_result = r; functions = pipeline })
                    else (false, mapper)))
          test true h = better e (ltb→lt r.latency mapper.mapping_result.latency h)
          test false h = not_better e (not_ltb→le r.latency mapper.mapping_result.latency h)

  module _ (explorer : PipelineCutExplorer) where
    pub search_loop-nil :
        (fuel num : ℕ) (mapper : PipelineMapper)
        → search_loop model explorer fuel [] num mapper ≡ ended mapper
    unfolding search_loop
    search_loop-nil fuel num mapper = refl

    pub search_loop-zero :
        (num : ℕ) (pipeline : List Func) (pipelines : List (List Func)) (mapper : PipelineMapper)
        {mapper' : PipelineMapper}
        → search_loop model explorer 0 (pipeline ∷ pipelines) num mapper ≢ ended mapper'
    unfolding search_loop
    search_loop-zero num pipeline pipelines mapper e = cc e

    -- What one round of the loop does.
    pub data Round (pipeline : List Func) (pipelines : List (List Func)) (mapper : PipelineMapper)
        (fuel : ℕ) : Search → Type 0 where
      undefined_round :
          get_mapping model pipeline ≡ none → Round pipeline pipelines mapper fuel undefined_search
      last :
          {r : MappingResult}
          → get_mapping model pipeline ≡ some r
          → mapper.mapping_result.latency ≤ r.latency
          → Round pipeline pipelines mapper fuel (ended mapper)
      continued :
          {r : MappingResult}
          → get_mapping model pipeline ≡ some r
          → r.latency < mapper.mapping_result.latency
          → Round pipeline pipelines mapper fuel (
              search_loop model explorer fuel
                (pipelines ++ explorer.next pipeline r.bottleneck_index)
                0
                (record { mapping_result = r; functions = pipeline }))

    pub search_loop-Round :
        (fuel num : ℕ) (pipeline : List Func) (pipelines : List (List Func))
        (mapper : PipelineMapper)
        → Round pipeline pipelines mapper fuel
            (search_loop model explorer (suc fuel) (pipeline ∷ pipelines) num mapper)
    unfolding search_loop
    search_loop-Round fuel num pipeline pipelines mapper = go (try_map-Try pipeline mapper) refl
      where
        go :
            {o : Option (Bool × PipelineMapper)}
            → Try pipeline mapper o
            → try_map model pipeline mapper ≡ o
            → Round pipeline pipelines mapper fuel
                (search_loop model explorer (suc fuel) (pipeline ∷ pipelines) num mapper)
        go (undefined_try e) e' =
            let eq : search_loop model explorer (suc fuel) (pipeline ∷ pipelines) num mapper
                ≡ undefined_search =
              rw (e', search_loop) in
            subst (Round pipeline pipelines mapper fuel) (sym eq) (undefined_round e)
        go (better {r} e h) e' =
            let eq : search_loop model explorer (suc fuel) (pipeline ∷ pipelines) num mapper
                ≡ search_loop model explorer fuel
                    (pipelines ++ explorer.next pipeline r.bottleneck_index) 0
                    (record { mapping_result = r; functions = pipeline }) =
              rw (e', search_loop) in
            subst (Round pipeline pipelines mapper fuel) (sym eq) (continued e h)
        go (not_better e h) e' =
            let l : leb pipeline_extra_search (suc num) ≡ true = ground arith in
            let eq : search_loop model explorer (suc fuel) (pipeline ∷ pipelines) num mapper
                ≡ ended mapper =
              rw (e', search_loop, l) in
            subst (Round pipeline pipelines mapper fuel) (sym eq) (last e h)

    pub search_loop-fuel :
        (fuel num : ℕ) (pipelines : List (List Func)) (mapper : PipelineMapper)
        → mapper.mapping_result.latency < fuel
        → search_loop model explorer fuel pipelines num mapper ≢ out_of_fuel
    search_loop-fuel fuel num [] mapper h e =
        let eq : search_loop model explorer fuel [] num mapper ≡ ended mapper =
          search_loop-nil fuel num mapper in
        absurd (cc (eq, e))
    search_loop-fuel zero num (pipeline ∷ pipelines) mapper h e = absurd (omega (arith, h))
    search_loop-fuel (suc fuel) num (pipeline ∷ pipelines) mapper h e =
        go (search_loop-Round fuel num pipeline pipelines mapper) (search_loop-fuel fuel 0) e
      where
        go :
            {s : Search}
            → Round pipeline pipelines mapper fuel s
            → ((ps : List (List Func)) (m : PipelineMapper)
                → m.mapping_result.latency < fuel
                → search_loop model explorer fuel ps 0 m ≢ out_of_fuel)
            → s ≢ out_of_fuel
        go (undefined_round d) rest e = cc e
        go (last d h') rest e = cc e
        go (continued d h') rest e = rest _ _ (omega (arith, h, h')) e

  -- With fuel above the target and 1000, optimizationLoop does not run out of it, whatever the
  -- explorer proposes.
  pub optimization_loop-fuel :
      (explorer : PipelineCutExplorer) (fuel : ℕ) (func : Func)
      → model.get_latency_target + 1000 < fuel
      → optimization_loop model explorer fuel func ≢ out_of_fuel
  unfolding optimization_loop pipeline_mapper
  optimization_loop-fuel explorer fuel func h =
      search_loop-fuel explorer fuel 0 _ (pipeline_mapper model) h
