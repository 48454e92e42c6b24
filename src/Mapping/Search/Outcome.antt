-- ===== src/Mapping/Search/Outcome.antt =====
-- What the search ends with: the best pipeline, mapped, or nothing.
use alkali.Prelude.{
  ℕ, zero, suc, ◌+◌, ◌≤◌, ◌<◌, ◌≡◌, sym, ap, ◌∙◌, subst, List, [], ◌∷◌, some, some-injective,
  none-ne-some, inl, inr, ◌⊎◌, arith,
}
use alkali.Mapping.Model.{Func, PerformanceModel}
use alkali.Mapping.Greedy.{MappingResult, get_mapping}
use alkali.Mapping.Search.{
  PipelineMapper, pipeline_mapper, Search, ended, PipelineCutExplorer, search_loop,
  optimization_loop,
}
use alkali.Mapping.Search.Progress.{
  Round, undefined_round, last, continued, search_loop-Round, search_loop-nil, search_loop-zero,
}

module _ (model : PerformanceModel) where
  -- The mapper holds a pipeline with its own mapping.
  abbrev pub Mapped : PipelineMapper → Type 0
  Mapped mapper = get_mapping model mapper.functions ≡ some mapper.mapping_result

  -- A search from one mapper to another.
  abbrev pub Improved : PipelineMapper → PipelineMapper → Type 0
  Improved mapper mapper' =
      (mapper' ≡ mapper)
      ⊎ (Mapped mapper' × (mapper'.mapping_result.latency < mapper.mapping_result.latency))

  ended-injective : {m m' : PipelineMapper} → ended m ≡ ended m' → m ≡ m'
  ended-injective e = cc e

  module _ (explorer : PipelineCutExplorer) where
    step-Improved :
        {fuel : ℕ} {pipeline : List Func} {pipelines : List (List Func)} {mapper : PipelineMapper}
        {mapper' : PipelineMapper} {s : Search}
        → ((ps : List (List Func)) (m : PipelineMapper)
            → search_loop model explorer fuel ps 0 m ≡ ended mapper'
            → Improved m mapper')
        → Round model explorer pipeline pipelines mapper fuel s
        → s ≡ ended mapper'
        → Improved mapper mapper'
    step-Improved rest (undefined_round d) e = absurd (cc e)
    step-Improved rest (last d h) e = inl (sym (ended-injective e))
    step-Improved {mapper = mapper} rest (continued d h) e = elim (rest _ _ e) [
      | inl same ↦ inr (
          subst (λ m. Mapped m × (m.mapping_result.latency < mapper.mapping_result.latency))
            (sym same) (d, h))
      | inr i ↦ inr (i.0, omega (arith, i.1, h))
    ]

    search_loop-Improved :
        (fuel num : ℕ) (pipelines : List (List Func)) (mapper : PipelineMapper)
        {mapper' : PipelineMapper}
        → search_loop model explorer fuel pipelines num mapper ≡ ended mapper'
        → Improved mapper mapper'
    search_loop-Improved fuel num [] mapper e =
        inl (ended-injective (sym e ∙ search_loop-nil model explorer fuel num mapper))
    search_loop-Improved zero num (pipeline ∷ pipelines) mapper e =
        absurd (search_loop-zero model explorer num pipeline pipelines mapper e)
    search_loop-Improved (suc fuel) num (pipeline ∷ pipelines) mapper e =
        step-Improved (λ ps m. search_loop-Improved fuel 0 ps m)
          (search_loop-Round model explorer fuel num pipeline pipelines mapper) e

    first-Round :
        {fuel : ℕ} {pipeline : List Func} {mapper' : PipelineMapper} {s : Search}
        {r : MappingResult} (mapper : PipelineMapper)
        → Round model explorer pipeline [] mapper fuel s
        → s ≡ ended mapper'
        → get_mapping model pipeline ≡ some r
        → ((r.latency < mapper.mapping_result.latency)
            × (Mapped mapper' × (mapper'.mapping_result.latency ≤ r.latency)))
          ⊎ ((mapper.mapping_result.latency ≤ r.latency) × (mapper' ≡ mapper))
    first-Round mapper (undefined_round d) e m = absurd (none-ne-some (sym d ∙ m))
    first-Round mapper (last d h) e m =
        let same = some-injective (sym d ∙ m) in
        inr (subst (λ q. mapper.mapping_result.latency ≤ q.latency) same h, sym (ended-injective e))
    first-Round {fuel} {pipeline} {mapper'} {r = r} mapper (continued {r = r'} d h) e m =
        let same : r' ≡ r = some-injective (sym d ∙ m) in
        inl (
          subst (λ q. q.latency < mapper.mapping_result.latency) same h,
          elim (search_loop-Improved fuel 0 _ _ e) [
            | inl i ↦
                subst (λ q. Mapped q × (q.mapping_result.latency ≤ r.latency)) (sym i)
                  (d, subst (λ q. q.latency ≤ r.latency) (sym same) (omega arith))
            | inr i ↦ (
              i.0,
              subst (λ q. mapper'.mapping_result.latency ≤ q.latency) same (omega (arith, i.1)),
            )
          ],
        )

    -- Where the handler alone has a mapping and optimizationLoop ends: with a latency below the
    -- target and 1000, the mapper holds a pipeline with its own mapping, no slower than the handler
    -- alone; otherwise it holds no function.
    pub optimization_loop-ended :
        (fuel : ℕ) (func : Func) {r : MappingResult} {mapper' : PipelineMapper}
        → get_mapping model (func ∷ []) ≡ some r
        → optimization_loop model explorer fuel func ≡ ended mapper'
        → ((r.latency < model.get_latency_target + 1000)
            × (Mapped mapper' × (mapper'.mapping_result.latency ≤ r.latency)))
          ⊎ ((model.get_latency_target + 1000 ≤ r.latency) × (mapper'.functions ≡ []))
    unfolding optimization_loop pipeline_mapper
    optimization_loop-ended zero func m e =
        absurd (search_loop-zero model explorer 0 (func ∷ []) [] (pipeline_mapper model) e)
    optimization_loop-ended (suc fuel) func m e =
        elim (first-Round (pipeline_mapper model)
          (search_loop-Round model explorer fuel 0 (func ∷ []) [] (pipeline_mapper model)) e m) [
            | inl better ↦ inl better
            | inr not_better ↦ inr (not_better.0, ap (λ q. q.functions) not_better.1)
          ]
