-- ===== src/Mapping/Tests.antt =====
-- The mapping and the search on a pipeline of two handlers.
use alkali.Prelude.{
  ℕ, ◌≡◌, ◌≢◌, refl, ◌≤◌, ◌<◌, ◌⊎◌, true, false, List, [], ◌∷◌, none, some, arith, length, take,
  ◌+◌, ◌==◌, if◌then◌else◌,
}
use mathlib.Core.List.{Perm}
use alkali.Mapping.Model.{Op, Func, netronome_model, is_table_clean}
use alkali.Mapping.Greedy.{
  bottleneck, assign_all, assign, unassigned, wants, MappingResult, get_mapping, get_unit_map,
}
use alkali.Mapping.Greedy.Units.{all_units, funcs, Sated, get_unit_map-units}
use alkali.Mapping.Greedy.Target.{Single, get_unit_map-Single, get_mapping-target}
use alkali.Mapping.Greedy.Bottleneck.{AtMost, rate_at, get_mapping-latency}
use alkali.Mapping.Greedy.Idle.{Idle, get_mapping-Idle}
use alkali.Mapping.Search.{
  PipelineMapper, pipeline_mapper, PipelineCutExplorer, Search, search_loop, optimization_loop,
  bottleneck_explorer, table_cut, try_map,
}
use alkali.Mapping.Search.Progress.{optimization_loop-fuel}
use alkali.Mapping.Search.Outcome.{Mapped, optimization_loop-ended}
use alkali.Mapping.Search.Finalize.{FuncOp, finalize}
use alkali.Mapping.Search.Finalize.Instances.{
  finalize-slow, finalize-named, internals, named, with_units,
}

abbrev counter : Func
counter = record { name = 1; ops = Op.lookup_op 7 ∷ Op.add_op ∷ Op.update_op 7 ∷ [] }

abbrev sender : Func
sender = record { name = 2; ops = Op.lookup_op 3 ∷ Op.emit_op ∷ [] }

abbrev idler : Func
idler = record { name = 3; ops = Op.other_op ∷ [] }

abbrev both : List Func
both = counter ∷ sender ∷ []

abbrev both_mapping : MappingResult
both_mapping = record {
  latency = 67;
  bottleneck_index = 0;
  unit_map =
      record { func = counter; units = 0 ∷ 1 ∷ 2 ∷ [] }
      ∷ record { func = sender; units = 3 ∷ 4 ∷ [] }
      ∷ [];
}

both-mapped : get_mapping netronome_model both ≡ some both_mapping
unfolding get_mapping get_unit_map netronome_model bottleneck assign_all assign unassigned wants
    is_table_clean
both-mapped = refl

get_unit_map-units_example :
    (k : ℕ) × (k ≤ length netronome_model.get_compute_units)
    × Perm
        (all_units (get_unit_map netronome_model both))
        (take k netronome_model.get_compute_units)
    × (funcs (get_unit_map netronome_model both) ≡ both)
    × ((k ≡ length netronome_model.get_compute_units)
        ⊎ Sated netronome_model (get_unit_map netronome_model both))
get_unit_map-units_example = get_unit_map-units netronome_model both

get_unit_map-Single_example : Single (get_unit_map netronome_model both)
get_unit_map-Single_example = get_unit_map-Single netronome_model both

get_mapping-target_example :
    Perm (all_units both_mapping.unit_map) netronome_model.get_compute_units
    ⊎ (both_mapping.latency ≤ netronome_model.get_latency_target)
unfolding is_table_clean
get_mapping-target_example = get_mapping-target netronome_model both (refl, (refl, tt)) both-mapped

get_mapping-latency_example :
    AtMost netronome_model both_mapping.latency both_mapping.unit_map
    × (((both_mapping.latency ≡ 0) × (both_mapping.bottleneck_index ≡ 0))
        ⊎ (rate_at netronome_model both_mapping.unit_map both_mapping.bottleneck_index
            ≡ some both_mapping.latency))
get_mapping-latency_example = get_mapping-latency netronome_model both both-mapped

get_mapping-Idle_example : get_mapping netronome_model (counter ∷ idler ∷ []) ≡ none
unfolding netronome_model
get_mapping-Idle_example =
    get_mapping-Idle netronome_model (λ us vs. refl) (counter ∷ idler ∷ [])
      (Idle.idle_there (Idle.idle_here refl))

-- A handler with two tables, and the cut between them.
abbrev whole : Func
whole = record {
  name = 9;
  ops = Op.lookup_op 7 ∷ Op.add_op ∷ Op.update_op 7 ∷ Op.lookup_op 3 ∷ Op.emit_op ∷ [];
}

abbrev cut_whole : Func → ℕ × ℕ → List Func
cut_whole f params = if f.name == 9 then both else []

abbrev explorer : PipelineCutExplorer
explorer = bottleneck_explorer cut_whole

abbrev whole_mapping : MappingResult
whole_mapping = record {
  latency = 302;
  bottleneck_index = 0;
  unit_map = record { func = whole; units = 0 ∷ [] } ∷ [];
}

whole-mapped : get_mapping netronome_model (whole ∷ []) ≡ some whole_mapping
unfolding get_mapping get_unit_map netronome_model bottleneck assign_all assign unassigned wants
    is_table_clean
whole-mapped = refl

abbrev found : PipelineMapper
found = record { mapping_result = both_mapping; functions = both }

whole-ended : optimization_loop netronome_model explorer 4 whole ≡ Search.ended found
unfolding get_mapping get_unit_map netronome_model bottleneck assign_all assign unassigned wants
    is_table_clean optimization_loop search_loop try_map pipeline_mapper bottleneck_explorer
    table_cut
whole-ended = refl

optimization_loop-fuel_example :
    optimization_loop netronome_model explorer 1200 whole ≢ Search.out_of_fuel
unfolding netronome_model
optimization_loop-fuel_example =
    optimization_loop-fuel netronome_model explorer 1200 whole (omega arith)

optimization_loop-ended_example :
    ((whole_mapping.latency < netronome_model.get_latency_target + 1000)
      × (Mapped netronome_model found × (both_mapping.latency ≤ whole_mapping.latency)))
    ⊎ ((netronome_model.get_latency_target + 1000 ≤ whole_mapping.latency) × (both ≡ []))
optimization_loop-ended_example =
    optimization_loop-ended netronome_model explorer 4 whole {mapper' = found} whole-mapped
      whole-ended

abbrev module_ops : List FuncOp
module_ops =
    record { func = whole; is_extern = false; is_handler = true; instances = none }
    ∷ record { func = counter; is_extern = false; is_handler = true; instances = none }
    ∷ record { func = sender; is_extern = false; is_handler = true; instances = none }
    ∷ record { func = idler; is_extern = true; is_handler = true; instances = none }
    ∷ []

finalize-named_example :
    named 2 (finalize found module_ops) ≡ with_units (3 ∷ 4 ∷ []) (named 2 module_ops)
finalize-named_example =
    finalize-named found module_ops 1 {f = sender}
      {p = record { func = sender; units = 3 ∷ 4 ∷ [] }} ((λ e. omega (arith, e), tt), (tt, tt))
      refl refl

abbrev slow : Func
slow = record {
  name = 4;
  ops =
      Op.lookup_op 0
      ∷ Op.lookup_op 1
      ∷ Op.lookup_op 2
      ∷ Op.lookup_op 3
      ∷ Op.lookup_op 4
      ∷ Op.lookup_op 5
      ∷ Op.lookup_op 6
      ∷ Op.lookup_op 7
      ∷ Op.lookup_op 8
      ∷ Op.lookup_op 9
      ∷ Op.lookup_op 10
      ∷ [];
}

slow-mapped :
    get_mapping netronome_model (slow ∷ [])
    ≡ some (record {
      latency = 1100;
      bottleneck_index = 0;
      unit_map = record { func = slow; units = 0 ∷ [] } ∷ [];
    })
unfolding get_mapping get_unit_map netronome_model bottleneck assign_all assign unassigned wants
    is_table_clean
slow-mapped = refl

slow-ended :
    optimization_loop netronome_model explorer 4 slow
    ≡ Search.ended (pipeline_mapper netronome_model)
unfolding get_mapping get_unit_map netronome_model bottleneck assign_all assign unassigned wants
    is_table_clean optimization_loop search_loop try_map pipeline_mapper
slow-ended = refl

finalize-slow_example : internals (finalize (pipeline_mapper netronome_model) module_ops) ≡ []
unfolding netronome_model
finalize-slow_example =
    finalize-slow netronome_model explorer 4 slow module_ops slow-mapped (omega arith) slow-ended
