-- ===== src/Mapping/Search/Finalize.antt =====
-- `finalize` of include/ep2/passes/Mapping.h: the handlers of the module behind the search.
pub mod Instances
use alkali.Prelude.{
  ℕ, zero, suc, Bool, true, false, not, ◌&&◌, ◌||◌, List, [], ◌∷◌, Option, none, some, ◌==◌,
  if◌then◌else◌,
}
use alkali.Mapping.Model.{Func}
use alkali.Mapping.Greedy.{Placed}
use alkali.Mapping.Search.{PipelineMapper}

-- A function of the module, with its attribute `instances`.
pub record FuncOp : Type 0 where
  pub func : Func
  pub is_extern : Bool
  pub is_handler : Bool
  pub instances : Option (List ℕ)

unfoldable pub find_function : List Func → ℕ → Bool
find_function [] name = false
find_function (f ∷ fs) name = (f.name == name) || find_function fs name

-- The handlers that `finalize` looks at.
abbrev pub is_internal : FuncOp → Bool
is_internal op = not op.is_extern && op.is_handler

-- The walk, and the removal of what its guard has.
unfoldable pub remove_others : List Func → List FuncOp → List FuncOp
unfolding find_function
remove_others functions [] = []
remove_others functions (op ∷ ops) =
    let rest = remove_others functions ops in
    if is_internal op && not (find_function functions op.func.name) then rest else op ∷ rest

-- `setAttr` on the operation with a name.
unfoldable pub set_attr : ℕ → List ℕ → List FuncOp → List FuncOp
set_attr name units [] = []
set_attr name units (op ∷ ops) =
    (if op.func.name == name then record op { instances = some units } else op)
    ∷ set_attr name units ops

-- The last loop; a function that is not in the map has no units.
unfoldable pub set_instances : List Func → List Placed → List FuncOp → List FuncOp
unfolding set_attr
set_instances [] unit_map ops = ops
set_instances (f ∷ fs) [] ops = set_instances fs [] (set_attr f.name [] ops)
set_instances (f ∷ fs) (p ∷ ps) ops = set_instances fs ps (set_attr f.name p.units ops)

unfoldable pub finalize : PipelineMapper → List FuncOp → List FuncOp
unfolding remove_others set_instances
finalize mapper ops =
    set_instances mapper.functions mapper.mapping_result.unit_map
      (remove_others mapper.functions ops)
