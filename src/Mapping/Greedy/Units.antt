-- ===== src/Mapping/Greedy/Units.antt =====
-- The units that the handlers have are the first of the model's, each given once.
use mathlib.Core.List.{Perm, perm_middle}
use mathlib.Core.List.Perm
use alkali.Prelude.{
  ℕ, suc, ◌≤◌, ◌≡◌, refl, sym, ap, ◌∙◌, subst, false, List, [], ◌∷◌, ◌++◌, append_assoc, append-nil,
  Option, none, some, length, take, inl, inr, ◌⊎◌, Bool-cases, arith,
}
use alkali.Mapping.Model.{Func, PerformanceModel}
use alkali.Mapping.Greedy.{Placed, wants, assign, assign_all, unassigned, get_unit_map}
use alkali.Mapping.Greedy.Steps.{assign-nil}

abbrev pub all_units : List Placed → List ℕ
all_units [] = []
all_units (p ∷ ps) = p.units ++ all_units ps

abbrev pub funcs : List Placed → List Func
funcs [] = []
funcs (p ∷ ps) = p.func ∷ funcs ps

module _ (model : PerformanceModel) where
  -- Nobody wants one more unit.
  abbrev pub Sated : List Placed → Type 0
  Sated [] = Unit
  Sated (p ∷ ps) = (wants model p ps ≡ false) × Sated ps

  -- What one round of the outer loop does.
  pub data Round (unit : ℕ) (ps : List Placed) : Option (List Placed) → Type 0 where
    given :
        {ps' : List Placed}
        → Perm (all_units ps') (unit ∷ all_units ps)
        → funcs ps' ≡ funcs ps
        → Round unit ps (some ps')
    refused : Sated ps → Round unit ps none

  assign-Round : (unit : ℕ) (ps : List Placed) → Round unit ps (assign model unit ps)
  unfolding assign
  assign-Round unit [] = subst (Round unit []) (sym (assign-nil model unit)) (refused tt)
  assign-Round unit (p ∷ ps) = elim (Bool-cases (wants model p ps)) [
    | inl e ↦
        let eq : assign model unit (p ∷ ps)
            ≡ some (record p { units = p.units ++ (unit ∷ []) } ∷ ps) =
          rw (e, assign) in
        subst (Round unit (p ∷ ps)) (sym eq) (
          given
            (subst (λ us. Perm us (unit ∷ (p.units ++ all_units ps)))
              (sym (append_assoc p.units (unit ∷ []) (all_units ps)))
              (perm_middle p.units (all_units ps)))
            refl)
    | inr e ↦ behind e (assign-Round unit ps) refl
  ]
    where
      behind :
          wants model p ps ≡ false
          → {o : Option (List Placed)} → Round unit ps o
          → assign model unit ps ≡ o
          → Round unit (p ∷ ps) (assign model unit (p ∷ ps))
      behind e (given {ps'} perm same) e' =
          let eq : assign model unit (p ∷ ps) ≡ some (p ∷ ps') = rw (e, e', assign) in
          subst (Round unit (p ∷ ps)) (sym eq) (
            given (Perm.trans (Perm.append_left p.units perm) (perm_middle p.units (all_units ps)))
              (ap (λ fs. p.func ∷ fs) same))
      behind e (refused sated) e' =
          let eq : assign model unit (p ∷ ps) ≡ none = rw (e, e', assign) in
          subst (Round unit (p ∷ ps)) (sym eq) (refused (e, sated))

  -- What the outer loop makes of the first `k` units.
  abbrev pub Filled : List ℕ → List Placed → List Placed → ℕ → Type 0
  Filled units ps ps' k =
      (k ≤ length units)
      × Perm (all_units ps') (take k units ++ all_units ps)
      × (funcs ps' ≡ funcs ps)
      × ((k ≡ length units) ⊎ Sated ps')

  assign_all-after :
      (unit : ℕ) (units : List ℕ) (ps : List Placed)
      → ((ps' : List Placed) → (k : ℕ) × Filled units ps' (assign_all model units ps') k)
      → {o : Option (List Placed)} → Round unit ps o
      → assign model unit ps ≡ o
      → (k : ℕ) × Filled (unit ∷ units) ps (assign_all model (unit ∷ units) ps) k
  unfolding assign_all
  assign_all-after unit units ps rest (refused sated) e =
      let eq : assign_all model (unit ∷ units) ps ≡ ps = rw (e, assign_all) in
      subst (λ ps'. (k : ℕ) × Filled (unit ∷ units) ps ps' k) (sym eq)
        (0, (omega arith, Perm.refl (all_units ps), refl, inr sated))
  assign_all-after unit units ps rest (given {ps'} perm same) e =
      let eq : assign_all model (unit ∷ units) ps ≡ assign_all model units ps' =
        rw (e, assign_all) in
      let (k, (h, perm', same', end)) = rest ps' in
      subst (λ ps''. (k : ℕ) × Filled (unit ∷ units) ps ps'' k) (sym eq)
        (
          suc k,
          (
            omega arith,
            Perm.trans perm' (
                Perm.trans (Perm.append_left (take k units) perm)
                  (perm_middle (take k units) (all_units ps))),
            same' ∙ same,
            elim end [ inl e' ↦ inl (ap (λ n. suc n) e') | inr s ↦ inr s ],
          ),
        )

  pub assign_all-Filled :
      (units : List ℕ) (ps : List Placed) → (k : ℕ) × Filled units ps (assign_all model units ps) k
  unfolding assign_all
  assign_all-Filled [] ps = (0, (omega arith, Perm.refl (all_units ps), refl, inl refl))
  assign_all-Filled (unit ∷ units) ps =
      assign_all-after unit units ps (assign_all-Filled units) (assign-Round unit ps) refl

unassigned-units : (ops : List Func) → all_units (unassigned ops) ≡ []
unfolding unassigned
unassigned-units [] = refl
unassigned-units (f ∷ fs) = unassigned-units fs

unassigned-funcs : (ops : List Func) → funcs (unassigned ops) ≡ ops
unfolding unassigned
unassigned-funcs [] = refl
unassigned-funcs (f ∷ fs) = ap (λ gs. f ∷ gs) (unassigned-funcs fs)

-- The units that getMapping gives to the handlers of a pipeline together are, up to order, the first
-- of the model's units, each given once; the handlers stay as they are, and the loop ends because
-- there is no unit left or because no handler wants one more.
pub get_unit_map-units :
    (model : PerformanceModel) (ops : List Func)
    → (k : ℕ) × (k ≤ length model.get_compute_units)
      × Perm (all_units (get_unit_map model ops)) (take k model.get_compute_units)
      × (funcs (get_unit_map model ops) ≡ ops)
      × ((k ≡ length model.get_compute_units) ⊎ Sated model (get_unit_map model ops))
unfolding get_unit_map
get_unit_map-units model ops =
    let (k, (h, perm, same, end)) =
      assign_all-Filled model model.get_compute_units (unassigned ops) in
    (
      k,
      h,
      subst (Perm (all_units (get_unit_map model ops)))
          (ap (λ us. take k model.get_compute_units ++ us) (unassigned-units ops)
            ∙ append-nil (take k model.get_compute_units))
          perm,
      same ∙ unassigned-funcs ops,
      end,
    )
