-- ===== src/Mapping/Greedy/Steps.antt =====
-- The loops of `getMapping`, step by step.
use alkali.Prelude.{
  ℕ, ◌≡◌, refl, sym, ◌∙◌, subst, true, false, List, [], ◌∷◌, ◌++◌, none, some, some-injective,
  none-ne-some, inl, inr, ◌⊎◌, Bool-cases, Option-cases,
}
use alkali.Mapping.Model.{PerformanceModel}
use alkali.Mapping.Greedy.{Placed, wants, assign, assign_all}

module _ (model : PerformanceModel) where
  -- The unit goes to the first handler, or to one behind it.
  pub assign-cases :
      (unit : ℕ) (p : Placed) (ps : List Placed) {ps' : List Placed}
      → assign model unit (p ∷ ps) ≡ some ps'
      → ((wants model p ps ≡ true) × (record p { units = p.units ++ (unit ∷ []) } ∷ ps ≡ ps'))
        ⊎ ((wants model p ps ≡ false)
            × ((qs : List Placed) × (assign model unit ps ≡ some qs) × (p ∷ qs ≡ ps')))
  unfolding assign
  assign-cases unit p ps {ps'} e = elim (Bool-cases (wants model p ps)) [
    | inl w ↦
        let eq : assign model unit (p ∷ ps)
            ≡ some (record p { units = p.units ++ (unit ∷ []) } ∷ ps) =
          rw (w, assign) in
        inl (w, some-injective (sym eq ∙ e))
    | inr w ↦ elim (Option-cases (assign model unit ps)) [
      | inl n ↦
          let eq : assign model unit (p ∷ ps) ≡ none = rw (w, n, assign) in
          absurd (none-ne-some (sym eq ∙ e))
      | inr q ↦
          let e' = q.1 in
          let eq : assign model unit (p ∷ ps) ≡ some (p ∷ q.0) = rw (w, e', assign) in
          inr (w, (q.0, e', some-injective (sym eq ∙ e)))
    ]
  ]

  pub assign-nil : (unit : ℕ) → assign model unit [] ≡ none
  unfolding assign
  assign-nil unit = refl

  -- What each assignment preserves holds behind all.
  pub assign_all-invariant :
      (P : List Placed → Type 0)
      → ((unit : ℕ) (ps ps' : List Placed) → P ps → assign model unit ps ≡ some ps' → P ps')
      → (units : List ℕ) (ps : List Placed) → P ps
      → P (assign_all model units ps)
  unfolding assign_all
  assign_all-invariant P step [] ps h = h
  assign_all-invariant P step (unit ∷ units) ps h = elim (Option-cases (assign model unit ps)) [
    | inl n ↦
        let eq : assign_all model (unit ∷ units) ps ≡ ps = rw (n, assign_all) in subst P (sym eq) h
    | inr q ↦
        let e' = q.1 in
        let eq : assign_all model (unit ∷ units) ps ≡ assign_all model units q.0 =
          rw (e', assign_all) in
        subst P (sym eq) (assign_all-invariant P step units q.0 (step unit ps q.0 h e'))
  ]
