-- ===== src/Handlers/Components/Rounds.antt =====
-- The loops of the search, step by step.
use alkali.Prelude.{
  ℕ, suc, ◌≡◌, sym, ◌∙◌, true, false, List, [], ◌∷◌, some, some-of_chain, ◌>>=◌, Bool-cases, inl,
  inr, ◌⊎◌, ◌==◌,
}
use alkali.Handlers.Maps.{at}
use alkali.Handlers.Components.{
  Graph, Degrees, Colored, bfs, Components, new_component, add_component, color_all,
}

module _ (graph : Graph) (d : Degrees) where
  pub color_all-cases :
      (fuel handler : ℕ) (ts : List ℕ) (rest : Graph) (n : ℕ) (c : Components) {c' : Components}
      → color_all graph d fuel ((handler, ts) ∷ rest) n c ≡ some c'
      → (((at 0 c.color handler == 0) ≡ false) × (color_all graph d fuel rest n c ≡ some c'))
        ⊎ (((at 0 c.color handler == 0) ≡ true)
            × ((s : Colored) × (bfs graph d fuel n (handler ∷ []) (new_component c) ≡ some s)
                × (color_all graph d fuel rest (suc n) (add_component c s) ≡ some c')))
  unfolding color_all
  color_all-cases fuel handler ts rest n c e = elim (Bool-cases (at 0 c.color handler == 0)) [
    | inr colored ↦
        let eq : color_all graph d fuel ((handler, ts) ∷ rest) n c
            ≡ color_all graph d fuel rest n c =
          rw (colored, color_all) in
        inl (colored, sym eq ∙ e)
    | inl new ↦
        let eq : color_all graph d fuel ((handler, ts) ∷ rest) n c ≡ (
            bfs graph d fuel n (handler ∷ []) (new_component c)
            >>= (λ s. color_all graph d fuel rest (suc n) (add_component c s))) =
          rw (new, color_all) in
        inr
          (new, some-of_chain (bfs graph d fuel n (handler ∷ []) (new_component c)) _ (sym eq ∙ e))
  ]
