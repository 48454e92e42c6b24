-- ===== src/Handlers/Components/Sources.antt =====
-- The handlers that the search puts into `initialHandlers`, and the order from there on.
use alkali.Prelude.{
  ℕ, zero, suc, ◌≡◌, refl, sym, ap, ◌∙◌, subst, Bool, true, false, List, [], ◌∷◌, ◌++◌,
  append_assoc, append-nil, some, some-injective, none-ne-some, pos, is_zero, inl, inr,
  if◌then◌else◌,
}
use alkali.Handlers.Maps.{at, any_of}
use alkali.Handlers.Sets.{any_of-or}
use alkali.Handlers.Components.{
  Graph, Degrees, Colored, visit, bfs, Components, new_component, add_component, color_all,
}
use alkali.Handlers.Components.Release.{any_of-one}
use alkali.Handlers.Components.Rounds.{color_all-cases}
use alkali.Handlers.Components.Order.{concat}

pub concat-snoc : (xss : List (List ℕ)) (ys : List ℕ) → concat (xss ++ (ys ∷ [])) ≡ concat xss ++ ys
concat-snoc [] ys = append-nil ys
concat-snoc (xs ∷ xss) ys =
    ap (λ zs. xs ++ zs) (concat-snoc xss ys) ∙ sym (append_assoc xs (concat xss) ys)

module _ (graph : Graph) (d : Degrees) where
  -- No edge leads to any of them.
  abbrev pub Sources : List ℕ → Type 0
  Sources vs = (v : ℕ) → any_of vs v ≡ true → is_zero (at (pos 0) d.in_degree v) ≡ true

  Sources-append : (xs ys : List ℕ) → Sources xs → Sources ys → Sources (xs ++ ys)
  Sources-append xs ys s t v m = elim (any_of-or xs ys v m) [ inl m' ↦ s v m' | inr m' ↦ t v m' ]

  visit-Sources :
      (c cur : ℕ) (s : Colored) → Sources s.nodes → Sources (visit graph d c cur s).nodes
  unfolding visit
  visit-Sources c cur s h = go (is_zero (at (pos 0) d.in_degree cur)) refl
    where
      go :
          (b : Bool)
          → is_zero (at (pos 0) d.in_degree cur) ≡ b
          → Sources (if b then s.nodes ++ (cur ∷ []) else s.nodes)
      go true e =
          Sources-append s.nodes (cur ∷ []) h
            (λ v m. subst (λ v'. is_zero (at (pos 0) d.in_degree v') ≡ true) (any_of-one cur v m) e)
      go false e = h

  bfs-Sources :
      (fuel c : ℕ) (worklist : List ℕ) (s : Colored) {s' : Colored}
      → Sources s.nodes
      → bfs graph d fuel c worklist s ≡ some s'
      → Sources s'.nodes
  unfolding bfs
  bfs-Sources fuel c [] s h e = subst (λ q. Sources q.nodes) (some-injective e) h
  bfs-Sources zero c (cur ∷ worklist) s h e = absurd (none-ne-some e)
  bfs-Sources (suc fuel) c (cur ∷ worklist) s h e =
      bfs-Sources fuel c _ (visit graph d c cur s) (visit-Sources c cur s h) e

  pub color_all-Sources :
      (fuel : ℕ) (g : Graph) (n : ℕ) (c : Components) {c' : Components}
      → Sources (concat c.initial_handlers)
      → color_all graph d fuel g n c ≡ some c'
      → Sources (concat c'.initial_handlers)
  unfolding color_all new_component add_component any_of
  color_all-Sources fuel [] n c h e =
      subst (λ q. Sources (concat q.initial_handlers)) (some-injective e) h
  color_all-Sources fuel ((handler, ts) ∷ rest) n c h e =
      elim (color_all-cases graph d fuel handler ts rest n c e) [
        | inl old ↦ color_all-Sources fuel rest n c h old.1
        | inr (new, (s, e₁, e₂)) ↦
            color_all-Sources fuel rest (suc n) (add_component c s)
              (subst Sources (sym (concat-snoc c.initial_handlers s.nodes)) (
                Sources-append (concat c.initial_handlers) s.nodes h
                  (bfs-Sources fuel n (handler ∷ []) (new_component c) (λ v m. absurd (cc m)) e₁)))
              e₂
      ]
