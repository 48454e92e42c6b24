-- ===== src/Handlers/Components/Initials.antt =====
-- The initial handlers of a component have its color.
use alkali.Prelude.{
  ℕ, zero, suc, ◌≡◌, ◌≢◌, refl, sym, ◌∙◌, subst, Bool, true, false, List, [], ◌∷◌, ◌++◌, some,
  some-injective, none-ne-some, arith, inl, inr, get_elem?, length, length-append, pos, is_zero,
  if◌then◌else◌, ==_iff,
}
use alkali.Handlers.Maps.{at, any_of}
use alkali.Handlers.Sets.{any_of-or}
use alkali.Handlers.Components.{
  Graph, Degrees, Colored, visit, bfs, Components, new_component, add_component, color_all,
}
use alkali.Handlers.Components.Release.{any_of-one}
use alkali.Handlers.Components.Symmetric.{Near}
use alkali.Handlers.Components.Searched.{color_of, color_of-put}
use alkali.Handlers.Components.Rounds.{color_all-cases}
use alkali.Handlers.Components.Connected.{bfs-Searching}
use alkali.Handlers.Components.Partition.{Partition, get_elem?-snoc, start-Searching, add-Partition}

-- The nodes that a search has taken have its color.
Taken : ℕ → Colored → Type 0
Taken n s = (v : ℕ) → any_of s.nodes v ≡ true → color_of s.color v ≡ n

-- And those of every component its own.
pub record Initials (n : ℕ) (c : Components) : Type 0 where
  pub size : suc (length c.initial_handlers) ≡ n
  pub colored :
      (i : ℕ) (nodes : List ℕ)
      → get_elem? c.initial_handlers i ≡ some nodes
      → (v : ℕ) → any_of nodes v ≡ true
      → color_of c.color v ≡ suc i

module _ (graph : Graph) (d : Degrees) where
  visit-Taken : (n cur : ℕ) (s : Colored) → Taken n s → Taken n (visit graph d n cur s)
  unfolding Taken visit
  visit-Taken n cur s h v m = elim (color_of-put s.color cur n v) [
    | inl (e, cv) ↦ cv
    | inr (ne, cv) ↦ cv ∙ h v (old (is_zero (at (pos 0) d.in_degree cur)) ne m)
  ]
    where
      old :
          (b : Bool)
          → cur ≢ v
          → any_of (if b then s.nodes ++ (cur ∷ []) else s.nodes) v ≡ true
          → any_of s.nodes v ≡ true
      old true ne m' = elim (any_of-or s.nodes (cur ∷ []) v m') [
        | inl k ↦ k
        | inr k ↦ absurd (ne (any_of-one cur v k))
      ]
      old false ne m' = m'

  bfs-Taken :
      (fuel n : ℕ) (worklist : List ℕ) (s : Colored) {s' : Colored}
      → Taken n s
      → bfs graph d fuel n worklist s ≡ some s'
      → Taken n s'
  unfolding bfs
  bfs-Taken fuel n [] s h e = subst (Taken n) (some-injective e) h
  bfs-Taken zero n (cur ∷ worklist) s h e = absurd (none-ne-some e)
  bfs-Taken (suc fuel) n (cur ∷ worklist) s h e =
      bfs-Taken fuel n _ (visit graph d n cur s) (visit-Taken n cur s h) e

  module _ (symmetric : (u v : ℕ) → Near d.undirected_graph u v → Near d.undirected_graph v u) where
    pub color_all-Initials :
        (fuel n : ℕ) (g : Graph) (c : Components) {c' : Components}
        → Partition d.undirected_graph n c
        → Initials n c
        → color_all graph d fuel g n c ≡ some c'
        → (n' : ℕ) × Initials n' c'
    unfolding color_all add_component new_component Taken any_of
    color_all-Initials fuel n [] c p i e = (n, subst (Initials n) (some-injective e) i)
    color_all-Initials fuel n ((handler, ts) ∷ g) c p i e =
        elim (color_all-cases graph d fuel handler ts g n c e) [
          | inl (old, e') ↦ color_all-Initials fuel n g c p i e'
          | inr (new, (s, e₁, e₂)) ↦
              let start =
                start-Searching graph d symmetric n handler c p
                  ((==_iff (at 0 c.color handler) 0).0 new) in
              let done =
                bfs-Searching graph d symmetric fuel n c.color (handler ∷ []) (new_component c)
                  start e₁ in
              let taken =
                bfs-Taken fuel n (handler ∷ []) (new_component c) (λ v m. absurd (cc m)) e₁ in
              color_all-Initials fuel (suc n) g (add_component c s)
                (add-Partition graph d symmetric n c s p done)
                (record {
                  size =
                      (let h = i.size in
                        omega (arith, h, length-append c.initial_handlers (s.nodes ∷ [])));
                  colored = λ j nodes at_j v m.
                      elim (get_elem?-snoc c.initial_handlers s.nodes j at_j) [
                        | inl (h, at_j') ↦ elim (done.kept v) [
                          | inl same ↦ same ∙ i.colored j nodes at_j' v m
                          | inr (z, colored) ↦
                              absurd (let b = i.colored j nodes at_j' v m in omega (arith, b, z))
                        ]
                        | inr (h, last) ↦
                            let b = taken v (subst (λ q. any_of q v ≡ true) (sym last) m) in
                            let l = i.size in omega (arith, b, h, l)
                      ];
                })
                e₂
        ]

pub empty-Initials : Initials 1 (record { color = []; sub_graphs = []; initial_handlers = [] })
empty-Initials = record { size = refl; colored = λ i nodes e. absurd (none-ne-some e) }
