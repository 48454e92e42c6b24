-- ===== src/Handlers/Components/Order.antt =====
-- The order that the second half of `getConnectedComponents` puts the handlers in.
use alkali.Prelude.{
  ℕ, zero, suc, ◌≤◌, ◌≡◌, ◌≢◌, sym, ap, ◌∙◌, subst, true, false, List, [], ◌∷◌, ◌++◌, append_assoc,
  append-nil, some, some-injective, none-ne-some, arith, ℤ, pos, inl, inr, ◌⊎◌,
}
use alkali.Handlers.Maps.{Map, at, any_of}
use alkali.Handlers.Sets.{Unique, any_of-no, any_of-cons, any_of-here, any_of-there}
use alkali.Handlers.Components.{Graph, edges, release, sort_nodes}
use alkali.Handlers.Components.Undirected.{count, open_edges}
use alkali.Handlers.Components.Release.Pushes.{release-pushes}
use alkali.Handlers.Components.Release.{
  keys, open_edges-step, open_edges-zero, release-Released, zero_or_positive,
}

-- Behind `done`, every handler stands once and behind those with an edge to it.
abbrev pub Topological : Graph → List ℕ → List ℕ → Type 0
Topological g done [] = Unit
Topological g done (v ∷ vs) =
    ((u : ℕ) → (count v (edges g u) ≡ 0) ⊎ (any_of done u ≡ true))
    × (any_of done v ≡ false)
    × Topological g (v ∷ done) vs

abbrev pub concat : List (List ℕ) → List ℕ
concat [] = []
concat (xs ∷ xss) = xs ++ concat xss

abbrev pub onto : List ℕ → List ℕ → List ℕ
onto [] done = done
onto (v ∷ vs) done = onto vs (v ∷ done)

pub Topological-append :
    (g : Graph) (done xs ys : List ℕ)
    → Topological g done xs
    → Topological g (onto xs done) ys
    → Topological g done (xs ++ ys)
Topological-append g done [] ys t t' = t'
Topological-append g done (x ∷ xs) ys (p, n, t) t' =
    (p, n, Topological-append g (x ∷ done) xs ys t t')

any_of-absent : (xs : List ℕ) (c v : ℕ) → any_of xs c ≡ false → any_of xs v ≡ true → c ≢ v
any_of-absent xs c v h h' e = cc (h, h', ap (any_of xs) e)

fresh-cons : (done : List ℕ) (c v : ℕ) → c ≢ v → any_of done v ≡ false → any_of (c ∷ done) v ≡ false
fresh-cons done c v ne h =
    any_of-no (c ∷ done) v
      (λ m. elim (any_of-cons c v done m) [ inl e ↦ ne e | inr m' ↦ cc (h, m') ])

-- Between two steps: `done` has its places, `worklist` is pushed and `later` will be.
pub record Sorting (g : Graph) (handlers done worklist later : List ℕ) (deg : Map ℤ) : Type 0 where
  pub degs : (v : ℕ) → at (pos 0) deg v ≡ pos (open_edges g done v)
  pub unique : Unique worklist
  pub zeros : (v : ℕ) → any_of worklist v ≡ true → open_edges g done v ≡ 0
  pub fresh : (v : ℕ) → any_of worklist v ≡ true → any_of done v ≡ false
  pub later_zeros : (v : ℕ) → any_of later v ≡ true → open_edges g done v ≡ 0
  pub later_fresh : (v : ℕ) → any_of later v ≡ true → any_of done v ≡ false
  pub apart : (v : ℕ) → any_of worklist v ≡ true → any_of later v ≡ false
  pub done_zeros : (v : ℕ) → any_of done v ≡ true → open_edges g done v ≡ 0
  pub complete :
      (v : ℕ)
      → any_of handlers v ≡ true
      → open_edges g done v ≡ 0
      → (any_of done v ≡ true) ⊎ ((any_of worklist v ≡ true) ⊎ (any_of later v ≡ true))

module _ (g : Graph) (unique_keys : Unique (keys g)) (handlers : List ℕ) where
  step-Sorting :
      (done worklist later : List ℕ) (cur : ℕ) (deg : Map ℤ)
      → Sorting g handlers done (cur ∷ worklist) later deg
      → Sorting g handlers
          (cur ∷ done)
          (release (edges g cur) worklist deg).0
          later
          (release (edges g cur) worklist deg).1
  step-Sorting done worklist later cur deg s =
      let fresh_cur = s.fresh cur (any_of-here cur worklist) in
      let zero_cur = s.zeros cur (any_of-here cur worklist) in
      let step = λ (v : ℕ). open_edges-step g done cur v unique_keys fresh_cur in
      let (degs', unique', zeros', from) =
        release-Released (open_edges g (cur ∷ done)) (edges g cur) worklist deg
          (λ v. s.degs v ∙ ap pos (step v)) s.unique.1
          (λ v m. sym (step v) ∙ s.zeros v (any_of-there cur v worklist m)) in
      let pushes = λ (v : ℕ).
        release-pushes (open_edges g (cur ∷ done)) (edges g cur) worklist deg v
          (λ w. s.degs w ∙ ap pos (step w)) in
      let less : (v : ℕ) → open_edges g done v ≡ 0 → open_edges g (cur ∷ done) v ≡ 0 =
        λ v e. omega (arith, e, step v) in
      let positive : (v : ℕ) → 1 ≤ count v (edges g cur) → open_edges g done v ≢ 0 =
        λ v h e. absurd (omega (arith, e, h, step v)) in
      record {
        degs = degs';
        unique = unique';
        zeros = zeros';
        fresh = λ v m. elim (from v m) [
          | inl old ↦
              fresh-cons done cur v (any_of-absent worklist cur v s.unique.0 old)
                (s.fresh v (any_of-there cur v worklist old))
          | inr new ↦
              fresh-cons done cur v
                (λ e. positive v new (subst (λ v'. open_edges g done v' ≡ 0) e zero_cur))
                (any_of-no done v (λ m'. positive v new (s.done_zeros v m')))
        ];
        later_zeros = λ v m. less v (s.later_zeros v m);
        later_fresh = λ v m.
            fresh-cons done cur v
              (any_of-absent later cur v (s.apart cur (any_of-here cur worklist)) m)
              (s.later_fresh v m);
        apart = λ v m. elim (from v m) [
          | inl old ↦ s.apart v (any_of-there cur v worklist old)
          | inr new ↦ any_of-no later v (λ m'. positive v new (s.later_zeros v m'))
        ];
        done_zeros = λ v m. less v (elim (any_of-cons cur v done m) [
          | inl e ↦ subst (λ v'. open_edges g done v' ≡ 0) e zero_cur
          | inr m' ↦ s.done_zeros v m'
        ]);
        complete = λ v k z. elim (zero_or_positive (open_edges g done v)) [
          | inr more ↦ inr (inl (pushes v (inr (omega (arith, more, z, step v), z))))
          | inl old ↦ elim (s.complete v k old) [
            | inl m ↦ inl (any_of-there cur v done m)
            | inr (inr m) ↦ inr (inr m)
            | inr (inl m) ↦ elim (any_of-cons cur v worklist m) [
              | inl e ↦ inl (subst (λ v'. any_of (cur ∷ done) v' ≡ true) e (any_of-here cur done))
              | inr m' ↦ inr (inl (pushes v (inl m')))
            ]
          ]
        ];
      }

  pub sort_nodes-Topological :
      (fuel : ℕ) (done worklist later : List ℕ) (deg : Map ℤ) (nodes : List ℕ) {nodes' : List ℕ}
      {deg' : Map ℤ}
      → Sorting g handlers done worklist later deg
      → sort_nodes g fuel worklist deg nodes ≡ some (nodes', deg')
      → (order : List ℕ) × (nodes' ≡ nodes ++ order)
        × Topological g done order
        × Sorting g handlers (onto order done) [] later deg'
  unfolding sort_nodes
  sort_nodes-Topological fuel done [] later deg nodes s e =
      let e' = some-injective e in
      (
        [],
        sym (ap (λ q. q.0) e') ∙ sym (append-nil nodes),
        tt,
        subst (Sorting g handlers done [] later) (ap (λ q. q.1) e') s,
      )
  sort_nodes-Topological zero done (cur ∷ worklist) later deg nodes s e = absurd (none-ne-some e)
  sort_nodes-Topological (suc fuel) done (cur ∷ worklist) later deg nodes s e =
      let (order, same, t, s') =
        sort_nodes-Topological fuel (cur ∷ done) _ later _ (nodes ++ (cur ∷ []))
          (step-Sorting done worklist later cur deg s) e in
      (
        cur ∷ order,
        same ∙ append_assoc nodes (cur ∷ []) order,
        (
          λ u. open_edges-zero g done cur u (s.zeros cur (any_of-here cur worklist)),
          s.fresh cur (any_of-here cur worklist),
          t,
        ),
        s',
      )
