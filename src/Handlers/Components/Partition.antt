-- ===== src/Handlers/Components/Partition.antt =====
-- The subgraphs as a partition of the handlers.
use alkali.Prelude.{
  ℕ, zero, suc, ◌≤◌, ◌<◌, ◌≡◌, ◌↔◌, refl, sym, ◌∙◌, subst, true, List, [], ◌∷◌, ◌++◌, some,
  some-injective, none-ne-some, ==_iff, arith, inl, inr, ◌⊎◌, length, length-append, get_elem?,
}
use alkali.Handlers.Maps.{Map, at, any_of}
use alkali.Handlers.Sets.{any_of-cons}
use alkali.Handlers.Components.{
  Graph, Degrees, Colored, visit, bfs, Components, new_component, add_component, color_all,
}
use alkali.Handlers.Components.Release.{keys, any_of-one}
use alkali.Handlers.Components.Symmetric.{Near}
use alkali.Handlers.Components.Searched.{color_of, color_of-put}
use alkali.Handlers.Components.Rounds.{color_all-cases}
use alkali.Handlers.Components.Connected.{Searching, visit-Searching, bfs-Searching}

pub get_elem?-snoc :
    {A : Type 0} (xs : List A) (y : A) (i : ℕ) {x : A}
    → get_elem? (xs ++ (y ∷ [])) i ≡ some x
    → ((i < length xs) × (get_elem? xs i ≡ some x)) ⊎ ((i ≡ length xs) × (y ≡ x))
get_elem?-snoc [] y zero e = inr (refl, some-injective e)
get_elem?-snoc [] y (suc i) e = absurd (none-ne-some e)
get_elem?-snoc (z ∷ xs) y zero e = inl (omega arith, e)
get_elem?-snoc (z ∷ xs) y (suc i) e = elim (get_elem?-snoc xs y i e) [
  | inl (h, e') ↦ inl (omega (arith, h), e')
  | inr (h, e') ↦ inr (omega (arith, h), e')
]

pub get_elem?-some :
    {A : Type 0} (xs : List A) (i : ℕ) → i < length xs → (x : A) × (get_elem? xs i ≡ some x)
get_elem?-some [] i h = absurd (omega (arith, h))
get_elem?-some (x ∷ xs) zero h = (x, refl)
get_elem?-some (x ∷ xs) (suc i) h = get_elem?-some xs i (omega (arith, h))

-- Between two rounds, the next with color `n`.
pub record Partition (und : Graph) (n : ℕ) (c : Components) : Type 0 where
  pub ends :
      (x t : ℕ)
      → Near und x t
      → (color_of c.color x ≡ 0) ⊎ (color_of c.color t ≡ color_of c.color x)
  pub below : (v : ℕ) → color_of c.color v < n
  pub number : suc (length c.sub_graphs) ≡ n
  pub parts :
      (i : ℕ) (sg : Graph)
      → get_elem? c.sub_graphs i ≡ some sg
      → (v : ℕ) → (any_of (keys sg) v ≡ true) ↔ (color_of c.color v ≡ suc i)

restart :
    {und : Graph} {c : ℕ} {before : Map ℕ} {worklist : List ℕ} {s : Colored}
    → Searching und c before worklist s
    → Searching und c s.color worklist s
restart i = record {
  ends = i.ends;
  pending = i.pending;
  kept = λ v. inl refl;
  within = i.within;
  whole = i.whole;
}

module _ (graph : Graph) (d : Degrees)
    (symmetric : (u v : ℕ) → Near d.undirected_graph u v → Near d.undirected_graph v u) where
  pub start-Searching :
      (n handler : ℕ) (c : Components)
      → Partition d.undirected_graph n c
      → color_of c.color handler ≡ 0
      → Searching d.undirected_graph n c.color (handler ∷ []) (new_component c)
  unfolding new_component any_of
  start-Searching n handler c p z = record {
    ends = λ x t near. elim (p.ends x t near) [ inl e ↦ inl e | inr e ↦ inr (inl e) ];
    pending = λ t m. inl (subst (λ t'. color_of c.color t' ≡ 0) (any_of-one handler t m) z);
    kept = λ v. inl refl;
    within = λ v m. absurd (cc m);
    whole = λ v e. (let h = p.below v in absurd (omega (arith, h, e)));
  }

  -- The handler that a search starts from gets the color.
  pub bfs-first :
      (fuel n handler : ℕ) (before : Map ℕ) (s : Colored) {s' : Colored}
      → Searching d.undirected_graph n before (handler ∷ []) s
      → bfs graph d fuel n (handler ∷ []) s ≡ some s'
      → color_of s'.color handler ≡ n
  unfolding bfs visit
  bfs-first zero n handler before s i e = absurd (none-ne-some e)
  bfs-first (suc fuel) n handler before s i e =
      let i' = visit-Searching graph d symmetric n handler before [] s i in
      let done =
        bfs-Searching graph d symmetric fuel n (visit graph d n handler s).color _
          (visit graph d n handler s) (restart i') e in
      elim (color_of-put s.color handler n handler) [
        | inr (ne, h) ↦ absurd (ne refl)
        | inl (h, first) ↦ elim (done.kept handler) [
          | inl same ↦ same ∙ first
          | inr (z, colored) ↦ colored
        ]
      ]

  pub add-Partition :
      (n : ℕ) (c : Components) (s : Colored)
      → Partition d.undirected_graph n c
      → Searching d.undirected_graph n c.color [] s
      → Partition d.undirected_graph (suc n) (add_component c s)
  unfolding add_component any_of
  add-Partition n c s p i = record {
    ends = λ x t near. elim (i.ends x t near) [
      | inl z ↦ inl z
      | inr (inl e) ↦ inr e
      | inr (inr (e, m)) ↦ absurd (cc m)
    ];
    below = λ v. elim (i.kept v) [
      | inl e ↦ (let h = p.below v in omega (arith, e, h))
      | inr (z, e) ↦ omega (arith, e)
    ];
    number = (let h = p.number in omega (arith, h, length-append c.sub_graphs (s.sub_graph ∷ [])));
    parts = λ j sg e v. elim (get_elem?-snoc c.sub_graphs s.sub_graph j e) [
      | inl (h, e') ↦ (
        λ m.
            (let before = (p.parts j sg e' v).0 m in
              elim (i.kept v) [
                | inl same ↦ same ∙ before
                | inr (z, colored) ↦ absurd (omega (arith, before, z))
              ]),
        λ at. elim (i.kept v) [
          | inl same ↦ (p.parts j sg e' v).1 (sym same ∙ at)
          | inr (z, colored) ↦ (let l = p.number in absurd (omega (arith, at, colored, h, l)))
        ],
      )
      | inr (h, e') ↦ (
        λ m.
            (let at = i.within v (subst (λ g. any_of (keys g) v ≡ true) (sym e') m) in
              let l = p.number in omega (arith, at, h, l)),
        λ at.
            (let l = p.number in
              subst (λ g. any_of (keys g) v ≡ true) e' (i.whole v (omega (arith, at, h, l)))),
      )
    ];
  }

  pub color_all-Partition :
      (fuel n : ℕ) (g : Graph) (c : Components) {c' : Components}
      → Partition d.undirected_graph n c
      → color_all graph d fuel g n c ≡ some c'
      → ((n' : ℕ) × Partition d.undirected_graph n' c')
        × ((v : ℕ)
            → (any_of (keys g) v ≡ true) ⊎ (1 ≤ color_of c.color v)
            → 1 ≤ color_of c'.color v)
  unfolding color_all add_component any_of
  color_all-Partition fuel n [] c p e =
      let same = some-injective e in
      (
        (n, subst (Partition d.undirected_graph n) same p),
        λ v h. elim h [
          | inl m ↦ absurd (cc m)
          | inr pos ↦ subst (λ q. 1 ≤ color_of q.color v) same pos
        ],
      )
  color_all-Partition fuel n ((handler, ts) ∷ g) c p e =
      elim (color_all-cases graph d fuel handler ts g n c e) [
        | inl (old, e') ↦
            let (p', all) = color_all-Partition fuel n g c p e' in
            let here : 1 ≤ color_of c.color handler = ground (arith, old) in
            (
              p',
              λ v h. all v (elim h [
                | inr pos ↦ inr pos
                | inl m ↦ elim (any_of-cons handler v (keys g) m) [
                  | inl same ↦ inr (subst (λ v'. 1 ≤ color_of c.color v') same here)
                  | inr m' ↦ inl m'
                ]
              ]),
            )
        | inr (new, (s, e₁, e₂)) ↦
            let i = start-Searching n handler c p ((==_iff (at 0 c.color handler) 0).0 new) in
            let done =
              bfs-Searching graph d symmetric fuel n c.color (handler ∷ []) (new_component c) i
                e₁ in
            let first = bfs-first fuel n handler c.color (new_component c) i e₁ in
            let (p', all) =
              color_all-Partition fuel (suc n) g (add_component c s) (add-Partition n c s p done)
                e₂ in
            (
              p',
              λ v h. all v (elim h [
                | inr pos ↦ inr (elim (done.kept v) [
                  | inl same ↦ omega (arith, same, pos)
                  | inr (z, colored) ↦ absurd (omega (arith, z, pos))
                ])
                | inl m ↦ elim (any_of-cons handler v (keys g) m) [
                  | inl same ↦ inr (
                      subst (λ v'. 1 ≤ color_of s.color v') same
                        (let l = p.number in omega (arith, first, l)))
                  | inr m' ↦ inl m'
                ]
              ]),
            )
      ]

pub empty-Partition :
    (und : Graph) → Partition und 1 (record { color = []; sub_graphs = []; initial_handlers = [] })
unfolding at
empty-Partition und = record {
  ends = λ x t near. inl refl;
  below = λ v. omega arith;
  number = refl;
  parts = λ i sg e v. absurd (none-ne-some e);
}
