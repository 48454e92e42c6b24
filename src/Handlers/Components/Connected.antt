-- ===== src/Handlers/Components/Connected.antt =====
-- The components: the ends of an edge have one color, and a subgraph has the handlers of its color.
use alkali.Prelude.{
  ℕ, zero, suc, ◌≡◌, ◌≢◌, sym, ap, ◌∙◌, subst, true, List, [], ◌∷◌, ◌++◌, some, some-injective,
  none-ne-some, ◌==◌, ==_iff, Bool-cases, inl, inr, ◌⊎◌,
}
use alkali.Handlers.Maps.{Map, put, any_of}
use alkali.Handlers.Sets.{
  any_of-or, any_of-left, any_of-right, any_of-here, any_of-there, any_of-cons,
}
use alkali.Handlers.Components.{Graph, edges, Degrees, Colored, uncolored, visit, bfs}
use alkali.Handlers.Components.Release.{keys}
use alkali.Handlers.Components.Symmetric.{Near}
use alkali.Handlers.Components.Searched.{
  color_of, color_of-put, uncolored-zero, uncolored-all, keys-put, keys-put_kept, keys-put_here,
}

-- While the component of color `c` is searched.
pub record Searching (und : Graph) (c : ℕ) (before : Map ℕ) (worklist : List ℕ) (s : Colored)
    : Type 0 where
  pub ends :
      (x t : ℕ)
      → Near und x t
      → (color_of s.color x ≡ 0)
        ⊎ ((color_of s.color t ≡ color_of s.color x)
            ⊎ ((color_of s.color x ≡ c) × (any_of worklist t ≡ true)))
  pub pending :
      (t : ℕ) → any_of worklist t ≡ true → (color_of s.color t ≡ 0) ⊎ (color_of s.color t ≡ c)
  pub kept :
      (v : ℕ)
      → (color_of s.color v ≡ color_of before v)
        ⊎ ((color_of before v ≡ 0) × (color_of s.color v ≡ c))
  pub within : (v : ℕ) → any_of (keys s.sub_graph) v ≡ true → color_of s.color v ≡ c
  pub whole : (v : ℕ) → color_of s.color v ≡ c → any_of (keys s.sub_graph) v ≡ true

module _ (graph : Graph) (d : Degrees)
    (symmetric : (u v : ℕ) → Near d.undirected_graph u v → Near d.undirected_graph v u) where
  -- An edge, when its end `cur` gets the color.
  ends-cur :
      (c cur : ℕ) (before : Map ℕ) (worklist : List ℕ) (s : Colored)
      → Searching d.undirected_graph c before (cur ∷ worklist) s
      → (t : ℕ) → Near d.undirected_graph cur t
      → (color_of (put cur c s.color) t ≡ c)
        ⊎ (any_of (uncolored (put cur c s.color) (edges d.undirected_graph cur)) t ≡ true)
  ends-cur c cur before worklist s i t n = elim (color_of-put s.color cur c t) [
    | inl (e, ct) ↦ inl ct
    | inr (ne, ct) ↦ elim (Bool-cases (color_of s.color t == 0)) [
      | inl z ↦ inr (
          uncolored-all (put cur c s.color) (edges d.undirected_graph cur) t n
            (ct ∙ (==_iff (color_of s.color t) 0).0 z))
      | inr nz ↦
          let positive : color_of s.color t ≢ 0 =
            λ e. cc (nz, (==_iff (color_of s.color t) 0).1 e) in
          elim (i.ends t cur (symmetric cur t n)) [
            | inl z ↦ absurd (positive z)
            | inr (inl e) ↦ elim (i.pending cur (any_of-here cur worklist)) [
              | inl z ↦ absurd (positive (sym e ∙ z))
              | inr ec ↦ inl (ct ∙ (sym e ∙ ec))
            ]
            | inr (inr (e, m)) ↦ inl (ct ∙ e)
          ]
    ]
  ]

  ends-other :
      (c cur : ℕ) (before : Map ℕ) (worklist more : List ℕ) (s : Colored)
      → Searching d.undirected_graph c before (cur ∷ worklist) s
      → (x t : ℕ) → color_of (put cur c s.color) x ≡ color_of s.color x
      → Near d.undirected_graph x t
      → (color_of (put cur c s.color) x ≡ 0)
        ⊎ ((color_of (put cur c s.color) t ≡ color_of (put cur c s.color) x)
            ⊎ ((color_of (put cur c s.color) x ≡ c) × (any_of (worklist ++ more) t ≡ true)))
  ends-other c cur before worklist more s i x t cx n = elim (i.ends x t n) [
    | inl z ↦ inl (cx ∙ z)
    | inr (inl e) ↦ elim (color_of-put s.color cur c t) [
      | inr (ne, ct) ↦ inr (inl (ct ∙ (e ∙ sym cx)))
      | inl (et, ct) ↦
          let e' : color_of s.color cur ≡ color_of s.color x = ap (color_of s.color) et ∙ e in
          elim (i.pending cur (any_of-here cur worklist)) [
            | inl z ↦ inl (cx ∙ (sym e' ∙ z))
            | inr ec ↦ inr (inl (ct ∙ (sym ec ∙ (e' ∙ sym cx))))
          ]
    ]
    | inr (inr (e, m)) ↦ elim (any_of-cons cur t worklist m) [
      | inr m' ↦ inr (inr (cx ∙ e, any_of-left worklist more t m'))
      | inl et ↦ elim (color_of-put s.color cur c t) [
        | inl (et', ct) ↦ inr (inl (ct ∙ sym (cx ∙ e)))
        | inr (ne, ct) ↦ absurd (ne et)
      ]
    ]
  ]

  pub visit-Searching :
      (c cur : ℕ) (before : Map ℕ) (worklist : List ℕ) (s : Colored)
      → Searching d.undirected_graph c before (cur ∷ worklist) s
      → Searching d.undirected_graph c before
          (worklist ++ uncolored (visit graph d c cur s).color (edges d.undirected_graph cur))
          (visit graph d c cur s)
  unfolding visit
  visit-Searching c cur before worklist s i =
      let more = uncolored (put cur c s.color) (edges d.undirected_graph cur) in
      let cur_color = i.pending cur (any_of-here cur worklist) in
      record {
        ends = λ x t n. elim (color_of-put s.color cur c x) [
          | inr (ne, cx) ↦ ends-other c cur before worklist more s i x t cx n
          | inl (e, cx) ↦
              elim (ends-cur c cur before worklist s i t
                (subst (λ x'. Near d.undirected_graph x' t) (sym e) n)) [
                  | inl ct ↦ inr (inl (ct ∙ sym cx))
                  | inr m ↦ inr (inr (cx, any_of-right worklist more t m))
                ]
        ];
        pending = λ t m. elim (any_of-or worklist more t m) [
          | inr m' ↦ inl (uncolored-zero (put cur c s.color) (edges d.undirected_graph cur) t m')
          | inl m' ↦ elim (color_of-put s.color cur c t) [
            | inl (e, ct) ↦ inr ct
            | inr (ne, ct) ↦ elim (i.pending t (any_of-there cur t worklist m')) [
              | inl z ↦ inl (ct ∙ z)
              | inr e ↦ inr (ct ∙ e)
            ]
          ]
        ];
        kept = λ v. elim (color_of-put s.color cur c v) [
          | inr (ne, cv) ↦ elim (i.kept v) [ inl e ↦ inl (cv ∙ e) | inr (z, e) ↦ inr (z, cv ∙ e) ]
          | inl (e, cv) ↦ elim (i.kept v) [
            | inr (z, e') ↦ inr (z, cv)
            | inl same ↦ elim cur_color [
              | inl z ↦ inr (sym same ∙ (ap (color_of s.color) (sym e) ∙ z), cv)
              | inr ec ↦ inl (cv ∙ (sym ec ∙ (ap (color_of s.color) e ∙ same)))
            ]
          ]
        ];
        within = λ v m. elim (color_of-put s.color cur c v) [
          | inl (e, cv) ↦ cv
          | inr (ne, cv) ↦ elim (keys-put s.sub_graph cur v (edges graph cur) m) [
            | inl e ↦ absurd (ne e)
            | inr m' ↦ cv ∙ i.within v m'
          ]
        ];
        whole = λ v e. elim (color_of-put s.color cur c v) [
          | inl (e', cv) ↦
              subst (λ v'. any_of (keys (put cur (edges graph cur) s.sub_graph)) v' ≡ true) e'
                (keys-put_here s.sub_graph cur (edges graph cur))
          | inr (ne, cv) ↦
              keys-put_kept s.sub_graph cur v (edges graph cur) (i.whole v (sym cv ∙ e))
        ];
      }

  pub bfs-Searching :
      (fuel c : ℕ) (before : Map ℕ) (worklist : List ℕ) (s : Colored) {s' : Colored}
      → Searching d.undirected_graph c before worklist s
      → bfs graph d fuel c worklist s ≡ some s'
      → Searching d.undirected_graph c before [] s'
  unfolding bfs
  bfs-Searching fuel c before [] s i e =
      subst (Searching d.undirected_graph c before []) (some-injective e) i
  bfs-Searching zero c before (cur ∷ worklist) s i e = absurd (none-ne-some e)
  bfs-Searching (suc fuel) c before (cur ∷ worklist) s i e =
      bfs-Searching fuel c before _ (visit graph d c cur s)
        (visit-Searching c cur before worklist s i) e
