-- ===== src/Mapping/Greedy/Bottleneck.antt =====
-- The last loop of `getMapping`: the latency of the pipeline, and the handler that has it.
use alkali.Prelude.{
  ℕ, zero, suc, ◌+◌, ◌/◌, ◌≤◌, ◌≡◌, refl, sym, ap, ◌∙◌, subst, List, [], ◌∷◌, Option, none, some,
  some-injective, none-ne-some, length, inl, inr, ◌⊎◌, Bool-cases, arith, ltb, ltb→lt, not_ltb→le,
  ◌==◌, ◌>>=◌,
}
use alkali.Mapping.Model.{Func, PerformanceModel}
use alkali.Mapping.Greedy.{
  Placed, MappingResult, get_latency_for_unit, bottleneck, get_unit_map, get_mapping,
}

module _ (model : PerformanceModel) where
  -- The latency of a handler, shared by its units.
  abbrev pub rate : Placed → List Placed → ℕ
  rate p rest = get_latency_for_unit model p rest / length p.units

  abbrev pub rate_at : List Placed → ℕ → Option ℕ
  rate_at [] j = none
  rate_at (p ∷ rest) zero = some (rate p rest)
  rate_at (p ∷ rest) (suc j) = rate_at rest j

  -- No handler is slower.
  abbrev pub AtMost : ℕ → List Placed → Type 0
  AtMost bound [] = Unit
  AtMost bound (p ∷ rest) = (rate p rest ≤ bound) × AtMost bound rest

  -- What a scan from `idx` on with `m` and `t` so far has found.
  abbrev pub Found : ℕ → ℕ → ℕ → List Placed → ℕ → ℕ → Type 0
  Found idx m t ps l i =
      (m ≤ l)
      × AtMost l ps
      × (((l ≡ m) × (i ≡ t)) ⊎ ((j : ℕ) × (i ≡ idx + j) × (rate_at ps j ≡ some l)))

  scan-step :
      (idx m t : ℕ) (p : Placed) (ps : List Placed) {l i : ℕ} (m' t' : ℕ)
      → m ≤ m'
      → rate p ps ≤ m'
      → (((m' ≡ m) × (t' ≡ t)) ⊎ ((m' ≡ rate p ps) × (t' ≡ idx)))
      → Found (suc idx) m' t' ps l i
      → Found idx m t (p ∷ ps) l i
  scan-step idx m t p ps {l} {i} m' t' h h' from (above, bound, end) =
      (omega arith, (omega arith, bound), ends end from)
    where
      ends :
          ((l ≡ m') × (i ≡ t')) ⊎ ((j : ℕ) × (i ≡ suc idx + j) × (rate_at ps j ≡ some l))
          → (((m' ≡ m) × (t' ≡ t)) ⊎ ((m' ≡ rate p ps) × (t' ≡ idx)))
          → ((l ≡ m) × (i ≡ t)) ⊎ ((j : ℕ) × (i ≡ idx + j) × (rate_at (p ∷ ps) j ≡ some l))
      ends (inl (e, e')) (inl (d, d')) = inl (e ∙ d, e' ∙ d')
      ends (inl (e, e')) (inr (d, d')) = inr (0, omega arith, ap some (sym (e ∙ d)))
      ends (inr (j, e, at)) from = inr (suc j, omega arith, at)

  pub bottleneck-Found :
      (idx m t : ℕ) (ps : List Placed) {l i : ℕ}
      → bottleneck model idx m t ps ≡ some (l, i)
      → Found idx m t ps l i
  unfolding bottleneck
  bottleneck-Found idx m t [] e =
      let e' = some-injective e in
      (
        subst (λ x. m ≤ x) (ap (λ q. q.0) e') (omega arith),
        tt,
        inl (ap (λ q. q.0) (sym e'), ap (λ q. q.1) (sym e')),
      )
  bottleneck-Found idx m t (p ∷ ps) {l} {i} e = elim (Bool-cases (length p.units == 0)) [
    | inl z ↦
        let eq : bottleneck model idx m t (p ∷ ps) ≡ none = rw (z, bottleneck) in
        absurd (none-ne-some (sym eq ∙ e))
    | inr nz ↦ elim (Bool-cases (ltb m (rate p ps))) [
      | inl h ↦
          let eq : bottleneck model idx m t (p ∷ ps)
              ≡ bottleneck model (suc idx) (rate p ps) idx ps =
            rw (nz, h, bottleneck) in
          scan-step idx m t p ps (rate p ps) idx (omega (arith, ltb→lt m (rate p ps) h))
            (omega arith) (inr (refl, refl))
            (bottleneck-Found (suc idx) (rate p ps) idx ps (sym eq ∙ e))
      | inr h ↦
          let eq : bottleneck model idx m t (p ∷ ps) ≡ bottleneck model (suc idx) m t ps =
            rw (nz, h, bottleneck) in
          scan-step idx m t p ps m t (omega arith) (not_ltb→le m (rate p ps) h) (inl (refl, refl))
            (bottleneck-Found (suc idx) m t ps (sym eq ∙ e))
    ]
  ]

  -- What a mapping is made of.
  pub get_mapping-parts :
      (ops : List Func) {r : MappingResult}
      → get_mapping model ops ≡ some r
      → (r.unit_map ≡ get_unit_map model ops)
        × (bottleneck model 0 0 0 (get_unit_map model ops) ≡ some (r.latency, r.bottleneck_index))
  unfolding get_mapping
  get_mapping-parts ops {r} e = go (bottleneck model 0 0 0 (get_unit_map model ops)) e refl
    where
      go :
          (o : Option (ℕ × ℕ))
          → (o >>= (λ (q : ℕ × ℕ). some (record {
            latency = q.0;
            bottleneck_index = q.1;
            unit_map = get_unit_map model ops;
          })))
            ≡ some r
          → bottleneck model 0 0 0 (get_unit_map model ops) ≡ o
          → (r.unit_map ≡ get_unit_map model ops)
            × (bottleneck model 0 0 0 (get_unit_map model ops)
                ≡ some (r.latency, r.bottleneck_index))
      go none e b = absurd (none-ne-some e)
      go (some q) e b =
          let e' = some-injective e in
          (ap (λ s. s.unit_map) (sym e'), b ∙ ap (λ s. some (s.latency, s.bottleneck_index)) e')

  -- Where getMapping has a result, no handler's latency, shared by its units, is above the result's;
  -- the handler of the bottleneck index has that latency, or both are 0.
  pub get_mapping-latency :
      (ops : List Func) {r : MappingResult}
      → get_mapping model ops ≡ some r
      → AtMost r.latency r.unit_map
        × (((r.latency ≡ 0) × (r.bottleneck_index ≡ 0))
            ⊎ (rate_at r.unit_map r.bottleneck_index ≡ some r.latency))
  get_mapping-latency ops {r} e =
      let (e₁, e₂) = get_mapping-parts ops e in
      let (low, bound, end) = bottleneck-Found 0 0 0 (get_unit_map model ops) e₂ in
      (
        subst (AtMost r.latency) (sym e₁) bound,
        elim end [
          | inl h ↦ inl h
          | inr h ↦
              let e₃ : h.0 ≡ r.bottleneck_index = omega (arith, h.1) in
              inr (
                subst (λ ps. rate_at ps r.bottleneck_index ≡ some r.latency) (sym e₁)
                  (subst (λ i. rate_at (get_unit_map model ops) i ≡ some r.latency) e₃ h.2))
        ],
      )
