-- ===== src/Netronome/Cam/Keys.antt =====
-- The rule that no two entries of the CAM have the same key, and the keys that a lookup finds.
use mathlib.Core.Logic.{◌≢◌}
use alkali.Prelude.{
  ℕ, zero, suc, ◌<◌, ◌≡◌, ◌≢◌, refl, sym, ap, ◌∙◌, true, false, none, some, ◌==◌, if◌then◌else◌,
  ◌⊎◌, inl, inr, arith, Bool-cases, ==_iff, lt_or_le, subst, not_==→ne, ne→not_==, some-injective,
  none-ne-some,
}
use alkali.Netronome.Cam.{CamUnit, me_cam_lookup, me_cam_update}

module _ (cam : CamUnit) where
  -- A key in two entries is 0, which is not in use.
  unfoldable pub IsUnique : cam.State → Type 0
  IsUnique s = (i j : ℕ) → i < 16 → j < 16 → i ≢ j → cam.tag s i ≡ cam.tag s j → cam.tag s i ≡ 0

  find_tag :
      (s : cam.State) (k n : ℕ)
      → ((i : ℕ) × (i < n) × (cam.tag s i ≡ k)) ⊎ ((j : ℕ) → j < n → cam.tag s j ≢ k)
  find_tag s k zero = inr (λ j h. absurd (omega arith))
  find_tag s k (suc n) = elim (Bool-cases (cam.tag s n == k)) [
    | inl e ↦ inl (n, omega arith, (==_iff (cam.tag s n) k).0 e)
    | inr e ↦ elim (find_tag s k n) [
      | inl (i, h, p) ↦ inl (i, omega arith, p)
      | inr missing ↦ inr (λ j h p. elim (lt_or_le j n) [
        | inl below ↦ missing j below p
        | inr above ↦
            let last : j ≡ n = omega arith in
            not_==→ne (cam.tag s n) k e (sym (ap (cam.tag s) last) ∙ p)
      ])
    ]
  ]

  only_entry :
      (s : cam.State) (k i : ℕ)
      → IsUnique s
      → k ≢ 0
      → i < 16
      → cam.tag s i ≡ k
      → (j : ℕ) → j < 16
      → cam.tag s j ≡ k
      → j ≡ i
  unfolding IsUnique
  only_entry s k i unique used h p j h' q = elim (Bool-cases (j == i)) [
    | inl e ↦ (==_iff j i).0 e
    | inr e ↦ absurd (used (sym q ∙ unique j i h' h (not_==→ne j i e) (q ∙ sym p)))
  ]

  pub me_cam_lookup-present :
      (s : cam.State) (k i : ℕ)
      → IsUnique s
      → k ≢ 0
      → i < 16
      → cam.tag s i ≡ k
      → (me_cam_lookup cam s k).0 ≡ some i
  unfolding me_cam_lookup
  me_cam_lookup-present s k i unique used h p =
      let (hits, entry) = cam.lookup_hit s k i h p (only_entry s k i unique used h p) in
      rw (hits, entry)

  -- After an update the key is in its entry, the others are as before, and no key is in two.
  pub record Updates (s : cam.State) (k e : ℕ) (s' : cam.State) : Type 0 where
    pub bound : e < 16
    pub own : cam.tag s' e ≡ k
    pub others : (i : ℕ) → i ≢ e → cam.tag s' i ≡ cam.tag s i
    pub unique : IsUnique s'

  lookup-IsUnique : (s : cam.State) (k : ℕ) → IsUnique s → IsUnique (cam.cam_lookup s k).1
  unfolding IsUnique
  lookup-IsUnique s k unique i j hi hj distinct same =
      cam.lookup-tag s k i
      ∙ unique i j hi hj distinct (sym (cam.lookup-tag s k i) ∙ same ∙ cam.lookup-tag s k j)

  -- An entry that is overwritten by a tag that was in no entry.
  module _ (s s' : cam.State) (k e : ℕ)
      (tags : (j : ℕ) → cam.tag s' j ≡ (if j == e then k else cam.tag s j))
      (missing : (j : ℕ) → j < 16 → cam.tag s j ≢ k) where
    at_entry : (i : ℕ) → (i == e) ≡ true → cam.tag s' i ≡ k
    at_entry i a = tags i ∙ ap (λ c. if c then k else cam.tag s i) a

    elsewhere : (i : ℕ) → (i == e) ≡ false → cam.tag s' i ≡ cam.tag s i
    elsewhere i a = tags i ∙ ap (λ c. if c then k else cam.tag s i) a

    replaced-IsUnique : IsUnique s → IsUnique s'
    unfolding IsUnique
    replaced-IsUnique unique i j hi hj distinct same = elim (Bool-cases (i == e)) [
      | inl a ↦ elim (Bool-cases (j == e)) [
        | inl b ↦ absurd (distinct ((==_iff i e).0 a ∙ sym ((==_iff j e).0 b)))
        | inr b ↦ absurd (missing j hj (sym (elsewhere j b) ∙ sym same ∙ at_entry i a))
      ]
      | inr a ↦ elim (Bool-cases (j == e)) [
        | inl b ↦ absurd (missing i hi (sym (elsewhere i a) ∙ same ∙ at_entry j b))
        | inr b ↦
            elsewhere i a ∙ unique i j hi hj distinct (sym (elsewhere i a) ∙ same ∙ elsewhere j b)
      ]
    ]

  me_cam_update-Updates :
      (s : cam.State) (k : ℕ)
      → IsUnique s
      → k ≢ 0
      → Updates s k (me_cam_update cam s k).0 (me_cam_update cam s k).1
  unfolding me_cam_update
  me_cam_update-Updates s k unique used =
      let s₁ = (cam.cam_lookup s k).1 in
      let e = (cam.cam_lookup s k).0.entry_num in
      elim (find_tag s k 16) [
        | inl (i, h, p) ↦
            let (hits, entry) = cam.lookup_hit s k i h p (only_entry s k i unique used h p) in
            let result : me_cam_update cam s k ≡ (i, s₁) = rw (hits, entry) in
            subst (λ r. Updates s k r.0 r.1) (sym result)
              (record {
                bound = h;
                own = cam.lookup-tag s k i ∙ p;
                others = λ j distinct. cam.lookup-tag s k j;
                unique = lookup-IsUnique s k unique;
              })
        | inr missing ↦
            let misses = cam.lookup_miss s k missing in
            let h = cam.lookup_bound s k in
            let s' = cam.cam_write e k 0 s₁ in
            let tags : (j : ℕ) → cam.tag s' j ≡ (if j == e then k else cam.tag s₁ j) =
              λ j. cam.write-tag e k 0 j s₁ h in
            let missing₁ : (j : ℕ) → j < 16 → cam.tag s₁ j ≢ k =
              λ j h₁ p. missing j h₁ (sym (cam.lookup-tag s k j) ∙ p) in
            let result : me_cam_update cam s k ≡ (e, s') = rw misses in
            subst (λ r. Updates s k r.0 r.1) (sym result)
              (record {
                bound = h;
                own = at_entry s₁ s' k e tags missing₁ e ((==_iff e e).1 refl);
                others = λ j distinct.
                    elsewhere s₁ s' k e tags missing₁ j (ne→not_== j e distinct)
                    ∙ cam.lookup-tag s k j;
                unique = replaced-IsUnique s₁ s' k e tags missing₁ (lookup-IsUnique s k unique);
              })
      ]

  -- After an update in a CAM with no key twice there is still none, and a lookup finds the key at the
  -- index that the update gave.
  pub me_cam_lookup-update :
      (s : cam.State) (k : ℕ)
      → IsUnique s
      → k ≢ 0
      → IsUnique (me_cam_update cam s k).1
        × ((me_cam_lookup cam (me_cam_update cam s k).1 k).0 ≡ some (me_cam_update cam s k).0)
  me_cam_lookup-update s k unique used =
      let (e, s') = me_cam_update cam s k in
      let u = me_cam_update-Updates s k unique used in
      (u.unique, me_cam_lookup-present s' k e u.unique used u.bound u.own)

  me_cam_lookup-some :
      (s : cam.State) (k i : ℕ)
      → IsUnique s
      → k ≢ 0
      → (me_cam_lookup cam s k).0 ≡ some i
      → (i < 16) × (cam.tag s i ≡ k)
  unfolding me_cam_lookup
  me_cam_lookup-some s k i unique used found = elim (find_tag s k 16) [
    | inl (j, h, p) ↦
        let same : j ≡ i =
          some-injective (sym (me_cam_lookup-present s k j unique used h p) ∙ found) in
        subst (λ j'. (j' < 16) × (cam.tag s j' ≡ k)) same (h, p)
    | inr missing ↦ absurd (
        none-ne-some (
          ap (λ c. if c then some (cam.cam_lookup s k).0.entry_num else none)
            (sym (cam.lookup_miss s k missing))
          ∙ found))
  ]

  -- A key that a lookup finds is found at the same index after an update of any key that gives
  -- another index.
  pub me_cam_lookup-update_other :
      (s : cam.State) (k k' i : ℕ)
      → IsUnique s
      → k ≢ 0
      → k' ≢ 0
      → (me_cam_lookup cam s k').0 ≡ some i
      → i ≢ (me_cam_update cam s k).0
      → (me_cam_lookup cam (me_cam_update cam s k).1 k').0 ≡ some i
  me_cam_lookup-update_other s k k' i unique used used' found other =
      let (e, s') = me_cam_update cam s k in
      let u = me_cam_update-Updates s k unique used in
      let (h, p) = me_cam_lookup-some s k' i unique used' found in
      me_cam_lookup-present s' k' i u.unique used' h (u.others i other ∙ p)
