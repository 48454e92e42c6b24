-- ===== src/Netronome/Cam/Init.antt =====
-- `init_me_cam` gives its entries tags that no key in use has, each another.
use alkali.Prelude.{
  ℕ, zero, suc, ◌+◌, ◌-◌, ◌^◌, ◌<◌, ◌≤◌, ◌≡◌, ◌≢◌, refl, sym, ap, ◌∙◌, none, some, ◌==◌,
  if◌then◌else◌, ◌⊎◌, inl, inr, arith, Bool-cases, ==_iff, lt_or_le, ne→not_==, not_==→ne,
}
use alkali.Netronome.Cam.{CamUnit, init_entries, init_me_cam, me_cam_lookup}
use alkali.Netronome.Cam.Keys.{IsUnique}

module _ (cam : CamUnit) where
  entries-outside :
      (i n j : ℕ) (s : cam.State)
      → i + n ≤ 16
      → (j < i) ⊎ (i + n ≤ j)
      → cam.tag (init_entries cam i n s) j ≡ cam.tag s j
  unfolding init_entries
  entries-outside i zero j s h outside = refl
  entries-outside i (suc n) j s h outside =
      let other : j ≢ i = λ e. elim outside [ inl b ↦ omega arith | inr b ↦ omega arith ] in
      let further : (j < suc i) ⊎ (suc i + n ≤ j) = elim outside [
        | inl b ↦ inl (omega arith)
        | inr b ↦ inr (omega arith)
      ] in
      entries-outside (suc i) n j (cam.cam_write i (2 ^ 32 - 1 - i) 0 s) (omega arith) further
      ∙ cam.write-tag i (2 ^ 32 - 1 - i) 0 j s (omega arith)
      ∙ ap (λ c. if c then 2 ^ 32 - 1 - i else cam.tag s j) (ne→not_== j i other)

  entries-inside :
      (i n j : ℕ) (s : cam.State)
      → i + n ≤ 16
      → i ≤ j
      → j < i + n
      → cam.tag (init_entries cam i n s) j ≡ 2 ^ 32 - 1 - j
  unfolding init_entries
  entries-inside i zero j s h from below = absurd (omega arith)
  entries-inside i (suc n) j s h from below = elim (Bool-cases (j == i)) [
    | inl e ↦
        let here : j ≡ i = (==_iff j i).0 e in
        entries-outside (suc i) n j (cam.cam_write i (2 ^ 32 - 1 - i) 0 s) (omega arith)
          (inl (omega arith))
        ∙ cam.write-tag i (2 ^ 32 - 1 - i) 0 j s (omega arith)
        ∙ ap (λ c. if c then 2 ^ 32 - 1 - i else cam.tag s j) e
        ∙ ap (λ k. 2 ^ 32 - 1 - k) (sym here)
    | inr e ↦
        let other : j ≢ i = not_==→ne j i e in
        entries-inside (suc i) n j (cam.cam_write i (2 ^ 32 - 1 - i) 0 s) (omega arith)
          (omega arith) (omega arith)
  ]

  -- The tag of every entry behind the initialisation.
  init_me_cam-tag :
      (size j : ℕ) (s : cam.State)
      → size ≤ 16
      → ((j < size) × (cam.tag (init_me_cam cam 0 size s) j ≡ 2 ^ 32 - 1 - j))
        ⊎ ((size ≤ j) × (cam.tag (init_me_cam cam 0 size s) j ≡ 0))
  unfolding init_me_cam
  init_me_cam-tag size j s h = elim (lt_or_le j size) [
    | inl b ↦
        inl (b, entries-inside 0 size j (cam.cam_clear s) (omega arith) (omega arith) (omega arith))
    | inr b ↦ inr (
      b,
      entries-outside 0 size j (cam.cam_clear s) (omega arith) (inr (omega arith))
          ∙ cam.clear-tag s j,
    )
  ]

  -- After `init_me_cam` in context 0, for at most 16 entries, no key is in two entries.
  pub init_me_cam-IsUnique :
      (size : ℕ) (s : cam.State) → size ≤ 16 → IsUnique cam (init_me_cam cam 0 size s)
  unfolding IsUnique
  init_me_cam-IsUnique size s h i j hi hj distinct same = elim (init_me_cam-tag size i s h) [
    | inr (b, p) ↦ p
    | inl (b, p) ↦ elim (init_me_cam-tag size j s h) [
      | inl (c, q) ↦ omega arith
      | inr (c, q) ↦ omega arith
    ]
  ]

  -- After it no key from 1 to 2^32 - 17 is found.
  pub me_cam_lookup-init_me_cam :
      (size : ℕ) (s : cam.State) (k : ℕ)
      → size ≤ 16
      → 0 < k
      → k < 2 ^ 32 - 16
      → (me_cam_lookup cam (init_me_cam cam 0 size s) k).0 ≡ none
  unfolding me_cam_lookup
  me_cam_lookup-init_me_cam size s k h used small =
      let s' = init_me_cam cam 0 size s in
      let missing : (j : ℕ) → j < 16 → cam.tag s' j ≢ k = λ j hj found.
        elim (init_me_cam-tag size j s h) [ inl (b, p) ↦ omega arith | inr (b, p) ↦ omega arith ] in
      ap (λ c. if c then some (cam.cam_lookup s' k).0.entry_num else none)
        (cam.lookup_miss s' k missing)
