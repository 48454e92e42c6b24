-- ===== src/Netronome/Cam.antt =====
-- runtime_lib/netronome_runtime/lib/nfplib.h: the tables of keys in the CAM of a micro engine. The
-- CAM itself, with its order of use, is hardware: an interface. A key or a tag has 32 bits.
pub mod Keys
pub mod Init
use alkali.Prelude.{
  ℕ, zero, suc, ◌-◌, ◌^◌, ◌<◌, ◌≡◌, ◌≢◌, Bool, true, false, Option, none, some, ◌==◌, if◌then◌else◌,
}

-- `cam_lookup_t`.
pub record CamLookup : Type 0 where
  pub hit : Bool
  pub entry_num : ℕ

-- The 16 entries of a CAM, each with a tag. A lookup changes the order of use only, finds the entry
-- of a tag that no other entry has, and names one to replace where no entry has it.
pub record CamUnit : Type 1 where
  pub State : Type 0
  pub tag : State → ℕ → ℕ
  pub cam_lookup : State → ℕ → CamLookup × State
  pub cam_write : ℕ → ℕ → ℕ → State → State
  pub cam_clear : State → State
  pub lookup-tag : (s : State) (k i : ℕ) → tag (cam_lookup s k).1 i ≡ tag s i
  pub lookup_bound : (s : State) (k : ℕ) → (cam_lookup s k).0.entry_num < 16
  pub lookup_hit :
      (s : State) (k i : ℕ)
      → i < 16
      → tag s i ≡ k
      → ((j : ℕ) → j < 16 → tag s j ≡ k → j ≡ i)
      → ((cam_lookup s k).0.hit ≡ true) × ((cam_lookup s k).0.entry_num ≡ i)
  pub lookup_miss :
      (s : State) (k : ℕ) → ((j : ℕ) → j < 16 → tag s j ≢ k) → (cam_lookup s k).0.hit ≡ false
  pub write-tag :
      (i k v j : ℕ) (s : State)
      → i < 16
      → tag (cam_write i k v s) j ≡ (if j == i then k else tag s j)
  pub clear-tag : (s : State) (i : ℕ) → tag (cam_clear s) i ≡ 0

module _ (cam : CamUnit) where
  -- `for (i = 0 ; i < size; i++)`, from `i` on with `n` rounds to go.
  unfoldable pub init_entries : ℕ → ℕ → cam.State → cam.State
  init_entries i zero s = s
  init_entries i (suc n) s = init_entries (suc i) n (cam.cam_write i (2 ^ 32 - 1 - i) 0 s)

  -- `init_me_cam`, in the context `ctx`.
  unfoldable pub init_me_cam : ℕ → ℕ → cam.State → cam.State
  unfolding init_entries
  init_me_cam ctx size s = if ctx == 0 then init_entries 0 size (cam.cam_clear s) else s

  -- `me_cam_lookup`; -1 is `none`.
  unfoldable pub me_cam_lookup : cam.State → ℕ → Option ℕ × cam.State
  me_cam_lookup s key =
      let (cam_lookup_result, s') = cam.cam_lookup s key in
      (if cam_lookup_result.hit then some cam_lookup_result.entry_num else none, s')

  -- `me_cam_update`.
  unfoldable pub me_cam_update : cam.State → ℕ → ℕ × cam.State
  me_cam_update s key =
      let (cam_lookup_result, s') = cam.cam_lookup s key in
      let lookup_index = cam_lookup_result.entry_num in
      if cam_lookup_result.hit
      then (lookup_index, s')
      else (lookup_index, cam.cam_write lookup_index key 0 s')
