-- ===== src/Netronome/FlowTable.antt =====
-- runtime_lib/netronome_runtime/lib/lmem_lookup.h, and the functions of nfplib.h over it: a table of
-- flows in local memory. The hash and the choice of a bucket are those of the card's library.
use alkali.Prelude.{ℕ, ◌-◌, ◌^◌, ◌≡◌, ◌≢◌, ◌==◌, if◌then◌else◌, refl, ==_iff, ne→not_==}

-- `struct flowht_entry_t`, with the one field of `struct flow_key_t` for the key.
pub record FlowEntry : Type 0 where
  pub key : ℕ
  pub flow_id : ℕ

abbrev pub FlowTable : Type 0
FlowTable = ℕ → FlowEntry

-- -1 as a word of 32 bits.
abbrev pub minus_one : ℕ
minus_one = 2 ^ 32 - 1

module _ (camht_hash : ℕ → ℕ) (camht_bucket_idx : ℕ → ℕ → ℕ) where
  -- `lmem_flow_hash`.
  unfoldable pub lmem_flow_hash : ℕ → ℕ
  lmem_flow_hash key = camht_hash key

  -- `lmem_flow_insert`. It has no return statement: what the caller gets is `junk`.
  unfoldable pub lmem_flow_insert : ℕ → FlowTable → FlowEntry → ℕ → ℕ × FlowTable
  unfolding lmem_flow_hash
  lmem_flow_insert junk tb entry size =
      let b_idx = camht_bucket_idx (lmem_flow_hash entry.key) size in
      (junk, λ i. if i == b_idx then entry else tb i)

  -- `lmem_flow_lookup`. `entry` is never written: it is what its registers hold.
  unfoldable pub lmem_flow_lookup : FlowEntry → FlowTable → ℕ → ℕ → ℕ
  unfolding lmem_flow_hash
  lmem_flow_lookup entry tb key size =
      let b_idx = camht_bucket_idx (lmem_flow_hash key) size in
      let result = (tb b_idx).flow_id in if entry.key == key then result else minus_one

  -- `lmem_cam_lookup`.
  unfoldable pub lmem_cam_lookup : FlowEntry → FlowTable → ℕ → ℕ → ℕ
  unfolding lmem_flow_lookup
  lmem_cam_lookup entry tb key size = lmem_flow_lookup entry tb key size

  -- `lmem_cam_update`.
  unfoldable pub lmem_cam_update : ℕ → FlowEntry → FlowTable → ℕ → ℕ → ℕ × FlowTable
  unfolding lmem_flow_lookup lmem_flow_insert
  lmem_cam_update junk entry tb key size =
      let flow_id = lmem_flow_lookup entry tb key size in
      if flow_id == minus_one
      then lmem_flow_insert junk tb (record { key = key; flow_id = 0 }) size
      else (flow_id, tb)

  -- Once a key is inserted, a lookup of any key of the same bucket, that key or another, gives the
  -- flow inserted where the unwritten registers hold the key looked for, and -1 elsewhere: the key in
  -- the table is not looked at.
  pub lmem_flow_lookup-insert :
      (junk : ℕ) (registers entry : FlowEntry) (tb : FlowTable) (key size : ℕ)
      → camht_bucket_idx (lmem_flow_hash key) size
        ≡ camht_bucket_idx (lmem_flow_hash entry.key) size
      → lmem_flow_lookup registers (lmem_flow_insert junk tb entry size).1 key size
        ≡ (if registers.key == key then entry.flow_id else minus_one)
  unfolding lmem_flow_lookup lmem_flow_insert
  lmem_flow_lookup-insert junk registers entry tb key size same =
      let b = camht_bucket_idx (lmem_flow_hash key) size in
      let here = (==_iff b (camht_bucket_idx (lmem_flow_hash entry.key) size)).1 same in
      rw here refl

  -- Where the unwritten registers do not hold the key, an update resets the key's flow to 0, also of
  -- a key that was inserted with another, and returns a value that nothing sets.
  pub lmem_cam_update-insert :
      (junk : ℕ) (registers entry : FlowEntry) (tb : FlowTable) (size : ℕ)
      → registers.key ≢ entry.key
      → (let after =
            lmem_cam_update junk registers (lmem_flow_insert junk tb entry size).1 entry.key size in
          (after.0 ≡ junk)
          × ((after.1 (camht_bucket_idx (lmem_flow_hash entry.key) size)).flow_id ≡ 0))
  unfolding lmem_cam_update lmem_flow_lookup lmem_flow_insert
  lmem_cam_update-insert junk registers entry tb size other =
      let b = camht_bucket_idx (lmem_flow_hash entry.key) size in
      rw (ne→not_== registers.key entry.key other, (==_iff b b).1 refl) (refl, refl)
