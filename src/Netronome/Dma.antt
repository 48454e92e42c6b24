-- ===== src/Netronome/Dma.antt =====
-- runtime_lib/netronome_runtime/lib/extern/extern_dma.h and extern_dma.c: the ring of descriptors and
-- the handling of receive requests, as the simulation does it. The rings in the memory of the card
-- are an interface.
pub mod Requests
pub mod Tests
use alkali.Prelude.{
  ℕ, zero, suc, ◌+◌, ◌-◌, ◌*◌, ◌%◌, ◌^◌, ◌<◌, ◌≤◌, ◌≡◌, refl, sym, ap, ◌∙◌, Bool, true, false, List,
  [], ◌∷◌, ◌++◌, append-nil, append_assoc, map, Option, none, some, ◌>>=◌, some-chain, ◌==◌,
  if◌then◌else◌, arith,
}

-- `struct recv_desc_sim_t`.
pub record RecvDesc : Type 0 where
  pub flow_id : ℕ
  pub bump_seq : ℕ
  pub flags : ℕ
  pub flow_grp : ℕ

-- `struct extern_event_param_DMA_RECV_REQ`.
pub record RecvReq : Type 0 where
  pub host_buf_addr : ℕ
  pub nic_buf_addr : ℕ

-- A ring of the card: what is put in is got out in the same order, and `get` fails on an empty one.
pub record MemRing : Type 1 where
  pub State : Type 0
  pub entries : State → List ℕ
  pub mem_ring_journal : ℕ → State → State
  pub mem_ring_get : State → Option (ℕ × State)
  pub entries-journal : (i : ℕ) (s : State) → entries (mem_ring_journal i s) ≡ entries s ++ (i ∷ [])
  pub get_empty : (s : State) → entries s ≡ [] → mem_ring_get s ≡ none
  pub get_first :
      (s : State) (i : ℕ) (is : List ℕ)
      → entries s ≡ i ∷ is
      → (s' : State) × (mem_ring_get s ≡ some (i, s')) × (entries s' ≡ is)

-- The rounds of `handle_dma_recv` with `IF_SIMULATION`, as by default, over receive requests in turn,
-- from sequence number `tmp_seq` on: the descriptors that are written, with their addresses, and the
-- `data_ptr` of each completion. The mailbox, which is for observation, and the completion's `ctx`,
-- which is never set, are left out.
unfoldable pub handle_dma_recv : ℕ → List RecvReq → List (ℕ × RecvDesc) × List ℕ
handle_dma_recv tmp_seq [] = ([], [])
handle_dma_recv tmp_seq (work ∷ works) =
    let desc : RecvDesc = record { flow_id = 64; bump_seq = tmp_seq; flags = 16; flow_grp = 1 } in
    let (writes, completions) = handle_dma_recv ((tmp_seq + 1) % 2 ^ 32) works in
    ((work.nic_buf_addr, desc) ∷ writes, work.nic_buf_addr ∷ completions)

-- `RECV_DESC_POOL_NUM` and the range of the simulation.
abbrev pub init_range : Bool → ℕ
init_range simulation = if simulation then 10 else 2048

module _ (ring : MemRing) where
  -- `for (idx = 1; idx < init_range; idx++)`, from `idx` on with `n` rounds to go.
  unfoldable pub journal_from : ℕ → ℕ → ring.State → ring.State
  journal_from idx zero s = s
  journal_from idx (suc n) s = journal_from (suc idx) n (ring.mem_ring_journal idx s)

  -- `init_recv_desc_ring`, in the context `ctx`.
  unfoldable pub init_recv_desc_ring : ℕ → Bool → ring.State → ring.State
  unfolding journal_from
  init_recv_desc_ring ctx simulation s =
      if ctx == 0 then journal_from 1 (init_range simulation - 1) s else s

  -- `allocate_recv_desc_ring_entry`; `none` while it waits.
  unfoldable pub allocate_recv_desc_ring_entry : ring.State → Option (ℕ × ring.State)
  allocate_recv_desc_ring_entry s = ring.mem_ring_get s

module _ (ring : MemRing) (recv_desc_pool : ℕ) where
  -- The request for a descriptor, which has 16 bytes.
  abbrev pub request : ℕ → RecvReq
  request entry_idx = record { host_buf_addr = 0; nic_buf_addr = recv_desc_pool + 16 * entry_idx }

  -- Rounds of `handle_sim_control_signal`, with the requests that they add to the work queue.
  unfoldable pub handle_sim_control_signal : ℕ → ring.State → Option (List RecvReq × ring.State)
  unfolding allocate_recv_desc_ring_entry
  handle_sim_control_signal zero s = some ([], s)
  handle_sim_control_signal (suc n) s = do
    (entry_idx, s₁) ← allocate_recv_desc_ring_entry ring s
    (works, s₂) ← handle_sim_control_signal n s₁
    some (request entry_idx ∷ works, s₂)
