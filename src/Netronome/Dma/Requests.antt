-- ===== src/Netronome/Dma/Requests.antt =====
-- The requests for descriptors in the simulation, and their handling.
use alkali.Prelude.{
  ℕ, zero, suc, ◌+◌, ◌*◌, ◌%◌, ◌^◌, ◌<◌, ◌≡◌, sym, ap, ◌∙◌, true, List, [], ◌∷◌, ◌++◌, append-nil,
  append_assoc, none, some, ◌>>=◌, some-chain, arith,
}
use alkali.Netronome.Dma.{
  RecvDesc, MemRing, journal_from, init_recv_desc_ring, allocate_recv_desc_ring_entry, request,
  handle_sim_control_signal,
}

-- The numbers from `i` on, `n` of them.
abbrev pub count : ℕ → ℕ → List ℕ
count i zero = []
count i (suc n) = i ∷ count (suc i) n

-- Descriptors from index `i` and sequence number `seq` on.
abbrev pub descriptors : ℕ → ℕ → ℕ → ℕ → List (ℕ × RecvDesc)
descriptors recv_desc_pool seq i zero = []
descriptors recv_desc_pool seq i (suc n) =
    (recv_desc_pool + 16 * i, record { flow_id = 64; bump_seq = seq; flags = 16; flow_grp = 1 })
    ∷ descriptors recv_desc_pool ((seq + 1) % 2 ^ 32) (suc i) n

module _ (ring : MemRing) (recv_desc_pool : ℕ) where
  entries-journal_from :
      (i n : ℕ) (s : ring.State)
      → ring.entries (journal_from ring i n s) ≡ ring.entries s ++ count i n
  unfolding journal_from
  entries-journal_from i zero s = sym (append-nil (ring.entries s))
  entries-journal_from i (suc n) s =
      entries-journal_from (suc i) n (ring.mem_ring_journal i s)
      ∙ ap (λ is. is ++ count (suc i) n) (ring.entries-journal i s)
      ∙ append_assoc (ring.entries s) (i ∷ []) (count (suc i) n)

  requests-none :
      (n k i : ℕ) (s : ring.State)
      → k < n
      → ring.entries s ≡ count i k
      → handle_sim_control_signal ring recv_desc_pool n s ≡ none
  unfolding handle_sim_control_signal allocate_recv_desc_ring_entry
  requests-none zero k i s h e = absurd (omega arith)
  requests-none (suc n) zero i s h e =
      ap
        (λ o. o >>= λ (j, s₁). handle_sim_control_signal ring recv_desc_pool n s₁ >>= λ (works, s₂).
          some (request ring recv_desc_pool j ∷ works, s₂))
        (ring.get_empty s e)
  requests-none (suc n) (suc k) i s h e =
      let (s₁, gets, left) = ring.get_first s i (count (suc i) k) e in
      some-chain _ gets (
        ap (λ o. o >>= λ (works, s₂). some (request ring recv_desc_pool i ∷ works, s₂))
          (requests-none n k (suc i) s₁ (omega arith) left))

  -- The rounds put no descriptor back: where nobody else does, the tenth waits.
  pub handle_sim_control_signal-none :
      (s : ring.State) (n : ℕ)
      → ring.entries s ≡ []
      → 9 < n
      → handle_sim_control_signal ring recv_desc_pool n (init_recv_desc_ring ring 0 true s) ≡ none
  unfolding init_recv_desc_ring
  handle_sim_control_signal-none s n e h =
      requests-none n 9 1 (journal_from ring 1 9 s) h
        (entries-journal_from 1 9 s ∙ ap (λ is. is ++ count 1 9) e)
