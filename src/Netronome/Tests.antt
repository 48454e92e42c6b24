-- ===== src/Netronome/Tests.antt =====
-- Concrete runs of runtime_lib/netronome_runtime/lib: a copy, a CAM, a flow table and a packet.
use alkali.Prelude.{
  ◌++◌, replicate, zero, suc, refl, ◌≡◌, inr, arith, ◌∷◌, ℕ, some, if◌then◌else◌, Bool-cases, ◌%◌,
  ◌≤◌, false, ◌==◌, [], ◌*◌, inl, suc, ◌^◌, ◌<◌, ◌+◌, ◌≢◌, ==_iff, true, ◌∙◌, not_==→ne, ne→not_==,
  sym, ap,
}
use alkali.Netronome.Cam.{CamLookup, CamUnit, init_me_cam, me_cam_lookup, me_cam_update}
use alkali.Netronome.Cam.Keys.{IsUnique, me_cam_lookup-update}
use alkali.Netronome.Cam.Init.{init_me_cam-IsUnique}
use alkali.Netronome.FlowTable.{FlowEntry, minus_one, lmem_flow_hash}
use alkali.Netronome.Packets.{
  PktInfo, Allocated, alloc_packet_buffer, inlined_net_send-alloc_packet_buffer,
}
use alkali.Netronome.Net.{
  NetEvent, PktMeta, mac_egress_cmd_write, msd_write, nbi_send, inlined_net_recv, inlined_net_send,
  inlined_net_send-recv,
}
use alkali.Netronome.Copy.{Memory, done, bulk_memcpy}
use alkali.Netronome.Copy.Loops.{finished, bulk_memcpy-block}

-- Every byte is its address.
abbrev addresses : Memory
addresses a = a

bulk_memcpy-block_example : bulk_memcpy 14 addresses 100 3 13 ≡ done (finished addresses 100 3 13)
bulk_memcpy-block_example =
    bulk_memcpy-block 14 addresses 100 3 13 (omega arith) (omega arith) (inr (omega arith))
      (omega arith)

-- A CAM that is searched from its last entry down, and replaces the first.
abbrev Tags : Type 0
Tags = ℕ → ℕ

abbrev search : Tags → ℕ → ℕ → CamLookup
search s k zero = record { hit = false; entry_num = 0 }
search s k (suc n) = if s n == k then record { hit = true; entry_num = n } else search s k n

search_bound : (s : Tags) (k n : ℕ) → n ≤ 16 → (search s k n).entry_num < 16
search_bound s k zero h = omega arith
search_bound s k (suc n) h = elim (Bool-cases (s n == k)) [
  | inl e ↦ rw e (omega arith)
  | inr e ↦ rw e (search_bound s k n (omega arith))
]

search_hit :
    (s : Tags) (k n i : ℕ)
    → n ≤ 16
    → i < n
    → s i ≡ k
    → ((j : ℕ) → j < 16 → s j ≡ k → j ≡ i)
    → ((search s k n).hit ≡ true) × ((search s k n).entry_num ≡ i)
search_hit s k zero i h below p only = absurd (omega arith)
search_hit s k (suc n) i h below p only = elim (Bool-cases (s n == k)) [
  | inl e ↦ rw e (refl, only n (omega arith) ((==_iff (s n) k).0 e))
  | inr e ↦
      let other : i ≢ n = λ same. not_==→ne (s n) k e (ap s (sym same) ∙ p) in
      rw e (search_hit s k n i (omega arith) (omega arith) p only)
]

search_miss :
    (s : Tags) (k n : ℕ) → n ≤ 16 → ((j : ℕ) → j < 16 → s j ≢ k) → (search s k n).hit ≡ false
search_miss s k zero h missing = refl
search_miss s k (suc n) h missing =
    rw (ne→not_== (s n) k (missing n (omega arith))) (search_miss s k n (omega arith) missing)

abbrev searched : CamUnit
searched = record {
  State = Tags;
  tag = λ s i. s i;
  cam_lookup = λ s k. (search s k 16, s);
  cam_write = λ i k v s j. if j == i then k else s j;
  cam_clear = λ s i. 0;
  lookup-tag = λ s k i. refl;
  lookup_bound = λ s k. search_bound s k 16 (omega arith);
  lookup_hit = λ s k i h p only. search_hit s k 16 i (omega arith) h p only;
  lookup_miss = λ s k missing. search_miss s k 16 (omega arith) missing;
  write-tag = λ i k v j s h. refl;
  clear-tag = λ s i. refl;
}

abbrev started : Tags
started = init_me_cam searched 0 16 addresses

started-IsUnique : IsUnique searched started
started-IsUnique = init_me_cam-IsUnique searched 16 addresses (omega arith)

me_cam_lookup-update_example :
    IsUnique searched (me_cam_update searched started 7).1
    × ((me_cam_lookup searched (me_cam_update searched started 7).1 7).0
        ≡ some (me_cam_update searched started 7).0)
me_cam_lookup-update_example =
    me_cam_lookup-update searched started 7 started-IsUnique (omega arith)

-- The entry with the tag 5 alone, and the entries 0, which are free.
abbrev one_key : Tags
one_key i = if i == 3 then 5 else 0

one_key-IsUnique : IsUnique searched one_key
unfolding IsUnique
one_key-IsUnique i j hi hj distinct same = elim (Bool-cases (i == 3)) [
  | inr a ↦ rw a refl
  | inl a ↦ elim (Bool-cases (j == 3)) [
    | inl b ↦ absurd (distinct ((==_iff i 3).0 a ∙ sym ((==_iff j 3).0 b)))
    | inr b ↦ same ∙ ap (λ c. if c then 5 else 0) b
  ]
]

finds_5 : (me_cam_lookup searched one_key 5).0 ≡ some 3
unfolding me_cam_lookup
finds_5 = refl

replaces_0 : (me_cam_update searched one_key 7).0 ≡ 0
unfolding me_cam_update
replaces_0 = refl

-- Ten buckets.
abbrev hash : ℕ → ℕ
hash k = k

abbrev bucket : ℕ → ℕ → ℕ
bucket h size = h % size

abbrev flow : FlowEntry
flow = record { key = 2; flow_id = 9 }

same_bucket : bucket (lmem_flow_hash hash bucket 12) 10 ≡ bucket (lmem_flow_hash hash bucket 2) 10
unfolding lmem_flow_hash
same_bucket = refl

abbrev pointer : ℕ → ℕ → ℕ → ℕ
pointer isl pnum off = 2 * 2 ^ 38 + isl * 2 ^ 32 + 2 ^ 31 + pnum * 2 ^ 16 + off

abbrev received : PktMeta
received = record { isl = 32; pnum = 300; pkt_len = 60; pkt_seq = 5 }

abbrev blank : NetEvent
blank = record {
  packet_ptr = 0;
  packet_offs = 0;
  packet_sz = 0;
  meta = record { seq = 0; len = 0 };
  context_p = 0;
}

inlined_net_send-recv_example :
    (inlined_net_send pointer 32 (inlined_net_recv pointer 32 received blank)).0
    ≡ mac_egress_cmd_write (pointer 32 300 0) 64
      ∷ msd_write (pointer 32 300 0) 64
      ∷ nbi_send 32 300 60 0 0 0 0
      ∷ []
inlined_net_send-recv_example =
    inlined_net_send-recv pointer 32 (λ isl pnum off h h' h''. refl) received blank (omega arith)
      (omega arith) (omega arith)

-- What an uninitialised variable may hold.
abbrev garbage : PktInfo
garbage = record { isl = 9; pnum = 9; bls = 3; len = 5; split = 1; resv0 = 2; muptr = 9 }

inlined_net_send-alloc_packet_buffer_example :
    (a : Allocated) × (alloc_packet_buffer pointer 32 garbage
        (replicate 2 minus_one ++ (300 ∷ []))
        (replicate 1 (1, 0) ++ ((0, 2 ^ 29 + 77) ∷ []))
      ≡ some a)
    × (a.info ≡ record garbage { isl = 32; pnum = 300; bls = 0; muptr = (2 ^ 29 + 77) % 2 ^ 29 })
    × ((inlined_net_send pointer 32 (record blank { packet_ptr = a.pointer })).0
        ≡ mac_egress_cmd_write a.written_at 64
          ∷ msd_write a.written_at 64
          ∷ nbi_send 32 a.info.pnum blank.meta.len 0 0 0 0
          ∷ [])
inlined_net_send-alloc_packet_buffer_example =
    inlined_net_send-alloc_packet_buffer pointer 32 2 1 1 0 300 (2 ^ 29 + 77) [] [] garbage blank
      (omega arith) (omega arith) (omega arith) refl
