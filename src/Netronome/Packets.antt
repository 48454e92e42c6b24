-- ===== src/Netronome/Packets.antt =====
-- runtime_lib/netronome_runtime/lib/nfplib.h: the allocation of a buffer for a packet. The attempts of
-- its two loops are the lists of what `pkt_ctm_alloc` and `blm_buf_alloc` return in turn; after the
-- last the loop still waits, `none`.
use alkali.Prelude.{
  ℕ, zero, suc, ◌+◌, ◌-◌, ◌^◌, ◌%◌, ◌<◌, ◌≡◌, ◌≢◌, refl, ap, ◌∙◌, List, [], ◌∷◌, ◌++◌, Option, none,
  some, ◌>>=◌, some-chain, ◌==◌, ne→not_==, if◌then◌else◌, replicate, arith,
}
use alkali.Netronome.FlowTable.{minus_one}
use alkali.Netronome.Net.{
  headroom, NetEvent, mac_egress_cmd_write, msd_write, nbi_send, inlined_net_send,
  get_pnum_from_addr, packet_address, get_pnum_from_addr-packet_address,
}

-- `struct nbi_meta_pkt_info`: bit fields of 6, 10, 2, 14, 1, 2 and 29 bits.
pub record PktInfo : Type 0 where
  pub isl : ℕ
  pub pnum : ℕ
  pub bls : ℕ
  pub len : ℕ
  pub split : ℕ
  pub resv0 : ℕ
  pub muptr : ℕ

-- The assignments to `pkt_info`, each cut to its field; the others keep what they hold.
unfoldable pub set_pkt_info : ℕ → ℕ → ℕ → PktInfo → PktInfo
set_pkt_info island pnum buf pkt_info = record pkt_info {
  isl = island % 2 ^ 6;
  pnum = pnum % 2 ^ 10;
  bls = 0;
  muptr = buf % 2 ^ 29;
}

-- The loop over `pkt_ctm_alloc`.
unfoldable pub ctm_alloc : List ℕ → Option ℕ
ctm_alloc [] = none
ctm_alloc (pnum ∷ attempts) = if pnum == minus_one then ctm_alloc attempts else some pnum

-- The loop over `blm_buf_alloc`, which returns a code and puts a handle into `buf`.
unfoldable pub blm_alloc : List (ℕ × ℕ) → Option ℕ
blm_alloc [] = none
blm_alloc ((code, buf) ∷ attempts) = if code == 0 then some buf else blm_alloc attempts

-- What is written by `mem_write32`, with its address, and the pointer returned.
pub record Allocated : Type 0 where
  pub info : PktInfo
  pub written_at : ℕ
  pub pointer : ℕ

module _ (pkt_ctm_ptr40 : ℕ → ℕ → ℕ → ℕ) (island : ℕ) where
  -- `alloc_packet_buffer`, on what the variable `pkt_info`, which is not initialised, holds.
  unfoldable pub alloc_packet_buffer : PktInfo → List ℕ → List (ℕ × ℕ) → Option Allocated
  unfolding ctm_alloc blm_alloc set_pkt_info
  alloc_packet_buffer pkt_info ctm_attempts blm_attempts = do
    pnum ← ctm_alloc ctm_attempts
    buf ← blm_alloc blm_attempts
    let pbuf = pkt_ctm_ptr40 island pnum 0
    some (record {
      info = set_pkt_info island pnum buf pkt_info;
      written_at = pbuf;
      pointer = (pbuf + headroom) % 2 ^ 64;
    })

  ctm_alloc-retries :
      (failures pnum : ℕ) (later : List ℕ)
      → pnum ≢ minus_one
      → ctm_alloc (replicate failures minus_one ++ (pnum ∷ later)) ≡ some pnum
  unfolding ctm_alloc
  ctm_alloc-retries zero pnum later h = rw (ne→not_== pnum minus_one h)
  ctm_alloc-retries (suc n) pnum later h = ctm_alloc-retries n pnum later h

  blm_alloc-retries :
      (failures code junk buf : ℕ) (later : List (ℕ × ℕ))
      → code ≢ 0
      → blm_alloc (replicate failures (code, junk) ++ ((0, buf) ∷ later)) ≡ some buf
  unfolding blm_alloc
  blm_alloc-retries zero code junk buf later h = refl
  blm_alloc-retries (suc n) code junk buf later h =
      rw (ne→not_== code 0 h) (blm_alloc-retries n code junk buf later h)

  -- After any number of attempts that fail, of blm_buf_alloc with a code other than 0, and where the
  -- island is below 2^6, the number of the packet below 2^9 and the pointer to the packet has the
  -- documented bits, alloc_packet_buffer has a result: the info that it writes at the start of the
  -- packet has the island, the first number and the low 29 bits of the first buffer that it is
  -- given, 0 for bls, and in its other fields what was there before; and from the pointer that it
  -- returns inlined_net_send sends the packet at the place of the info, with the number in it.
  pub inlined_net_send-alloc_packet_buffer :
      (tries tries' code junk pnum buf : ℕ) (later : List ℕ) (later' : List (ℕ × ℕ))
      (pkt_info : PktInfo) (event : NetEvent)
      → island < 2 ^ 6
      → pnum < 2 ^ 9
      → code ≢ 0
      → pkt_ctm_ptr40 island pnum 0 ≡ packet_address island pnum 0
      → (a : Allocated) × (alloc_packet_buffer pkt_info
            (replicate tries minus_one ++ (pnum ∷ later))
            (replicate tries' (code, junk) ++ ((0, buf) ∷ later'))
          ≡ some a)
        × (a.info ≡ record pkt_info { isl = island; pnum = pnum; bls = 0; muptr = buf % 2 ^ 29 })
        × ((inlined_net_send pkt_ctm_ptr40 island (record event { packet_ptr = a.pointer })).0
            ≡ mac_egress_cmd_write a.written_at 64
              ∷ msd_write a.written_at 64
              ∷ nbi_send island a.info.pnum event.meta.len 0 0 0 0
              ∷ [])
  unfolding alloc_packet_buffer inlined_net_send set_pkt_info
  inlined_net_send-alloc_packet_buffer tries tries' code junk pnum buf later later' pkt_info event h
        h' refused bits =
      let p = pkt_ctm_ptr40 island pnum 0 in
      let ptr : ((p + 64) % 2 ^ 64 + 2 ^ 64 - 64) % 2 ^ 64 ≡ p = omega arith in
      let number : get_pnum_from_addr p ≡ pnum =
        ap get_pnum_from_addr bits ∙ get_pnum_from_addr-packet_address island pnum h h' in
      let len : event.meta.len - 0 ≡ event.meta.len = omega arith in
      let isl : island % 2 ^ 6 ≡ island = omega (arith, h) in
      let num : pnum % 2 ^ 10 ≡ pnum = omega (arith, h') in
      (
        record {
          info = set_pkt_info island pnum buf pkt_info;
          written_at = p;
          pointer = (p + headroom) % 2 ^ 64;
        },
        some-chain _ (ctm_alloc-retries tries pnum later (omega arith))
            (some-chain _ (blm_alloc-retries tries' code junk buf later' refused) refl),
        rw (isl, num) refl,
        rw (ptr, number, len, num) refl,
      )
