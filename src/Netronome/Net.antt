-- ===== src/Netronome/Net.antt =====
-- runtime_lib/netronome_runtime/lib/extern/extern_net.h and extern_net_meta.h: packets from and to
-- the network, by the packet engine of the card's library. Words have their widths written out.
use alkali.Prelude.{List, [], ◌∷◌, ◌-◌, ◌*◌, ◌<◌, ◌≡◌, refl, ap, ◌∙◌, arith, ℕ, ◌+◌, ◌/◌, ◌%◌, ◌^◌}

-- `PKT_NBI_OFFSET + MAC_PREPEND_BYTES + PKBUF_SHIF_BYTES`.
abbrev pub headroom : ℕ
headroom = 64 + 0 + 0

-- `PORT_TO_TMQ`, with `MAC_CHAN_PER_PORT * 8` queues for a port.
abbrev pub port_to_tmq : ℕ → ℕ
port_to_tmq x = x * (4 * 8)

-- `struct recv_meta_t` and `struct send_meta_t`, two fields of 16 bits.
pub record Meta : Type 0 where
  pub seq : ℕ
  pub len : ℕ

-- `extern_event_param_NET_RECV` and `extern_event_param_NET_SEND`, which have the same fields.
pub record NetEvent : Type 0 where
  pub packet_ptr : ℕ
  pub packet_offs : ℕ
  pub packet_sz : ℕ
  pub meta : Meta
  pub context_p : ℕ

-- What `pkt_nbi_recv_with_hdrs` puts into `pkt`: the fields of `pkt.meta` that are used.
pub record PktMeta : Type 0 where
  pub isl : ℕ
  pub pnum : ℕ
  pub pkt_len : ℕ
  pub pkt_seq : ℕ

-- The calls of the packet engine for a packet sent, in their order.
pub data Command : Type 0 where
  -- `pkt_mac_egress_cmd_write(ptr, offset, 1, 1)`.
  mac_egress_cmd_write : ℕ → ℕ → Command
  -- `pkt_msd_write(ptr, offset)`.
  msd_write : ℕ → ℕ → Command
  -- `pkt_nbi_send(island, pnum, &msi, len, NBI, txq, seqr, seq, PKT_CTM_SIZE_256)`, with what the
  -- call before it returned in `msi`.
  nbi_send : ℕ → ℕ → ℕ → ℕ → ℕ → ℕ → ℕ → Command

-- `get_pnum_from_addr`; the mask 0x7FFF0000 has the bits 16 to 30.
unfoldable pub get_pnum_from_addr : ℕ → ℕ
get_pnum_from_addr addr =
    let masked = addr / 2 ^ 16 % 2 ^ 15 * 2 ^ 16 in
    let shifted = masked / 2 ^ 16 in shifted % 2 ^ 32

-- A pointer in packet-address mode, by its bits.
abbrev pub packet_address : ℕ → ℕ → ℕ → ℕ
packet_address isl pnum off = 2 * 2 ^ 38 + isl * 2 ^ 32 + 2 ^ 31 + pnum * 2 ^ 16 + off

pub get_pnum_from_addr-packet_address :
    (isl pnum : ℕ)
    → isl < 2 ^ 6
    → pnum < 2 ^ 9
    → get_pnum_from_addr (packet_address isl pnum 0) ≡ pnum
unfolding get_pnum_from_addr
get_pnum_from_addr-packet_address isl pnum h h' = omega arith

module _ (pkt_ctm_ptr40 : ℕ → ℕ → ℕ → ℕ) (island : ℕ) where
  -- `inlined_net_recv`, once the packet is there.
  unfoldable pub inlined_net_recv : PktMeta → NetEvent → NetEvent
  inlined_net_recv pkt event =
      let pbuf = pkt_ctm_ptr40 pkt.isl pkt.pnum 0 in
      let len = pkt.pkt_len % 2 ^ 16 in
      record event {
        meta = record { seq = pkt.pkt_seq % 2 ^ 16; len = len };
        packet_ptr = (pbuf + headroom) % 2 ^ 64;
        packet_offs = 0;
        packet_sz = len;
      }

  -- `inlined_net_send`.
  unfoldable pub inlined_net_send : NetEvent → List Command × NetEvent
  unfolding get_pnum_from_addr
  inlined_net_send event =
      let ptr = (event.packet_ptr + 2 ^ 64 - headroom) % 2 ^ 64 in
      let meta : Meta = record { seq = 0; len = event.meta.len } in
      (
        mac_egress_cmd_write ptr (64 + 0)
            ∷ msd_write ptr (64 + 0)
            ∷ nbi_send island (get_pnum_from_addr ptr) (meta.len - 0) 0 (port_to_tmq 0) 0 meta.seq
            ∷ [],
        record event { packet_ptr = ptr; meta = meta },
      )

  module _
      (layout : (isl pnum off : ℕ)
        → isl < 2 ^ 6
        → pnum < 2 ^ 9
        → off < 2 ^ 14
        → pkt_ctm_ptr40 isl pnum off ≡ packet_address isl pnum off) where
    -- Where the pointers to a packet in CTM have the documented bits, a packet received is sent by
    -- its number and its length, from the pointer that the packet has.
    pub inlined_net_send-recv :
        (pkt : PktMeta) (event : NetEvent)
        → pkt.isl < 2 ^ 6
        → pkt.pnum < 2 ^ 9
        → pkt.pkt_len < 2 ^ 16
        → (inlined_net_send (inlined_net_recv pkt event)).0
          ≡ mac_egress_cmd_write (pkt_ctm_ptr40 pkt.isl pkt.pnum 0) 64
            ∷ msd_write (pkt_ctm_ptr40 pkt.isl pkt.pnum 0) 64
            ∷ nbi_send island pkt.pnum pkt.pkt_len 0 0 0 0
            ∷ []
    unfolding inlined_net_send inlined_net_recv
    inlined_net_send-recv pkt event h h' h'' =
        let p = pkt_ctm_ptr40 pkt.isl pkt.pnum 0 in
        let bits = layout pkt.isl pkt.pnum 0 h h' (omega arith) in
        let ptr : ((p + 64) % 2 ^ 64 + 2 ^ 64 - 64) % 2 ^ 64 ≡ p = omega arith in
        let number : get_pnum_from_addr p ≡ pkt.pnum =
          ap get_pnum_from_addr bits ∙ get_pnum_from_addr-packet_address pkt.isl pkt.pnum h h' in
        let len : pkt.pkt_len % 2 ^ 16 - 0 ≡ pkt.pkt_len = omega arith in rw (ptr, number, len) refl
