-- ===== src/Netronome/Copy.antt =====
-- runtime_lib/netronome_runtime/lib/nfplib.h: `bulk_memcpy`, over a memory of bytes with addresses of
-- 32 bits, to which it casts its pointers.
pub mod Blocks
pub mod Loops
use alkali.Prelude.{ℕ, zero, suc, ◌+◌, ◌-◌, ◌%◌, ◌^◌, Bool, true, false, ◌&&◌, leb, ltb, ◌==◌}

abbrev pub Memory : Type 0
Memory = ℕ → ℕ

-- The variables of `bulk_memcpy`, with the memory. A negative `n` copies nothing, as 0.
pub record Copy : Type 0 where
  pub memory : Memory
  pub p : ℕ
  pub q : ℕ
  pub n : ℕ

-- An access at an address that is no multiple of its width is `misaligned`.
pub data Outcome : Type 0 where
  done : Copy → Outcome
  misaligned : Outcome
  out_of_fuel : Outcome

-- `ALIGNED_U64`, `ALIGNED_U32` and `ALIGNED_U16` of an address, for widths of 8, 4 and 2.
unfoldable pub aligned : ℕ → ℕ → Bool
aligned w a = a % w == 0

unfoldable pub both_aligned : ℕ → Copy → Bool
unfolding aligned
both_aligned w s = aligned w s.p && aligned w s.q

-- The memory after the `w` bytes at `q` have been read and written to `p`.
unfoldable pub block : ℕ → ℕ → ℕ → Memory → Memory
block w p q m a = elim (leb p a && ltb a (p + w)) [ true ↦ m (q + (a - p)) | false ↦ m a ]

-- `*(T *) p = *(T *) q; p += w; q += w; n -= w;` for a type of width `w`, and what follows.
unfoldable pub store : ℕ → Copy → (Copy → Outcome) → Outcome
unfolding both_aligned block
store w s k = elim (both_aligned w s) [
  | true ↦ k (record {
    memory = block w s.p s.q s.memory;
    p = (s.p + w) % 2 ^ 32;
    q = (s.q + w) % 2 ^ 32;
    n = s.n - w;
  })
  | false ↦ misaligned
]

-- `while (n >= w)`.
unfoldable pub words : ℕ → ℕ → Copy → Outcome
unfolding store
words zero w s = out_of_fuel
words (suc f) w s = elim (leb w s.n) [ true ↦ store w s (λ s'. words f w s') | false ↦ done s ]

-- `while (n > 0)`.
unfoldable pub rest : ℕ → Copy → Outcome
unfolding store both_aligned
rest zero s = out_of_fuel
rest (suc f) s = elim (ltb 0 s.n) [
  | false ↦ done s
  | true ↦ elim (ltb 8 s.n && both_aligned 8 s) [
    | true ↦ store 8 s (λ s'. rest f s')
    | false ↦ elim (ltb 4 s.n && both_aligned 4 s) [
      | true ↦ store 4 s (λ s'. rest f s')
      | false ↦ store 1 s (λ s'. rest f s')
    ]
  ]
]

abbrev pub and_then : Outcome → (Copy → Outcome) → Outcome
and_then (done s) k = k s
and_then misaligned k = misaligned
and_then out_of_fuel k = out_of_fuel

-- `if (ALIGNED(p) && ALIGNED(q)) while (n >= w) …`.
unfoldable pub words_if_aligned : ℕ → ℕ → Copy → Outcome
unfolding both_aligned words
words_if_aligned f w s = elim (both_aligned w s) [ true ↦ words f w s | false ↦ done s ]

unfoldable pub bulk_memcpy : ℕ → Memory → ℕ → ℕ → ℕ → Outcome
unfolding words_if_aligned rest
bulk_memcpy f m dest src n =
    let s : Copy = record { memory = m; p = dest % 2 ^ 32; q = src % 2 ^ 32; n = n } in
    and_then (words_if_aligned f 8 s) λ s₁. and_then (words_if_aligned f 4 s₁) λ s₂. rest f s₂
