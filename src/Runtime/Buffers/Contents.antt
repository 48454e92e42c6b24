-- ===== src/Runtime/Buffers/Contents.antt =====
-- runtime-llvm/runtime.c: a buffer that is written, as the bytes before its offset.
use alkali.Prelude.{
  ℕ, ◌+◌, ◌*◌, ◌-◌, ◌^◌, ◌≤◌, ◌<◌, ◌≡◌, refl, sym, ap, subst, ◌∙◌, ◌++◌, append_assoc, none, some,
  some-chain, leb, length, take, drop, if◌then◌else◌, arith, length-append, length-take,
  length-drop, take-append, take-append_within, take_all, ltb-false, lt→ltb, inl, inr, Bool-cases,
}
use alkali.Runtime.Buffers.{
  Bytes, Allocator, Buf, memcpy, print_next, advance, realloc, grow, buf_emit,
}

unfoldable pub contents : Buf → Bytes
contents b = take b.offset b.bytes

-- The size is that of the block, and the offset is in it.
pub record IsValid (b : Buf) : Type 0 where
  pub block : length b.bytes ≡ b.size
  pub within : b.offset ≤ b.size
  pub is_int : b.size < 2 ^ 31

-- The size once `n` bytes are wanted behind the offset.
unfoldable pub room : Buf → ℕ → ℕ
room b n = if leb (b.offset + n) b.size then b.size else b.size * 2

-- `memcpy` within its blocks.
module _ (dst src : Bytes) (at n : ℕ) (h : at + n ≤ length dst) (h' : n ≤ length src) where
  abbrev pub copied : Bytes
  copied = take at dst ++ (take n src ++ drop (at + n) dst)

  pub memcpy-copied : memcpy dst at src n ≡ some copied
  unfolding memcpy
  memcpy-copied = rw (ltb-false (length dst) (at + n) h, ltb-false (length src) n h')

  pub length-copied : length copied ≡ length dst
  length-copied =
      let front = length-append (take at dst) (take n src ++ drop (at + n) dst) in
      let back = length-append (take n src) (drop (at + n) dst) in
      let l₁ = length-take at dst in
      let l₂ = length-take n src in let l₃ = length-drop (at + n) dst in omega arith

  pub take-copied : take (at + n) copied ≡ take at dst ++ take n src
  take-copied =
      let whole = append_assoc (take at dst) (take n src) (drop (at + n) dst) in
      let l₁ = length-take at dst in
      let l₂ = length-take n src in
      let total : length (take at dst ++ take n src) ≡ at + n =
        omega (arith, length-append (take at dst) (take n src)) in
      ap (take (at + n)) (sym whole)
      ∙ ap (λ k. take k ((take at dst ++ take n src) ++ drop (at + n) dst)) (sym total)
      ∙ take-append (take at dst ++ take n src) (drop (at + n) dst)

pub memcpy-none : (dst src : Bytes) (at n : ℕ) → length dst < at + n → memcpy dst at src n ≡ none
unfolding memcpy
memcpy-none dst src at n h = rw (lt→ltb (length dst) (at + n) h)

-- A buffer with room for `n` more bytes, and the same contents.
pub record Grown (b : Buf) (n : ℕ) (b' : Buf) : Type 0 where
  pub same_offset : b'.offset ≡ b.offset
  pub new_size : b'.size ≡ room b n
  pub new_block : length b'.bytes ≡ room b n
  pub kept : take b.offset b'.bytes ≡ contents b

pub grow-Grown :
    (alloc : Allocator) (b : Buf) (n : ℕ)
    → IsValid b
    → room b n < 2 ^ 31
    → (b' : Buf) × (grow alloc n b ≡ some b') × Grown b n b'
unfolding grow realloc room contents
grow-Grown alloc b n valid h =
    let block = valid.block in
    let within = valid.within in
    elim (Bool-cases (leb (b.offset + n) b.size)) [
      | inl e ↦ (
        b,
        rw e,
        record { same_offset = refl; new_size = rw e; new_block = rw e block; kept = refl },
      )
      | inr e ↦
          let bound : b.size * 2 < 2 ^ 31 =
            subst (λ c. (if c then b.size else b.size * 2) < 2 ^ 31) e h in
          let junk = alloc.fresh (b.size * 2 - length b.bytes) in
          let all : take (b.size * 2) b.bytes ≡ b.bytes =
            take_all (b.size * 2) b.bytes (omega arith) in
          let l₁ = length-append b.bytes junk in
          let l₂ = alloc.length-fresh (b.size * 2 - length b.bytes) in
          (
            record b { bytes = take (b.size * 2) b.bytes ++ junk; size = b.size * 2 },
            rw (e, lt→ltb (b.size * 2) (2 ^ 31) bound),
            record {
              same_offset = refl;
              new_size = rw e;
              new_block = rw (e, all) (omega arith);
              kept = rw all (take-append_within b.offset b.bytes junk (omega arith));
            },
          )
    ]

-- An emit succeeds where there is room for its bytes, and for the four that are printed.
module _ (alloc : Allocator) (b : Buf) (n : ℕ) (src : Bytes) (valid : IsValid b)
    (is_int : room b n < 2 ^ 31) (readable : n ≤ length src) where
  -- The buffer behind it has the bytes emitted behind its contents.
  pub buf_emit-contents :
      b.offset + n ≤ room b n
      → b.offset + 4 ≤ room b n
      → (b' : Buf) × (buf_emit alloc b n src ≡ some b')
        × (b'.size ≡ room b n)
        × IsValid b'
        × (contents b' ≡ contents b ++ take n src)
  unfolding buf_emit print_next advance contents
  buf_emit-contents fits fits_4 =
      let (b₁, grows, g) = grow-Grown alloc b n valid is_int in
      let place = g.same_offset in
      let size = g.new_size in
      let block = g.new_block in
      let inside : b₁.offset + n ≤ length b₁.bytes = omega arith in
      let d = copied b₁.bytes src b₁.offset n inside readable in
      let same_length = length-copied b₁.bytes src b₁.offset n inside readable in
      (
        record b₁ { bytes = d; offset = b₁.offset + n },
        some-chain _ grows (
            some-chain _ (memcpy-copied b₁.bytes src b₁.offset n inside readable) (
              rw (
                ltb-false (length d) (b₁.offset + 4) (omega arith),
                lt→ltb (b₁.offset + n) (2 ^ 31) (omega arith),
              ))),
        size,
        record { block = omega arith; within = omega arith; is_int = omega arith },
        take-copied b₁.bytes src b₁.offset n inside readable
            ∙ ap (λ o. take o b₁.bytes ++ take n src) place
            ∙ ap (λ t. t ++ take n src) g.kept,
      )

  -- Where doubling the size once does not give room, the bytes are written beyond the block.
  pub buf_emit-overflow : room b n < b.offset + n → buf_emit alloc b n src ≡ none
  unfolding buf_emit
  buf_emit-overflow over =
      let (b₁, grows, g) = grow-Grown alloc b n valid is_int in
      let place = g.same_offset in
      let size = g.new_block in
      some-chain _ grows (rw (memcpy-none b₁.bytes src b₁.offset n (omega arith)))
