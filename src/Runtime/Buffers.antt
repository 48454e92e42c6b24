-- ===== src/Runtime/Buffers.antt =====
-- runtime-llvm/runtime.c: the buffers of packets. A block from `malloc` is the list of its bytes, and
-- an access outside it is undefined behaviour, `none`.
pub mod Contents
pub mod Sequence
pub mod RoundTrip
use alkali.Prelude.{
  ℕ, ◌+◌, ◌*◌, ◌-◌, ◌^◌, ◌≡◌, Bool, true, false, ◌||◌, List, ◌++◌, Option, none, some, ◌>>=◌, ltb,
  leb, length, take, drop, if◌then◌else◌,
}

abbrev pub Bytes : Type 0
Bytes = List ℕ

-- What `malloc` finds in a new block, of which nothing is known but its length.
pub record Allocator : Type 0 where
  pub fresh : ℕ → Bytes
  pub length-fresh : (n : ℕ) → length (fresh n) ≡ n

-- `buf_t`, with the block behind `data` for the pointer.
pub record Buf : Type 0 where
  pub bytes : Bytes
  pub size : ℕ
  pub offset : ℕ

-- `memcpy(dst + at, src, n)`.
unfoldable pub memcpy : Bytes → ℕ → Bytes → ℕ → Option Bytes
memcpy dst at src n =
    if ltb (length dst) (at + n) || ltb (length src) n
    then none
    else some (take at dst ++ (take n src ++ drop (at + n) dst))

-- The next four bytes, which are read for a message.
unfoldable pub print_next : Buf → Option (Unit {0})
print_next b = if ltb (length b.bytes) (b.offset + 4) then none else some tt

-- `offset += n`, for an `int`.
unfoldable pub advance : ℕ → Buf → Option Buf
advance n b =
    if ltb (b.offset + n) (2 ^ 31) then some (record b { offset = b.offset + n }) else none

module _ (alloc : Allocator) where
  -- `__rt_buf_init`.
  unfoldable pub buf_init : Buf
  buf_init = record { bytes = alloc.fresh 1024; size = 1024; offset = 0 }

  -- `realloc` to `n` bytes.
  unfoldable pub realloc : ℕ → Bytes → Bytes
  realloc n d = take n d ++ alloc.fresh (n - length d)

  -- `if (buf->offset + size > buf->size)`: the size is doubled, once.
  unfoldable pub grow : ℕ → Buf → Option Buf
  unfolding realloc
  grow n b =
      if leb (b.offset + n) b.size
      then some b
      else if ltb (b.size * 2) (2 ^ 31)
      then some (record b { bytes = realloc (b.size * 2) b.bytes; size = b.size * 2 })
      else none

  -- `__rt_buf_emit`, with the block that holds the `n` bytes of `src`.
  unfoldable pub buf_emit : Buf → ℕ → Bytes → Option Buf
  unfolding grow memcpy print_next advance
  buf_emit b n src = do
    b₁ ← grow n b
    d ← memcpy b₁.bytes b₁.offset src n
    let b₂ : Buf = record b₁ { bytes = d }
    _ ← print_next b₂
    advance n b₂

  -- `__rt_buf_concat`. Where `other` has been read beyond its size, the difference is negative and
  -- `memcpy` takes it for a huge size.
  unfoldable pub buf_concat : Buf → Buf → Option Buf
  unfolding grow memcpy advance
  buf_concat b other = if ltb other.size other.offset then none else (do
    let n = other.size - other.offset
    b₁ ← grow n b
    d ← memcpy b₁.bytes b₁.offset (drop other.offset other.bytes) n
    advance other.offset (record b₁ { bytes = d }))

-- `__rt_buf_extract` returns a pointer to the bytes at the offset, here its distance from `data`.
unfoldable pub buf_extract : Buf → ℕ → Option (ℕ × Buf)
unfolding print_next advance
buf_extract b n = do _ ← print_next b; b' ← advance n b; some (b.offset, b')
