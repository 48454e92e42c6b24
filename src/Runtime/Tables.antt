-- ===== src/Runtime/Tables.antt =====
-- runtime-llvm/runtime.c: tables. A table has one block for its value.
use alkali.Prelude.{
  ℕ, ◌+◌, ◌≤◌, ◌≡◌, ap, ◌∙◌, ◌++◌, append-nil, Option, none, some, some-chain, ◌>>=◌, ltb, length,
  take, replicate, if◌then◌else◌, arith, length-replicate, ltb-false, false, drop_all,
}
use alkali.Runtime.Buffers.{Bytes, memcpy}
use alkali.Runtime.Buffers.Contents.{copied, memcpy-copied, length-copied}

-- `table_t`, with the block behind `el`.
pub record Table : Type 0 where
  pub vsize : ℕ
  pub el : Bytes

-- `__rt_table_init`; `calloc` gives zeros.
unfoldable pub table_init : ℕ → Table
table_init vsize = record { vsize = vsize; el = replicate vsize 0 }

-- `__rt_table_alloc`.
unfoldable pub table_alloc : ℕ → Table
unfolding table_init
table_alloc vsize = table_init vsize

-- The first two integers of the value, which are read for a message.
unfoldable pub print_value : Table → Option (Unit {0})
print_value t = if ltb (length t.el) 8 then none else some tt

-- `__rt_table_lookup`: the block that the pointer returned leads to.
unfoldable pub table_lookup : Table → ℕ → Option Bytes
unfolding print_value
table_lookup t key = do _ ← print_value t; some t.el

-- `__rt_table_update`, with the block that holds the value.
unfoldable pub table_update : Table → ℕ → Bytes → Option Table
unfolding memcpy print_value
table_update t key v = do
  el ← memcpy t.el 0 v t.vsize
  let t' : Table = record t { el = el }
  _ ← print_value t'
  some t'

pub record IsTable (t : Table) : Type 0 where
  pub block : length t.el ≡ t.vsize
  pub printable : 8 ≤ t.vsize

pub table_init-IsTable : (vsize : ℕ) → 8 ≤ vsize → IsTable (table_init vsize)
unfolding table_init
table_init-IsTable vsize h = record { block = length-replicate vsize 0; printable = h }

-- An update with any key is what a lookup with any key finds: there is one value for all keys. The
-- table stays as it has to be.
pub table_lookup-update :
    (t : Table) (key key' : ℕ) (v : Bytes)
    → IsTable t
    → t.vsize ≤ length v
    → (t' : Table) × (table_update t key v ≡ some t')
      × IsTable t'
      × (table_lookup t' key' ≡ some (take t.vsize v))
unfolding table_update table_lookup print_value
table_lookup-update t key key' v valid h =
    let block = valid.block in
    let printable = valid.printable in
    let inside : 0 + t.vsize ≤ length t.el = omega arith in
    let el = copied t.el v 0 t.vsize inside h in
    let l = length-copied t.el v 0 t.vsize inside h in
    let big : ltb (length el) 8 ≡ false = ltb-false (length el) 8 (omega arith) in
    let whole : el ≡ take t.vsize v =
      ap (λ xs. take t.vsize v ++ xs) (drop_all (0 + t.vsize) t.el (omega arith))
      ∙ append-nil (take t.vsize v) in
    (
      record t { el = el },
      some-chain _ (memcpy-copied t.el v 0 t.vsize inside h) (rw big),
      record { block = l ∙ block; printable = printable },
      rw big (ap some whole),
    )
