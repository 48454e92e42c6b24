-- ===== src/Netronome/Copy/Blocks.antt =====
-- Copies of one block after another.
use alkali.Prelude.{
  ℕ, ◌+◌, ◌-◌, ◌≤◌, ◌<◌, ◌≡◌, le→leb, lt→ltb, arith, ◌⊎◌, inl, inr, funext, lt_or_le,
}
use alkali.Netronome.Copy.{Memory, block}

-- The `n` bytes at `p` and at `q` do not overlap.
abbrev pub Disjoint : ℕ → ℕ → ℕ → Type 0
Disjoint n p q = (p + n ≤ q) ⊎ (q + n ≤ p)

-- A byte inside the block, and one outside.
module _ (w p q : ℕ) (m : Memory) (a : ℕ) where
  pub block-inside : p ≤ a → a < p + w → block w p q m a ≡ m (q + (a - p))
  unfolding block
  block-inside h h' = rw (block, le→leb p a h, lt→ltb a (p + w) h')

  pub block-outside : (a < p) ⊎ (p + w ≤ a) → block w p q m a ≡ m a
  unfolding block
  block-outside h = ground arith

pub block-empty : (p q : ℕ) (m : Memory) → block 0 p q m ≡ m
block-empty p q m =
    funext λ a.
      block-outside 0 p q m a (elim (lt_or_le a p) [ inl h ↦ inl h | inr h ↦ inr (omega arith) ])

-- Two blocks, one behind the other, are one block.
pub block-block :
    (w k p q : ℕ) (m : Memory)
    → Disjoint (w + k) p q
    → block k (p + w) (q + w) (block w p q m) ≡ block (w + k) p q m
block-block w k p q m d = funext λ a. elim (lt_or_le a p) [
  | inl h ↦ rw (
    block-outside k (p + w) (q + w) (block w p q m) a (inl (omega arith)),
    block-outside w p q m a (inl h),
    block-outside (w + k) p q m a (inl h),
  )
  | inr h ↦ elim (lt_or_le a (p + w)) [
    | inl h' ↦ rw (
      block-outside k (p + w) (q + w) (block w p q m) a (inl h'),
      block-inside w p q m a h h',
      block-inside (w + k) p q m a h (omega arith),
    )
    | inr h' ↦ elim (lt_or_le a (p + w + k)) [
      | inl h″ ↦
          let source_apart : (q + (a - p) < p) ⊎ (p + w ≤ q + (a - p)) = elim d [
            | inl before ↦ inr (omega arith)
            | inr behind ↦ inl (omega arith)
          ] in
          let place : q + w + (a - (p + w)) ≡ q + (a - p) = omega arith in
          rw (
            block-inside k (p + w) (q + w) (block w p q m) a h' h″,
            place,
            block-outside w p q m (q + (a - p)) source_apart,
            block-inside (w + k) p q m a h (omega arith),
          )
      | inr h″ ↦ rw (
        block-outside k (p + w) (q + w) (block w p q m) a (inr h″),
        block-outside w p q m a (inr h'),
        block-outside (w + k) p q m a (inr (omega arith)),
      )
    ]
  ]
]
