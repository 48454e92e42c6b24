-- ===== src/Runtime/Buffers/RoundTrip.antt =====
-- runtime-llvm/runtime.c: the chunks that were emitted into a buffer are those that are extracted
-- from it once its offset is back where it was.
use alkali.Prelude.{
  ℕ, ◌+◌, ◌^◌, ◌≤◌, ◌<◌, ◌≡◌, sym, ap, ◌∙◌, List, [], ◌∷◌, ◌++◌, map, append_assoc, Option, some,
  some-chain, ◌>>=◌, length, take, drop, arith, length-append, take-append, drop-append, drop-drop,
  take-drop, lt→ltb, ltb-false,
}
use alkali.Runtime.Buffers.{Bytes, Allocator, Buf, print_next, advance, buf_extract}
use alkali.Runtime.Buffers.Contents.{contents, IsValid}
use alkali.Runtime.Buffers.Sequence.{emit_all, concat, emit_all-contents, length-contents}

-- Extracts of the sizes `ns`, with the bytes that are read through each pointer.
unfoldable pub extract_all : Buf → List ℕ → Option (List Bytes × Buf)
unfolding buf_extract
extract_all b [] = some ([], b)
extract_all b (n ∷ ns) = do
  (at, b₁) ← buf_extract b n
  (cs, b₂) ← extract_all b₁ ns
  some (take n (drop at b.bytes) ∷ cs, b₂)

-- The buffer `b` read from the offset `o`.
abbrev pub rewound : Buf → ℕ → Buf
rewound b o = record b { offset = o }

buf_extract-within :
    (b : Buf) (n : ℕ)
    → b.offset + 4 ≤ length b.bytes
    → b.offset + n < 2 ^ 31
    → buf_extract b n ≡ some (b.offset, rewound b (b.offset + n))
unfolding buf_extract print_next advance
buf_extract-within b n h h' =
    rw (ltb-false (length b.bytes) (b.offset + 4) h, lt→ltb (b.offset + n) (2 ^ 31) h')

pub extract_all-concat :
    (b : Buf) (cs : List Bytes) (after : Bytes)
    → drop b.offset b.bytes ≡ concat cs ++ after
    → b.offset + length (concat cs) + 4 ≤ length b.bytes
    → length b.bytes < 2 ^ 31
    → extract_all b (map length cs) ≡ some (cs, rewound b (b.offset + length (concat cs)))
unfolding extract_all
extract_all-concat b [] after e fits is_int =
    let same : b.offset ≡ b.offset + 0 = omega arith in ap (λ o. some ([], rewound b o)) same
extract_all-concat b (c ∷ cs) after e fits is_int =
    let total = length-append c (concat cs) in
    let split : drop b.offset b.bytes ≡ c ++ (concat cs ++ after) =
      e ∙ append_assoc c (concat cs) after in
    let first : take (length c) (drop b.offset b.bytes) ≡ c =
      ap (take (length c)) split ∙ take-append c (concat cs ++ after) in
    let left : drop (b.offset + length c) b.bytes ≡ concat cs ++ after =
      sym (drop-drop b.offset (length c) b.bytes)
      ∙ ap (drop (length c)) split
      ∙ drop-append c (concat cs ++ after) in
    let rest =
      extract_all-concat (rewound b (b.offset + length c)) cs after left (omega arith) is_int in
    let end : b.offset + length c + length (concat cs) ≡ b.offset + length (c ++ concat cs) =
      omega arith in
    some-chain _ (buf_extract-within b (length c) (omega arith) (omega arith))
      (some-chain _ rest (λ i. some (first i ∷ cs, rewound b (end i))))

-- Chunks that are emitted into a valid buffer with room for them are extracted again, in order and
-- with their lengths, once the offset is back where the first was put. The offset ends where the
-- emits left it.
pub extract_all-emit_all :
    (alloc : Allocator) (b : Buf) (cs : List Bytes)
    → IsValid b
    → b.offset + length (concat cs) + 4 ≤ b.size
    → (b' : Buf) × (emit_all alloc b cs ≡ some b')
      × (extract_all (rewound b' b.offset) (map length cs) ≡ some (cs, b'))
unfolding contents
extract_all-emit_all alloc b cs valid fits =
    let (b', runs, valid', same_size, whole) = emit_all-contents alloc b cs valid fits in
    let block' = valid'.block in
    let is_int' = valid'.is_int in
    let after = drop b'.offset b'.bytes in
    let front : b.offset ≡ length (contents b) = sym (length-contents b valid) in
    let all : b'.bytes ≡ contents b ++ (concat cs ++ after) =
      sym (take-drop b'.offset b'.bytes)
      ∙ ap (λ t. t ++ after) whole
      ∙ append_assoc (contents b) (concat cs) after in
    let behind : drop b.offset b'.bytes ≡ concat cs ++ after =
      ap (λ o. drop o b'.bytes) front
      ∙ ap (drop (length (contents b))) all
      ∙ drop-append (contents b) (concat cs ++ after) in
    let end : b.offset + length (concat cs) ≡ b'.offset =
      ap (λ o. o + length (concat cs)) front
      ∙ sym (length-append (contents b) (concat cs))
      ∙ sym (ap length whole)
      ∙ length-contents b' valid' in
    (
      b',
      runs,
      extract_all-concat (rewound b' b.offset) cs after behind (omega arith) (omega arith)
          ∙ ap (λ o. some (cs, rewound b' o)) end,
    )
