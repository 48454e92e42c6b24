-- ===== src/Runtime/Buffers/Sequence.antt =====
-- runtime-llvm/runtime.c: several emits into one buffer, and what is read back.
use alkali.Prelude.{
  ◌+◌, ◌≤◌, ◌≡◌, refl, sym, ap, ◌∙◌, List, [], ◌∷◌, ◌++◌, append_assoc, append-nil, Option, some,
  some-chain, ◌>>=◌, length, take, arith, length-append, length-take, take_all, le→leb,
}
use alkali.Runtime.Buffers.{Bytes, Allocator, Buf, buf_init, buf_emit}
use alkali.Runtime.Buffers.Contents.{contents, IsValid, room, buf_emit-contents}

-- Chunks, each emitted with its length.
unfoldable pub emit_all : Allocator → Buf → List Bytes → Option Buf
unfolding buf_emit
emit_all alloc b [] = some b
emit_all alloc b (c ∷ cs) = do b' ← buf_emit alloc b (length c) c; emit_all alloc b' cs

abbrev pub concat : List Bytes → Bytes
concat [] = []
concat (c ∷ cs) = c ++ concat cs

pub length-contents : (b : Buf) → IsValid b → length (contents b) ≡ b.offset
unfolding contents
length-contents b valid =
    let block = valid.block in
    let within = valid.within in omega (arith, length-take b.offset b.bytes)

-- A valid buffer with room for all chunks, and for the four bytes printed, takes them one behind the
-- other behind its contents, and stays valid and as large as it was.
pub emit_all-contents :
    (alloc : Allocator) (b : Buf) (cs : List Bytes)
    → IsValid b
    → b.offset + length (concat cs) + 4 ≤ b.size
    → (b' : Buf) × (emit_all alloc b cs ≡ some b')
      × IsValid b'
      × (b'.size ≡ b.size)
      × (contents b' ≡ contents b ++ concat cs)
unfolding emit_all room
emit_all-contents alloc b [] valid fits = (b, refl, valid, refl, sym (append-nil (contents b)))
emit_all-contents alloc b (c ∷ cs) valid fits =
    let total = length-append c (concat cs) in
    let is_int = valid.is_int in
    let roomy : room b (length c) ≡ b.size =
      rw (le→leb (b.offset + length c) b.size (omega arith)) in
    let (b₁, emits, size, valid₁, more) =
      buf_emit-contents alloc b (length c) c valid (omega arith) (omega arith) (omega arith)
        (omega arith) in
    let all : take (length c) c ≡ c = take_all (length c) c (omega arith) in
    let l₁ = length-contents b₁ valid₁ in
    let l₀ = length-contents b valid in
    let longer : length (contents b₁) ≡ length (contents b) + length c =
      ap length (more ∙ ap (λ t. contents b ++ t) all) ∙ length-append (contents b) c in
    let (b', rest, valid', same_size, whole) = emit_all-contents alloc b₁ cs valid₁ (omega arith) in
    (
      b',
      some-chain _ emits rest,
      valid',
      same_size ∙ size ∙ roomy,
      whole
          ∙ ap (λ t. t ++ concat cs) (more ∙ ap (λ t. contents b ++ t) all)
          ∙ append_assoc (contents b) c (concat cs),
    )

-- A new buffer is valid and empty.
pub buf_init-IsValid : (alloc : Allocator) → IsValid (buf_init alloc)
unfolding buf_init
buf_init-IsValid alloc = record {
  block = alloc.length-fresh 1024;
  within = omega arith;
  is_int = omega arith;
}

-- A new buffer takes all chunks that leave four of its 1024 bytes, and has just them.
pub emit_all-init :
    (alloc : Allocator) (cs : List Bytes)
    → length (concat cs) + 4 ≤ 1024
    → (b' : Buf) × (emit_all alloc (buf_init alloc) cs ≡ some b') × (contents b' ≡ concat cs)
unfolding buf_init contents
emit_all-init alloc cs fits =
    let (b', runs, valid', same_size, whole) =
      emit_all-contents alloc (buf_init alloc) cs (buf_init-IsValid alloc) (omega arith) in
    (b', runs, whole)
