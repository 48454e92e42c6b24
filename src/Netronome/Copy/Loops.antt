-- ===== src/Netronome/Copy/Loops.antt =====
-- `bulk_memcpy` copies its `n` bytes as one block, and makes no misaligned access: each loop copies a
-- part of what is left, and the last one ends with nothing left.
use alkali.Prelude.{
  zero, suc, ◌&&◌, leb→le, ℕ, ◌+◌, ◌-◌, ◌%◌, ◌^◌, ◌≤◌, ◌<◌, ◌≡◌, refl, sym, true, arith, inl, inr,
  and-true, Bool-cases, ◌∙◌, ap, not_ltb→le, ltb→lt, leb, ltb,
}
use alkali.Netronome.Copy.{
  Copy, Outcome, done, both_aligned, block, store, words_if_aligned, aligned, and_then, words,
  Memory, bulk_memcpy, rest,
}
use alkali.Netronome.Copy.Blocks.{Disjoint, block-block, block-empty}

-- What is left fits below 2 ^ 32 and does not overlap.
pub record Fits (s : Copy) : Type 0 where
  pub fits_p : s.p + s.n < 2 ^ 32
  pub fits_q : s.q + s.n < 2 ^ 32
  pub disjoint : Disjoint s.n s.p s.q

-- From `s` to `s'` the bytes in between have been copied as one block.
pub record Progress (s s' : Copy) : Type 0 where
  pub copied : ℕ
  pub left : s.n ≡ copied + s'.n
  pub p_moved : s'.p ≡ s.p + copied
  pub q_moved : s'.q ≡ s.q + copied
  pub memory_copied : s'.memory ≡ block copied s.p s.q s.memory

-- A run that is done, with at most `b` bytes left.
pub data Progresses (s : Copy) (b : ℕ) : Outcome → Type 0 where
  progresses : {s' : Copy} → Progress s s' → s'.n ≤ b → Progresses s b (done s')

Progress-refl : (s : Copy) → Progress s s
Progress-refl s = record {
  copied = 0;
  left = omega arith;
  p_moved = omega arith;
  q_moved = omega arith;
  memory_copied = sym (block-empty s.p s.q s.memory);
}

module _ {s t : Copy} (fits : Fits s) (st : Progress s t) where
  Fits-Progress : Fits t
  Fits-Progress =
      let h = st.left in
      let hp = st.p_moved in
      let hq = st.q_moved in
      let fp = fits.fits_p in
      let fq = fits.fits_q in
      record {
        fits_p = omega arith;
        fits_q = omega arith;
        disjoint = elim (fits.disjoint) [ inl d ↦ inl (omega arith) | inr d ↦ inr (omega arith) ];
      }

  Progress-trans : {u : Copy} → Progress t u → Progress s u
  Progress-trans {u} tu =
      let h = st.left in
      let hp = st.p_moved in
      let hq = st.q_moved in
      let h' = tu.left in
      let hp' = tu.p_moved in
      let hq' = tu.q_moved in
      record {
        copied = st.copied + tu.copied;
        left = omega arith;
        p_moved = omega arith;
        q_moved = omega arith;
        memory_copied =
            rw (tu.memory_copied, hp, hq, st.memory_copied)
              (block-block st.copied tu.copied s.p s.q s.memory
                (elim (fits.disjoint) [ inl d ↦ inl (omega arith) | inr d ↦ inr (omega arith) ]));
      }

  Progresses-trans : {b : ℕ} {o : Outcome} → Progresses t b o → Progresses s b o
  Progresses-trans (progresses tu le) = progresses (Progress-trans tu) le

store-Progresses :
    (w b : ℕ) (s : Copy) (k : Copy → Outcome)
    → both_aligned w s ≡ true
    → w ≤ s.n
    → Fits s
    → ((s' : Copy)
        → Progress s s'
        → Fits s'
        → s'.n ≡ s.n - w
        → s'.p ≡ s.p + w
        → s'.q ≡ s.q + w
        → Progresses s' b (k s'))
    → Progresses s b (store w s k)
unfolding store
store-Progresses w b s k al le fits next =
    let fp = fits.fits_p in
    let fq = fits.fits_q in
    let s' : Copy = record {
      memory = block w s.p s.q s.memory;
      p = (s.p + w) % 2 ^ 32;
      q = (s.q + w) % 2 ^ 32;
      n = s.n - w;
    } in
    let p_moved : (s.p + w) % 2 ^ 32 ≡ s.p + w = omega arith in
    let q_moved : (s.q + w) % 2 ^ 32 ≡ s.q + w = omega arith in
    let st : Progress s s' = record {
      copied = w;
      left = omega arith;
      p_moved = p_moved;
      q_moved = q_moved;
      memory_copied = refl;
    } in
    let fits' = Fits-Progress fits st in
    rw (store, al) (Progresses-trans fits st (next s' st fits' refl p_moved q_moved))

-- A width that divides the width of its own accesses.
abbrev Keeps : ℕ → Type 0
Keeps w = (a : ℕ) → aligned w a ≡ true → aligned w (a + w) ≡ true

Keeps-8 : Keeps 8
unfolding aligned
Keeps-8 a h = ground arith

Keeps-4 : Keeps 4
unfolding aligned
Keeps-4 a h = ground arith

both_aligned-1 : (s : Copy) → both_aligned 1 s ≡ true
unfolding both_aligned aligned
both_aligned-1 s = ground arith

both_aligned-moved :
    (w : ℕ) (s s' : Copy)
    → Keeps w
    → both_aligned w s ≡ true
    → s'.p ≡ s.p + w
    → s'.q ≡ s.q + w
    → both_aligned w s' ≡ true
unfolding both_aligned
both_aligned-moved w s s' keeps al hp hq =
    let (ap', aq') = and-true (aligned w s.p) (aligned w s.q) al in
    rw (hp, hq, keeps s.p ap', keeps s.q aq')

words-Progresses :
    (f w b : ℕ) (s : Copy)
    → Keeps w
    → 0 < w
    → Fits s
    → both_aligned w s ≡ true
    → s.n < f
    → s.n ≤ b
    → Progresses s b (words f w s)
unfolding words
words-Progresses zero w b s keeps pos fits al lt le = absurd (omega arith)
words-Progresses (suc f) w b s keeps pos fits al lt le = elim (Bool-cases (leb w s.n)) [
  | inl e ↦
      let more : w ≤ s.n = leb→le w s.n e in
      rw (words, e)
        (store-Progresses w b s (λ s'. words f w s') al more fits
          λ s' st fits' hn hp hq.
            words-Progresses f w b s' keeps pos fits' (both_aligned-moved w s s' keeps al hp hq)
              (omega arith) (omega arith))
  | inr e ↦ rw (words, e) (progresses (Progress-refl s) le)
]

words_if_aligned-Progresses :
    (f w : ℕ) (s : Copy)
    → Keeps w
    → 0 < w
    → Fits s
    → s.n < f
    → Progresses s s.n (words_if_aligned f w s)
unfolding words_if_aligned
words_if_aligned-Progresses f w s keeps pos fits lt = elim (Bool-cases (both_aligned w s)) [
  | inl al ↦
      rw (words_if_aligned, al) (words-Progresses f w s.n s keeps pos fits al lt (omega arith))
  | inr al ↦ rw (words_if_aligned, al) (progresses (Progress-refl s) (omega arith))
]

rest-Progresses : (f : ℕ) (s : Copy) → Fits s → s.n < f → Progresses s 0 (rest f s)
unfolding rest
rest-Progresses zero s fits lt = absurd (omega arith)
rest-Progresses (suc f) s fits lt =
    let next = λ (s' : Copy) (fits' : Fits s') (lt' : s'.n < f). rest-Progresses f s' fits' lt' in
    elim (Bool-cases (ltb 0 s.n)) [
      | inr e ↦ rw (rest, e) (progresses (Progress-refl s) (not_ltb→le 0 s.n e))
      | inl e ↦
          let some_left : 0 < s.n = ltb→lt 0 s.n e in
          elim (Bool-cases (ltb 8 s.n && both_aligned 8 s)) [
            | inl e8 ↦
                let (more, al) = and-true (ltb 8 s.n) (both_aligned 8 s) e8 in
                let le : 8 < s.n = ltb→lt 8 s.n more in
                rw (rest, e, e8)
                  (store-Progresses 8 0 s (λ s'. rest f s') al (omega arith) fits
                    λ s' st fits' hn hp hq. next s' fits' (omega arith))
            | inr e8 ↦ elim (Bool-cases (ltb 4 s.n && both_aligned 4 s)) [
              | inl e4 ↦
                  let (more, al) = and-true (ltb 4 s.n) (both_aligned 4 s) e4 in
                  let le : 4 < s.n = ltb→lt 4 s.n more in
                  rw (rest, e, e8, e4)
                    (store-Progresses 4 0 s (λ s'. rest f s') al (omega arith) fits
                      λ s' st fits' hn hp hq. next s' fits' (omega arith))
              | inr e4 ↦
                  rw (rest, e, e8, e4)
                    (store-Progresses 1 0 s (λ s'. rest f s') (both_aligned-1 s) (omega arith) fits
                      λ s' st fits' hn hp hq. next s' fits' (omega arith))
            ]
          ]
    ]

and_then-Progresses :
    {s : Copy} {o : Outcome} {k : Copy → Outcome}
    → Fits s
    → Progresses s s.n o
    → ((t : Copy) → Fits t → t.n ≤ s.n → Progresses t 0 (k t))
    → Progresses s 0 (and_then o k)
and_then-Progresses fits (progresses {s'} st le) next =
    Progresses-trans fits st (next s' (Fits-Progress fits st) le)

-- The end of a copy: the whole block is copied and nothing is left.
abbrev pub finished : Memory → ℕ → ℕ → ℕ → Copy
finished m dest src n = record { memory = block n dest src m; p = dest + n; q = src + n; n = 0 }

Progresses-finished :
    {m : Memory} {dest src n : ℕ} {o : Outcome}
    → Progresses (record { memory = m; p = dest; q = src; n = n }) 0 o
    → o ≡ done (finished m dest src n)
Progresses-finished {m} {dest} {src} {n} (progresses {s'} st le) =
    let left = st.left in
    let all : st.copied ≡ n = omega arith in
    let none_left : s'.n ≡ 0 = omega arith in
    let p_end : s'.p ≡ dest + n = st.p_moved ∙ ap (λ c. dest + c) all in
    let q_end : s'.q ≡ src + n = st.q_moved ∙ ap (λ c. src + c) all in
    let bytes : s'.memory ≡ block n dest src m =
      st.memory_copied ∙ ap (λ c. block c dest src m) all in
    λ i. done (record { memory = bytes i; p = p_end i; q = q_end i; n = none_left i })

-- Blocks that end below 2 ^ 32 and do not overlap are copied byte for byte, whatever their alignment:
-- no access is misaligned, and fuel above the number of bytes is enough.
pub bulk_memcpy-block :
    (f : ℕ) (m : Memory) (dest src n : ℕ)
    → dest + n < 2 ^ 32
    → src + n < 2 ^ 32
    → Disjoint n dest src
    → n < f
    → bulk_memcpy f m dest src n ≡ done (finished m dest src n)
unfolding bulk_memcpy
bulk_memcpy-block f m dest src n hp hq d lt =
    let dest_fits : dest % 2 ^ 32 ≡ dest = omega arith in
    let src_fits : src % 2 ^ 32 ≡ src = omega arith in
    let s : Copy = record { memory = m; p = dest; q = src; n = n } in
    let fits : Fits s = record { fits_p = hp; fits_q = hq; disjoint = d } in
    rw (dest_fits, src_fits)
      (Progresses-finished (
        and_then-Progresses fits (words_if_aligned-Progresses f 8 s Keeps-8 (omega arith) fits lt)
          λ t fits_t le.
            and_then-Progresses fits_t
              (words_if_aligned-Progresses f 4 t Keeps-4 (omega arith) fits_t (omega arith))
              λ u fits_u le_u. rest-Progresses f u fits_u (omega arith)))
