-- ===== src/Runtime/Externs.antt =====
-- runtime-llvm/main.c and extern_worker_t of runtime.h: the threads of the externs, which are told by
-- their names.
use alkali.Prelude.{
  refl, ℕ, ◌≡◌, false, List, [], ◌∷◌, ◌++◌, ap, ◌∙◌, if◌then◌else◌, sym, Bool-cases, inl, inr,
}
use alkali.Lang.Token.{Text}
use alkali.Lang.Lexer.Chars.{same_text}

-- `extern_worker_t`; the arrays have 16 places.
pub record ExternWorker : Type 0 where
  pub name : Text
  pub num_ins : ℕ
  pub num_outs : ℕ
  pub ins : ℕ → ℕ
  pub outs : ℕ → ℕ

-- A thread that runs `__extern_source_NET_RECV` or `__extern_sink_NET_SEND`, with its queue.
pub data ExternThread : Type 0 where
  source_thread : ℕ → ExternThread
  sink_thread : ℕ → ExternThread

abbrev pub source_net_recv : Text
source_net_recv =
    b's' ∷ b'o' ∷ b'u' ∷ b'r' ∷ b'c' ∷ b'e' ∷ b'_' ∷ b'N' ∷ b'E' ∷ b'T' ∷ b'_' ∷ b'R' ∷ b'E' ∷ b'C'
    ∷ b'V' ∷ []

abbrev pub sink_net_send : Text
sink_net_send =
    b's' ∷ b'i' ∷ b'n' ∷ b'k' ∷ b'_' ∷ b'N' ∷ b'E' ∷ b'T' ∷ b'_' ∷ b'S' ∷ b'E' ∷ b'N' ∷ b'D' ∷ []

-- `for (int i = 0; i < NUM_EXTERNS; i++)`. The assertion is on a string literal, which is no null
-- pointer, so that it holds.
unfoldable pub start_externs : List ExternWorker → List ExternThread
start_externs [] = []
start_externs (worker ∷ workers) =
    let rest = start_externs workers in
    if same_text worker.name source_net_recv
    then source_thread (worker.outs 0) ∷ rest
    else if same_text worker.name sink_net_send
    then sink_thread (worker.ins 0) ∷ rest
    else rest

start_externs-append :
    (xs ys : List ExternWorker) → start_externs (xs ++ ys) ≡ start_externs xs ++ start_externs ys
unfolding start_externs
start_externs-append [] ys = refl
start_externs-append (x ∷ xs) ys =
    let rec = start_externs-append xs ys in
    elim (Bool-cases (same_text x.name source_net_recv)) [
      | inl e ↦ rw e (ap (λ ts. source_thread (x.outs 0) ∷ ts) rec)
      | inr e ↦ elim (Bool-cases (same_text x.name sink_net_send)) [
        | inl e' ↦ rw (e, e') (ap (λ ts. sink_thread (x.ins 0) ∷ ts) rec)
        | inr e' ↦ rw (e, e') rec
      ]
    ]

-- An extern with neither name is passed over, wherever it stands: the others get the threads that
-- they get without it, and nothing fails.
pub start_externs-unknown :
    (xs ys : List ExternWorker) (worker : ExternWorker)
    → same_text worker.name source_net_recv ≡ false
    → same_text worker.name sink_net_send ≡ false
    → start_externs (xs ++ (worker ∷ ys)) ≡ start_externs (xs ++ ys)
unfolding start_externs
start_externs-unknown xs ys worker h h' =
    let skipped : start_externs (worker ∷ ys) ≡ start_externs ys = rw (h, h') refl in
    start_externs-append xs (worker ∷ ys)
    ∙ ap (λ ts. start_externs xs ++ ts) skipped
    ∙ sym (start_externs-append xs ys)
