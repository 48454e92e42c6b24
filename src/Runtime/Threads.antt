-- ===== src/Runtime/Threads.antt =====
-- runtime-llvm/main.c: the creation of the threads, one for each instance of a handler and one for
-- each extern that is known.
use alkali.Prelude.{
  ℕ, zero, suc, ◌+◌, ◌≤◌, ◌<◌, ◌≡◌, refl, sym, ap, ◌∙◌, List, [], ◌∷◌, ◌++◌, Option, none, some,
  some-chain, ◌>>=◌, ltb, if◌then◌else◌, length, arith, inl, inr, lt→ltb, ltb-false, append-nil,
  lt_or_le, length-append, append_assoc,
}

-- `pthread_create(&threads[thread], NULL, handler_workers[handler], thread)`.
pub record Worker : Type 0 where
  pub handler : ℕ
  pub thread : ℕ

-- `threads`, of `num_instances` places, with what has been created so far in the order of the places;
-- a place out of range is undefined behaviour.
unfoldable pub create : ℕ → ℕ → List Worker → Option (List Worker)
create num_instances i ws =
    if ltb (length ws) num_instances
    then some (ws ++ record { handler = i; thread = length ws } ∷ [])
    else none

-- `for (int j = 0; j < handler_replications[i]; j++)`.
unfoldable pub replicas : ℕ → ℕ → ℕ → List Worker → Option (List Worker)
unfolding create
replicas num_instances i zero ws = some ws
replicas num_instances i (suc n) ws = do
  ws' ← create num_instances i ws
  replicas num_instances i n ws'

-- `for (int i = 0; i < NUM_HANDLERS; i++)`, from handler `i` on.
unfoldable pub start_workers : ℕ → ℕ → List ℕ → List Worker → Option (List Worker)
unfolding replicas
start_workers num_instances i [] ws = some ws
start_workers num_instances i (n ∷ ns) ws = do
  ws' ← replicas num_instances i n ws
  start_workers num_instances (suc i) ns ws'

abbrev pub sum : List ℕ → ℕ
sum [] = 0
sum (n ∷ ns) = n + sum ns

-- The threads of handler `i`, from number `t` on.
abbrev pub threads_of : ℕ → ℕ → ℕ → List Worker
threads_of i zero t = []
threads_of i (suc n) t = record { handler = i; thread = t } ∷ threads_of i n (suc t)

-- The threads of all handlers from `i` on.
abbrev pub threads_from : ℕ → List ℕ → ℕ → List Worker
threads_from i [] t = []
threads_from i (n ∷ ns) t = threads_of i n t ++ threads_from (suc i) ns (t + n)

module _ (num_instances : ℕ) where
  replicas-threads_of :
      (i n : ℕ) (ws : List Worker)
      → length ws + n ≤ num_instances
      → replicas num_instances i n ws ≡ some (ws ++ threads_of i n (length ws))
  unfolding replicas create
  replicas-threads_of i zero ws h = ap some (sym (append-nil ws))
  replicas-threads_of i (suc n) ws h =
      let w : Worker = record { handler = i; thread = length ws } in
      let longer : length (ws ++ w ∷ []) ≡ suc (length ws) =
        omega (arith, length-append ws (w ∷ [])) in
      rw (lt→ltb (length ws) num_instances (omega arith)) (
        replicas-threads_of i n (ws ++ w ∷ []) (omega arith)
        ∙ ap (λ t. some ((ws ++ w ∷ []) ++ threads_of i n t)) longer
        ∙ ap some (append_assoc ws (w ∷ []) (threads_of i n (suc (length ws)))))

  length-threads_of : (i n t : ℕ) → length (threads_of i n t) ≡ n
  length-threads_of i zero t = refl
  length-threads_of i (suc n) t = ap suc (length-threads_of i n (suc t))

  start_workers-from :
      (i : ℕ) (ns : List ℕ) (ws : List Worker)
      → length ws + sum ns ≤ num_instances
      → start_workers num_instances i ns ws ≡ some (ws ++ threads_from i ns (length ws))
  unfolding start_workers
  start_workers-from i [] ws h = ap some (sym (append-nil ws))
  start_workers-from i (n ∷ ns) ws h =
      let own = threads_of i n (length ws) in
      let longer : length (ws ++ own) ≡ length ws + n =
        length-append ws own ∙ ap (λ k. length ws + k) (length-threads_of i n (length ws)) in
      some-chain _ (replicas-threads_of i n ws (omega arith)) (
        start_workers-from (suc i) ns (ws ++ own) (omega arith)
        ∙ ap (λ t. some ((ws ++ own) ++ threads_from (suc i) ns t)) longer
        ∙ ap some (append_assoc ws own (threads_from (suc i) ns (length ws + n))))

  replicas-none :
      (i n : ℕ) (ws : List Worker)
      → num_instances < length ws + n
      → length ws ≤ num_instances
      → replicas num_instances i n ws ≡ none
  unfolding replicas create
  replicas-none i zero ws h h' = absurd (omega arith)
  replicas-none i (suc n) ws h h' = elim (lt_or_le (length ws) num_instances) [
    | inl room ↦
        let w : Worker = record { handler = i; thread = length ws } in
        let longer = length-append ws (w ∷ []) in
        rw (lt→ltb (length ws) num_instances room)
          (replicas-none i n (ws ++ w ∷ []) (omega arith) (omega arith))
    | inr full ↦ rw (ltb-false (length ws) num_instances full)
  ]

  start_workers-overflow :
      (i : ℕ) (ns : List ℕ) (ws : List Worker)
      → num_instances < length ws + sum ns
      → length ws ≤ num_instances
      → start_workers num_instances i ns ws ≡ none
  unfolding start_workers
  start_workers-overflow i [] ws h h' = absurd (omega arith)
  start_workers-overflow i (n ∷ ns) ws h h' = elim (lt_or_le num_instances (length ws + n)) [
    | inl over ↦
        ap (λ o. o >>= λ ws'. start_workers num_instances (suc i) ns ws')
          (replicas-none i n ws over h')
    | inr fits ↦
        let own = threads_of i n (length ws) in
        let longer = length-append ws own in
        let many = length-threads_of i n (length ws) in
        some-chain _ (replicas-threads_of i n ws fits)
          (start_workers-overflow (suc i) ns (ws ++ own) (omega arith) (omega arith))
  ]

-- With a place for every instance, `main` creates for each handler in turn as many threads as it has
-- replicas, each with the number of its place.
pub start_workers-threads :
    (num_instances : ℕ) (replications : List ℕ)
    → sum replications ≤ num_instances
    → start_workers num_instances 0 replications [] ≡ some (threads_from 0 replications 0)
start_workers-threads num_instances replications h =
    start_workers-from num_instances 0 replications [] (omega arith)

-- With fewer places than instances, a thread is written beyond `threads`.
pub start_workers-none :
    (num_instances : ℕ) (replications : List ℕ)
    → num_instances < sum replications
    → start_workers num_instances 0 replications [] ≡ none
start_workers-none num_instances replications h =
    start_workers-overflow num_instances 0 replications [] (omega arith) (omega arith)
