-- ===== src/Runtime/Queues/Order.antt =====
-- runtime-llvm/runtime.c and runtime.h: what becomes of the messages of a queue that has only one
-- worker.
use alkali.Prelude.{
  ℕ, ◌≡◌, refl, sym, ap, subst, ◌∙◌, List, [], ◌∷◌, ◌++◌, append-nil, append_assoc, Option, none,
  some, some-chain, some-of_chain, some-injective, ltb, ◌==◌, ==_iff, if◌then◌else◌, inl, inr,
  Bool-cases, List-cases, true, false,
}
use alkali.Runtime.Buffers.{Allocator, buf_init}
use alkali.Runtime.Queues.{
  Message, event, packet, AsyncQueue, Queues, write, push_to, generate, source_round, take_event,
  Threads, write_busy, begin_event, finish_event, Action, pushes, finishes, Step, generates,
  receives, calls, returns, Run, here, next,
}

-- What an action sends to the queue `t`, and what the worker `w` has done with by it.
unfoldable pub sent : ℕ → Action → List Message
sent t (pushes tag m) = if t == tag then m ∷ [] else []
sent t _ = []

unfoldable pub handled : ℕ → Action → List Message
handled w (finishes v m) = if w == v then m ∷ [] else []
handled w _ = []

unfoldable pub all_sent : ℕ → List Action → List Message
unfolding sent
all_sent t [] = []
all_sent t (x ∷ xs) = sent t x ++ all_sent t xs

unfoldable pub all_handled : ℕ → List Action → List Message
unfolding handled
all_handled w [] = []
all_handled w (x ∷ xs) = handled w x ++ all_handled w xs

-- What a worker is handling.
abbrev pub held : Option Message → List Message
held none = []
held (some m) = m ∷ []

module _ (alloc : Allocator) (a : AsyncQueue) (num_queues : ℕ) where
  abbrev Qs : Type 0
  Qs = Queues alloc a num_queues

  abbrev write_to : ℕ → a.Queue → Qs → Qs
  write_to = write alloc a num_queues

  pop-waiting :
      (q q' : a.Queue) (m : Message) → a.pop q ≡ some (m, q') → a.waiting q ≡ m ∷ a.waiting q'
  pop-waiting q q' m popped = elim (List-cases (a.waiting q)) [
    | inl e ↦ let nothing = a.pop-empty q e in cc
    | inr (m₀, ms, e) ↦
        let (q₀, popped₀, left) = a.pop-first q m₀ ms e in
        let both = some-injective (sym popped₀ ∙ popped) in
        e ∙ ap (λ xs. m₀ ∷ xs) (sym left) ∙ ap (λ p. p.0 ∷ a.waiting p.1) both
  ]

  push_to-some :
      (tag : ℕ) (m : Message) (qs qs' : Qs)
      → push_to alloc a num_queues tag m qs ≡ some qs'
      → qs' ≡ write_to tag (a.push m (qs tag)) qs
  unfolding push_to
  push_to-some tag m qs qs' e = elim (Bool-cases (ltb tag num_queues)) [
    | inl b ↦ sym (some-injective (sym (rw b) ∙ e))
    | inr b ↦ let nothing : none ≡ some qs' = sym (rw b) ∙ e in cc
  ]

  Push-lem :
      (t tag : ℕ) (m : Message) (qs : Qs)
      → a.waiting (write_to tag (a.push m (qs tag)) qs t)
        ≡ a.waiting (qs t) ++ sent t (pushes tag m)
  unfolding sent
  Push-lem t tag m qs = elim (Bool-cases (t == tag)) [
    | inl e ↦ rw (e, (==_iff t tag).0 e) (a.waiting-push m (qs tag))
    | inr e ↦ rw e (sym (append-nil (a.waiting (qs t))))
  ]

  take_event-some :
      (tag : ℕ) (m : Message) (qs qs' : Qs)
      → take_event alloc a num_queues tag qs ≡ some (m, qs')
      → (q : a.Queue) × (a.waiting (qs tag) ≡ m ∷ a.waiting q) × (qs' ≡ write_to tag q qs)
  unfolding take_event
  take_event-some tag m qs qs' e =
      let ((m₀, q), popped, rest) = some-of_chain (a.pop (qs tag)) _ e in
      let both = some-injective rest in
      (
        q,
        pop-waiting (qs tag) q m₀ popped ∙ ap (λ p. p.0 ∷ a.waiting q) both,
        sym (ap (λ p. p.1) both),
      )

  module _ (tag_of : ℕ → ℕ) (w : ℕ) (only : (v : ℕ) → tag_of v ≡ tag_of w → v ≡ w) where
    -- What the worker has in its hands and what waits for it.
    unfoldable pub ahead : Threads alloc a num_queues → List Message
    ahead s = held (s.busy w) ++ a.waiting (s.queues (tag_of w))

    pushed :
        (tag : ℕ) (m : Message) (s : Threads alloc a num_queues) (qs' : Qs)
        → push_to alloc a num_queues tag m s.queues ≡ some qs'
        → ahead (record { queues = qs'; busy = s.busy }) ≡ ahead s ++ sent (tag_of w) (pushes tag m)
    unfolding ahead
    pushed tag m s qs' e =
        ap (λ qs. held (s.busy w) ++ a.waiting (qs (tag_of w))) (push_to-some tag m s.queues qs' e)
        ∙ ap (λ ms. held (s.busy w) ++ ms) (Push-lem (tag_of w) tag m s.queues)
        ∙ sym (
            append_assoc (held (s.busy w)) (a.waiting (s.queues (tag_of w)))
              (sent (tag_of w) (pushes tag m)))

    called :
        (v : ℕ) (m : Message) (q : a.Queue) (s : Threads alloc a num_queues)
        → s.busy v ≡ none
        → a.waiting (s.queues (tag_of v)) ≡ m ∷ a.waiting q
        → ahead (record {
          queues = write_to (tag_of v) q s.queues;
          busy = write_busy alloc a num_queues v (some m) s.busy;
        })
          ≡ ahead s ++ []
    unfolding ahead
    called v m q s idle front = elim (Bool-cases (w == v)) [
      | inl e ↦
          let same = (==_iff w v).0 e in
          let free : s.busy w ≡ none = ap s.busy same ∙ idle in
          let waits : a.waiting (s.queues (tag_of w)) ≡ m ∷ a.waiting q =
            ap (λ u. a.waiting (s.queues (tag_of u))) same ∙ front in
          let at_tag : (tag_of w == tag_of v) ≡ true =
            (==_iff (tag_of w) (tag_of v)).1 (ap tag_of same) in
          rw (e, at_tag, free, waits) (sym (append-nil (m ∷ a.waiting q)))
      | inr e ↦
          let other : (tag_of w == tag_of v) ≡ false = elim (Bool-cases (tag_of w == tag_of v)) [
            | inr d ↦ d
            | inl d ↦
                absurd
                  (cc (e, (==_iff w v).1 (sym (only v (sym ((==_iff (tag_of w) (tag_of v)).0 d))))))
          ] in
          rw (e, other) (sym (append-nil (held (s.busy w) ++ a.waiting (s.queues (tag_of w)))))
    ]

    finished :
        (v : ℕ) (m : Message) (s : Threads alloc a num_queues)
        → s.busy v ≡ some m
        → handled w (finishes v m) ++ ahead (finish_event alloc a num_queues tag_of v s)
          ≡ ahead s ++ []
    unfolding ahead handled finish_event
    finished v m s busy = elim (Bool-cases (w == v)) [
      | inl e ↦
          let has : s.busy w ≡ some m = ap s.busy ((==_iff w v).0 e) ∙ busy in
          rw (e, has) (sym (append-nil (m ∷ a.waiting (s.queues (tag_of w)))))
      | inr e ↦ rw (e) (sym (append-nil (held (s.busy w) ++ a.waiting (s.queues (tag_of w)))))
    ]

    Step-lem :
        {x : Action} {s s' : Threads alloc a num_queues}
        → Step alloc a num_queues tag_of x s s'
        → handled w x ++ ahead s' ≡ ahead s ++ sent (tag_of w) x
    unfolding generate source_round begin_event finish_event handled sent ahead
    Step-lem (generates {tag} {msg} {s} {qs'} size src copies sends) =
        pushed tag (event msg) s qs' (sym (some-chain _ copies refl) ∙ sends)
    Step-lem (receives {tag} {s} {qs'} sends) = pushed tag (packet (buf_init alloc)) s qs' sends
    Step-lem (calls {w = v} {m} {s} {s'} idle gets) =
        let ((m₀, qs), taken, rest) =
          some-of_chain (take_event alloc a num_queues (tag_of v) s.queues) _ gets in
        let both = some-injective rest in
        let (q, front, left) = take_event-some (tag_of v) m₀ s.queues qs taken in
        subst (λ p. ahead p.1 ≡ ahead s ++ []) both
          (subst
            (λ qs'.
              ahead
                (record { queues = qs'; busy = write_busy alloc a num_queues v (some m₀) s.busy })
              ≡ ahead s ++ [])
            (sym left) (called v m₀ q s idle front))
    Step-lem (returns {w = v} {m} {s} busy) = finished v m s busy

    -- In whatever order the threads take their steps, where no other worker takes from the queue of
    -- a worker: the messages whose handling it has finished, the one that it is handling and those
    -- that wait in its queue are, in this order, the one that it was handling, those that waited
    -- and those that have been sent to the queue since. None is lost, handled twice or overtaken.
    pub Run-handled :
        {xs : List Action} {s s' : Threads alloc a num_queues}
        → Run alloc a num_queues tag_of xs s s'
        → all_handled w xs ++ ahead s' ≡ ahead s ++ all_sent (tag_of w) xs
    unfolding all_handled all_sent
    Run-handled {s} here = sym (append-nil (ahead s))
    Run-handled {s} {s'} (next {x} {xs} {mid} st run) =
        let t = tag_of w in
        append_assoc (handled w x) (all_handled w xs) (ahead s')
        ∙ ap (λ y. handled w x ++ y) (Run-handled run)
        ∙ sym (append_assoc (handled w x) (ahead mid) (all_sent t xs))
        ∙ ap (λ y. y ++ all_sent t xs) (Step-lem st)
        ∙ append_assoc (ahead s) (sent t x) (all_sent t xs)
