-- ===== src/Runtime/Queues.antt =====
-- runtime-llvm/runtime.c, runtime.h and externs.c: the queues of events between the threads. The
-- threads run in any order; every push and pop is one step, since `GAsyncQueue` locks itself.
pub mod Order
use alkali.Prelude.{
  ℕ, ◌≡◌, Bool, true, false, List, [], ◌∷◌, ◌++◌, Option, none, some, ◌>>=◌, ltb, ◌==◌,
  if◌then◌else◌,
}
use alkali.Runtime.Buffers.{Bytes, Allocator, Buf, memcpy, buf_init}

-- What a queue holds: the bytes of an event of a handler, or an `event_NET_RECV` of the source.
pub data Message : Type 0 where
  event : Bytes → Message
  packet : Buf → Message

-- What a step of some thread does: a queue gets a message, or a worker begins or finishes with one.
pub data Action : Type 0 where
  pushes : ℕ → Message → Action
  begins : ℕ → Message → Action
  finishes : ℕ → Message → Action

-- GLib's `GAsyncQueue`: a first-in first-out queue, of which `pop` waits while it is empty (`none`).
pub record AsyncQueue : Type 1 where
  pub Queue : Type 0
  pub new : Queue
  pub push : Message → Queue → Queue
  pub pop : Queue → Option (Message × Queue)
  pub waiting : Queue → List Message
  pub waiting-new : waiting new ≡ []
  pub waiting-push : (m : Message) (q : Queue) → waiting (push m q) ≡ waiting q ++ m ∷ []
  pub pop-empty : (q : Queue) → waiting q ≡ [] → pop q ≡ none
  pub pop-first :
      (q : Queue) (m : Message) (ms : List Message)
      → waiting q ≡ m ∷ ms
      → (q' : Queue) × (pop q ≡ some (m, q')) × (waiting q' ≡ ms)

module _ (alloc : Allocator) (a : AsyncQueue) (num_queues : ℕ) where
  -- `queues`, an array of `num_queues`.
  abbrev pub Queues : Type 0
  Queues = ℕ → a.Queue

  abbrev pub write : ℕ → a.Queue → Queues → Queues
  write tag q qs i = if i == tag then q else qs i

  -- `g_async_queue_push(queues[tag], …)`; a tag out of range is undefined behaviour.
  unfoldable pub push_to : ℕ → Message → Queues → Option Queues
  push_to tag m qs = if ltb tag num_queues then some (write tag (a.push m (qs tag)) qs) else none

  -- `__rt_generate`, with the block that holds the data.
  unfoldable pub generate : ℕ → ℕ → Bytes → Queues → Option Queues
  unfolding memcpy push_to
  generate tag size src qs = do
    msg ← memcpy (alloc.fresh size) 0 src size
    push_to tag (event msg) qs

  -- A round of `__extern_source_NET_RECV`, whose output is the queue `tag`.
  unfoldable pub source_round : ℕ → Queues → Option Queues
  unfolding push_to buf_init
  source_round tag qs = push_to tag (packet (buf_init alloc)) qs

  -- The pop of a round of `WORKER_FUNCTION(tag, handler)`, or of `__extern_sink_NET_SEND`; none while
  -- the thread waits.
  unfoldable pub take_event : ℕ → Queues → Option (Message × Queues)
  take_event tag qs = do (m, q) ← a.pop (qs tag); some (m, write tag q qs)

  -- The queues, and what every worker is handling.
  pub record Threads : Type 0 where
    pub queues : Queues
    pub busy : ℕ → Option Message

  abbrev pub write_busy : ℕ → Option Message → (ℕ → Option Message) → ℕ → Option Message
  write_busy w o busy i = if i == w then o else busy i

  module _ (tag_of : ℕ → ℕ) where
    -- A round of the worker `w` of `WORKER_FUNCTION(tag_of w, handler_func)`, up to the call of the
    -- handler.
    unfoldable pub begin_event : ℕ → Threads → Option (Message × Threads)
    unfolding take_event
    begin_event w s = do
      (m, qs) ← take_event (tag_of w) s.queues
      some (m, record { queues = qs; busy = write_busy w (some m) s.busy })

    -- The return of the handler, which ends the round.
    unfoldable pub finish_event : ℕ → Threads → Threads
    finish_event w s = record { queues = s.queues; busy = write_busy w none s.busy }

    -- A step of some thread. What a handler generates are steps between its call and its return.
    pub data Step : Action → Threads → Threads → Type 0 where
      generates :
          {tag : ℕ} {msg : Bytes} {s : Threads} {qs' : Queues} (size : ℕ) (src : Bytes)
          → memcpy (alloc.fresh size) 0 src size ≡ some msg
          → generate tag size src s.queues ≡ some qs'
          → Step (pushes tag (event msg)) s (record { queues = qs'; busy = s.busy })
      receives :
          {tag : ℕ} {s : Threads} {qs' : Queues}
          → source_round tag s.queues ≡ some qs'
          → Step (pushes tag (packet (buf_init alloc))) s (record { queues = qs'; busy = s.busy })
      calls :
          {w : ℕ} {m : Message} {s s' : Threads}
          → s.busy w ≡ none
          → begin_event w s ≡ some (m, s')
          → Step (begins w m) s s'
      returns :
          {w : ℕ} {m : Message} {s : Threads}
          → s.busy w ≡ some m
          → Step (finishes w m) s (finish_event w s)

    -- The steps of all threads, in the order in which they happen.
    pub data Run : List Action → Threads → Threads → Type 0 where
      here : {s : Threads} → Run [] s s
      next :
          {x : Action} {xs : List Action} {s mid s' : Threads}
          → Step x s mid
          → Run xs mid s'
          → Run (x ∷ xs) s s'
