-- ===== src/Runtime/Tests.antt =====
-- Concrete runs of the buffers, tables and queues of runtime-llvm/runtime.c.
use alkali.Prelude.{
  ℕ, ap, ◌≡◌, refl, map, List, [], ◌∷◌, ◌++◌, Option, none, some, length, replicate,
  length-replicate, take, arith,
}
use alkali.Runtime.Buffers.{Bytes, Allocator, Buf, buf_init, buf_emit, buf_extract, memcpy}
use alkali.Runtime.Buffers.Contents.{IsValid, contents, room, buf_emit-contents, buf_emit-overflow}
use alkali.Runtime.Buffers.Sequence.{concat, emit_all, emit_all-contents, emit_all-init}
use alkali.Runtime.Buffers.RoundTrip.{extract_all, rewound, extract_all-emit_all}
use alkali.Lang.Lexer.Chars.{same_text}
use alkali.Runtime.Externs.{ExternWorker, source_thread, source_net_recv, start_externs}
use alkali.Runtime.Tables.{table_init}
use alkali.Runtime.Queues.{
  write, generate, take_event, push_to, Message, event, AsyncQueue, Threads, write_busy,
  begin_event, finish_event, Action, pushes, begins, finishes, generates, calls, returns, Run, here,
  next,
}
use alkali.Runtime.Queues.Order.{all_handled, all_sent, ahead, Run-handled}

-- Blocks of zeros.
abbrev zeros : Allocator
zeros = record { fresh = λ n. replicate n 0; length-fresh = λ n. length-replicate n 0 }

abbrev small : Buf
small = record { bytes = 5 ∷ 6 ∷ 0 ∷ 0 ∷ 0 ∷ 0 ∷ 0 ∷ 0 ∷ []; size = 8; offset = 2 }

small-IsValid : IsValid small
small-IsValid = record { block = refl; within = omega arith; is_int = omega arith }

room-small : room small 2 ≡ 8
unfolding room
room-small = refl

room-small_full : room small 20 ≡ 16
unfolding room
room-small_full = refl

abbrev emitted : Bytes
emitted = 7 ∷ 8 ∷ []

buf_emit-contents_example :
    (b' : Buf) × (buf_emit zeros small 2 emitted ≡ some b')
    × (b'.size ≡ room small 2)
    × IsValid b'
    × (contents b' ≡ contents small ++ take 2 emitted)
buf_emit-contents_example =
    buf_emit-contents zeros small 2 emitted small-IsValid (omega (arith, room-small)) (omega arith)
      (omega (arith, room-small)) (omega (arith, room-small))

abbrev twenty : Bytes
twenty = replicate 20 1

length-twenty : length twenty ≡ 20
length-twenty = refl

buf_emit-overflow_example : buf_emit zeros small 20 twenty ≡ none
buf_emit-overflow_example =
    buf_emit-overflow zeros small 20 twenty small-IsValid (omega (arith, room-small_full))
      (omega (arith, length-twenty)) (omega (arith, room-small_full))

emit_all-contents_example :
    (b' : Buf) × (emit_all zeros small (emitted ∷ []) ≡ some b')
    × IsValid b'
    × (b'.size ≡ small.size)
    × (contents b' ≡ contents small ++ concat (emitted ∷ []))
emit_all-contents_example = emit_all-contents zeros small (emitted ∷ []) small-IsValid (omega arith)

emit_all-init_example :
    (b' : Buf) × (emit_all zeros (buf_init zeros) (emitted ∷ emitted ∷ []) ≡ some b')
    × (contents b' ≡ concat (emitted ∷ emitted ∷ []))
emit_all-init_example = emit_all-init zeros (emitted ∷ emitted ∷ []) (omega arith)

extract_all-emit_all_example :
    (b' : Buf) × (emit_all zeros small (emitted ∷ []) ≡ some b')
    × (extract_all (rewound b' small.offset) (map length (emitted ∷ [])) ≡ some (emitted ∷ [], b'))
extract_all-emit_all_example =
    extract_all-emit_all zeros small (emitted ∷ []) small-IsValid (omega arith)

abbrev other : Buf
other = record { bytes = 1 ∷ 2 ∷ 3 ∷ 4 ∷ []; size = 4; offset = 1 }

-- The bytes that an emit has put are those at the offset an extract gives.
emit_then_extract : buf_extract small 2 ≡ some (2, record small { offset = 4 })
unfolding buf_extract
emit_then_extract = refl

vsize-table_init : (table_init 8).vsize ≡ 8
unfolding table_init
vsize-table_init = refl

abbrev pop_list : List Message → Option (Message × List Message)
pop_list [] = none
pop_list (m ∷ ms) = some (m, ms)

-- A queue as the list of its messages.
abbrev lists : AsyncQueue
lists = record {
  Queue = List Message;
  new = [];
  push = λ m q. q ++ m ∷ [];
  pop = pop_list;
  waiting = λ q. q;
  waiting-new = refl;
  waiting-push = λ m q. refl;
  pop-empty = λ q e. ap pop_list e;
  pop-first = λ q m ms e. (ms, ap pop_list e, refl);
}

-- The first state, and those that a message for queue 1, its taking by worker 1 and the return of
-- the handler leave.
abbrev quiet : Threads zeros lists 2
quiet = record { queues = λ t. []; busy = λ v. none }

abbrev sent_one : Threads zeros lists 2
sent_one = record {
  queues = write zeros lists 2 1 (event emitted ∷ []) (λ t. []);
  busy = λ v. none;
}

abbrev handling : Threads zeros lists 2
handling = record {
  queues = write zeros lists 2 1 [] sent_one.queues;
  busy = write_busy zeros lists 2 1 (some (event emitted)) (λ v. none);
}

abbrev own_queue : ℕ → ℕ
own_queue v = v

abbrev actions : List Action
actions = pushes 1 (event emitted) ∷ begins 1 (event emitted) ∷ finishes 1 (event emitted) ∷ []

sends_and_handles :
    Run zeros lists 2 own_queue actions quiet (finish_event zeros lists 2 own_queue 1 handling)
unfolding generate begin_event take_event memcpy push_to
sends_and_handles =
    next (generates 2 emitted refl refl) (next (calls refl refl) (next (returns refl) here))

Run-handled_example :
    all_handled 1 actions
      ++ ahead zeros lists 2 own_queue 1
          (λ v e. e)
          (finish_event zeros lists 2 own_queue 1 handling)
    ≡ ahead zeros lists 2 own_queue 1 (λ v e. e) quiet ++ all_sent 1 actions
Run-handled_example = Run-handled zeros lists 2 own_queue 1 (λ v e. e) sends_and_handles

abbrev net_recv : ExternWorker
net_recv = record { name = source_net_recv; num_ins = 0; num_outs = 1; ins = λ i. 0; outs = λ i. 7 }

net_recv-start_externs : start_externs (net_recv ∷ []) ≡ source_thread 7 ∷ []
unfolding start_externs same_text
net_recv-start_externs = refl
