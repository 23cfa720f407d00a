-- ===== src/Prq/Tests.antt =====
-- Runs of a ring, and its theorems at them.
use concurrent_queue_evaluat.Base.{
  ℕ, ◌+◌, ◌*◌, ◌^◌, ◌≤◌, ◌≡◌, refl, true, false, ◌||◌, leb, ltb, if◌then◌else◌, none, some, List,
  [], ◌∷◌, arith, Ptr,
}
use concurrent_queue_evaluat.Fifo.{Op, enqueue, dequeue, Event}
use concurrent_queue_evaluat.Machine.{next, call}
use concurrent_queue_evaluat.Machine.Schedule.{Run, run, Turn, calls, goes}
use concurrent_queue_evaluat.Word
use concurrent_queue_evaluat.Prq
use concurrent_queue_evaluat.Prq.{
  Reply, ok, closed, returned, ring_size, starving_threshold, p1, p9, p10, move, machine, create,
}
use concurrent_queue_evaluat.Prq.Epochs.{prq_epochs_grow}
use concurrent_queue_evaluat.Prq.Closed.{prq_stays_closed, prq_closes_when}

abbrev address : ℕ → Ptr
address i = 4096 + 64 * i

-- Thread 0 puts 8 into cell 0 and thread 1 takes it.
abbrev turns : List (Turn Op)
turns =
    calls 0 (enqueue 8)
    ∷ goes 0 9
    ∷ goes 0 9
    ∷ goes 0 9
    ∷ goes 0 9
    ∷ calls 1 dequeue
    ∷ goes 1 9
    ∷ goes 0 9
    ∷ goes 0 9
    ∷ goes 1 9
    ∷ goes 1 9
    ∷ goes 1 9
    ∷ goes 1 9
    ∷ []

demo : Run (machine address) (λ m p. some tt) create
unfolding run
demo = run (machine address) (λ m p. some tt) create turns

demo_history :
    demo.last.history
    ≡ Event.return 1 (returned 8)
      ∷ Event.return 0 (ok 8)
      ∷ Event.call 1 dequeue
      ∷ Event.call 0 (enqueue 8)
      ∷ []
unfolding demo move Prq.begin Prq.decode_cell_safe Prq.decode_tail_closed Word.flag
    Prq.decode_cell_epoch Word.number Prq.encode_cell_safe_epoch Word.join Prq.is_token Prq.is_free
    Prq.thread_token Prq.decode_tail_t Word.add64 Prq.gives_up Word.sub64 Prq.close Prq.dispatch
demo_history = refl

-- Thread 1 takes the ticket of the empty cell 0 and passes it on before thread 0 comes; thread 0
-- closes the ring, which holds nothing.
abbrev passed_turns : List (Turn Op)
passed_turns =
    calls 1 dequeue
    ∷ goes 1 9
    ∷ calls 0 (enqueue 8)
    ∷ goes 0 9
    ∷ goes 1 9
    ∷ goes 1 9
    ∷ goes 1 9
    ∷ goes 1 9
    ∷ goes 0 9
    ∷ goes 0 9
    ∷ goes 0 9
    ∷ goes 0 9
    ∷ []

passed : Run (machine address) (λ m p. some tt) create
unfolding run
passed = run (machine address) (λ m p. some tt) create passed_turns

passed_history :
    passed.last.history
    ≡ Event.return 0 (closed 8) ∷ Event.call 0 (enqueue 8) ∷ Event.call 1 dequeue ∷ []
unfolding passed move Prq.begin Prq.decode_cell_safe Prq.decode_tail_closed Word.flag
    Prq.decode_cell_epoch Word.number Prq.encode_cell_safe_epoch Word.join Prq.is_token Prq.is_free
    Prq.thread_token Prq.decode_tail_t Word.add64 Prq.gives_up Word.sub64 Prq.close Prq.dispatch
passed_history = refl

passed_tail : passed.last.mem.tail ≡ 2 ^ 63 + 1025
unfolding passed move Prq.begin Prq.decode_cell_safe Prq.decode_tail_closed Word.flag
    Prq.decode_cell_epoch Word.number Prq.encode_cell_safe_epoch Word.join Prq.is_token Prq.is_free
    Prq.thread_token Prq.decode_tail_t Word.add64 Prq.gives_up Word.sub64 Prq.close Prq.dispatch
passed_tail = refl

passed_closed : Prq.decode_tail_closed passed.last.mem.tail ≡ true
unfolding Prq.decode_tail_closed Word.flag
passed_closed = rw passed_tail refl

passed_idle : passed.last.thread 5 ≡ none
unfolding passed move Prq.begin Prq.decode_cell_safe Prq.decode_tail_closed Word.flag
    Prq.decode_cell_epoch Word.number Prq.encode_cell_safe_epoch Word.join Prq.is_token Prq.is_free
    Prq.thread_token Prq.decode_tail_t Word.add64 Prq.gives_up Word.sub64 Prq.close Prq.dispatch
passed_idle = refl

prq_epochs_grow_example :
    Prq.decode_cell_epoch (passed.last.mem.cells 0).safe_and_epoch
    ≤ Prq.decode_cell_epoch (passed.last.mem.cells 0).safe_and_epoch
prq_epochs_grow_example = prq_epochs_grow address 0 passed.reach (call 5 dequeue passed_idle)

prq_stays_closed_example : Prq.decode_tail_closed passed.last.mem.tail ≡ true
prq_stays_closed_example =
    prq_stays_closed address {s = passed.last} passed_closed (omega (arith, passed_tail))
      (call 5 dequeue passed_idle)

prq_closes_when_example :
    move address 0 (record { fresh = 1; spurious = false }) create (p9 8 0 2048) ≡ (
      if ltb 2048 1024 || (leb (1024 + ring_size) 2048 || ltb starving_threshold 0)
      then next create (p10 8)
      else next create (p1 8 (0 + 1)))
prq_closes_when_example =
    prq_closes_when address 0 (record { fresh = 1; spurious = false }) create 8 0 2048 (omega arith)
      (omega arith)
