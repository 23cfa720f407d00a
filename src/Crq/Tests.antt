-- ===== src/Crq/Tests.antt =====
-- Runs of a ring, and its theorems at them.
use concurrent_queue_evaluat.Base.{
  ◌+◌, ◌%◌, ◌^◌, ◌≡◌, refl, true, false, ◌||◌, leb, ltb, if◌then◌else◌, some, none, List, [], ◌∷◌,
  arith,
}
use concurrent_queue_evaluat.Machine.{next, call}
use concurrent_queue_evaluat.Fifo.{Op, enqueue, dequeue, Event}
use concurrent_queue_evaluat.Machine.Schedule.{Run, run, Turn, calls, goes}
use concurrent_queue_evaluat.Word
use concurrent_queue_evaluat.Crq
use concurrent_queue_evaluat.Crq.{
  Reply, ok, closed, returned, ring_size, starving_threshold, p1, p6, p7, move, machine, create,
}
use concurrent_queue_evaluat.Crq.Conserved.{held, put_in, taken_out, crq_conserves}
use concurrent_queue_evaluat.Crq.Residue.{crq_residue}
use concurrent_queue_evaluat.Crq.Closed.{crq_stays_closed, crq_closes_when}

-- Thread 1 comes first, finds cell 0 empty and passes it on; thread 0 has ticket 0 and finds the
-- cell passed, and the ring is closed.
abbrev passed_turns : List (Turn Op)
passed_turns =
    calls 1 dequeue
    ∷ goes 1 9
    ∷ calls 0 (enqueue 7)
    ∷ goes 0 9
    ∷ goes 1 9
    ∷ goes 1 9
    ∷ goes 1 9
    ∷ goes 0 9
    ∷ goes 0 9
    ∷ goes 0 9
    ∷ goes 0 9
    ∷ []

-- Threads 0 and 2 put 7 and 8 into cells 0 and 1; thread 1 takes 7.
abbrev turns : List (Turn Op)
turns =
    calls 0 (enqueue 7)
    ∷ calls 2 (enqueue 8)
    ∷ goes 0 9
    ∷ goes 2 9
    ∷ goes 2 9
    ∷ goes 0 9
    ∷ goes 2 9
    ∷ goes 0 9
    ∷ goes 2 9
    ∷ goes 0 9
    ∷ calls 1 dequeue
    ∷ goes 1 9
    ∷ goes 1 9
    ∷ goes 1 9
    ∷ goes 1 9
    ∷ calls 0 dequeue
    ∷ []

demo : Run machine (λ m p. some tt) create
unfolding run
demo = run machine (λ m p. some tt) create turns

abbrev history : List (Event Op Reply)
history =
    Event.call 0 dequeue
    ∷ Event.return 1 (returned 7)
    ∷ Event.call 1 dequeue
    ∷ Event.return 0 (ok 7)
    ∷ Event.return 2 (ok 8)
    ∷ Event.call 2 (enqueue 8)
    ∷ Event.call 0 (enqueue 7)
    ∷ []

demo_history : demo.last.history ≡ history
unfolding demo move Crq.begin Crq.decode_node_safe Crq.decode_tail_closed Word.flag
    Crq.decode_node_idx Word.number Crq.encode_node_safe_idx Word.join Crq.same_cell Crq.recode
    Crq.decode_tail_t Word.add64 Crq.gives_up Word.sub64 Crq.close
demo_history = refl

-- A ring that holds nothing is closed.
passed : Run machine (λ m p. some tt) create
unfolding run
passed = run machine (λ m p. some tt) create passed_turns

passed_history :
    passed.last.history
    ≡ Event.return 0 (closed 7) ∷ Event.call 0 (enqueue 7) ∷ Event.call 1 dequeue ∷ []
unfolding passed move Crq.begin Crq.decode_node_safe Crq.decode_tail_closed Word.flag
    Crq.decode_node_idx Word.number Crq.encode_node_safe_idx Word.join Crq.same_cell Crq.recode
    Crq.decode_tail_t Word.add64 Crq.gives_up Word.sub64 Crq.close
passed_history = refl

crq_conserves_example :
    put_in 7 demo.last.history
    ≡ taken_out 7 demo.last.history + held 7 ring_size demo.last.mem.array
crq_conserves_example = crq_conserves 7 (omega arith) demo.reach

passed_tail : passed.last.mem.tail ≡ 2 ^ 63 + 1
unfolding passed move Crq.begin Crq.decode_node_safe Crq.decode_tail_closed Word.flag
    Crq.decode_node_idx Word.number Crq.encode_node_safe_idx Word.join Crq.same_cell Crq.recode
    Crq.decode_tail_t Word.add64 Crq.gives_up Word.sub64 Crq.close
passed_tail = refl

passed_closed : Crq.decode_tail_closed passed.last.mem.tail ≡ true
unfolding passed move Crq.begin Crq.decode_node_safe Crq.decode_tail_closed Word.flag
    Crq.decode_node_idx Word.number Crq.encode_node_safe_idx Word.join Crq.same_cell Crq.recode
    Crq.decode_tail_t Word.add64 Crq.gives_up Word.sub64 Crq.close
passed_closed = refl

passed_idle : passed.last.thread 5 ≡ none
unfolding passed move Crq.begin Crq.decode_node_safe Crq.decode_tail_closed Word.flag
    Crq.decode_node_idx Word.number Crq.encode_node_safe_idx Word.join Crq.same_cell Crq.recode
    Crq.decode_tail_t Word.add64 Crq.gives_up Word.sub64 Crq.close
passed_idle = refl

crq_residue_example : Crq.decode_node_idx (demo.last.mem.array 3).safe_and_idx % ring_size ≡ 3
crq_residue_example = crq_residue 3 (omega arith) demo.reach

crq_stays_closed_example : Crq.decode_tail_closed passed.last.mem.tail ≡ true
crq_stays_closed_example =
    crq_stays_closed passed.reach passed_closed (omega (arith, passed_tail))
      (call 5 dequeue passed_idle)

crq_closes_when_example :
    move 0 (record { fresh = 1; spurious = false }) (record create { head = 5 }) (p6 7 0 4) ≡ (
      if ltb 4 5 || (leb (5 + ring_size) 4 || ltb starving_threshold 0)
      then next (record create { head = 5 }) (p7 7)
      else next (record create { head = 5 }) (p1 7 (0 + 1)))
crq_closes_when_example =
    crq_closes_when 0 (record { fresh = 1; spurious = false }) (record create { head = 5 }) 7 0 4
      (omega arith) (omega arith)
