-- ===== src/Ms/Tests.antt =====
-- Runs of ms_queue.hpp, and its theorems at them.
use concurrent_queue_evaluat.Base.{◌≡◌, ◌≢◌, refl, none, some, List, [], ◌∷◌, arith, false}
use concurrent_queue_evaluat.Fifo.{
  Op, enqueue, dequeue, enqueued, dequeued, Event, Atomic, AtomicReach,
}
use concurrent_queue_evaluat.Machine.{fault}
use concurrent_queue_evaluat.Machine.Alone.{Within}
use concurrent_queue_evaluat.Machine.Schedule.{Run, check_none, run, Turn, calls, goes}
use concurrent_queue_evaluat.Ms
use concurrent_queue_evaluat.Ms.{Mem, move, machine, create, d2}
use concurrent_queue_evaluat.Ms.Linearizable.{ms_linearizable, ms_move-ne-fault}
use concurrent_queue_evaluat.Ms.Alone.{ms_returns_alone}

-- Thread 0 adds 7, while thread 1 waits with a stale view of the empty queue and then takes 7.
abbrev turns : List (Turn Op)
turns =
    calls 1 dequeue
    ∷ goes 1 9
    ∷ calls 0 (enqueue 7)
    ∷ goes 0 2
    ∷ goes 1 9
    ∷ goes 0 9
    ∷ goes 0 9
    ∷ goes 0 9
    ∷ goes 0 9
    ∷ goes 1 9
    ∷ goes 1 9
    ∷ goes 1 9
    ∷ goes 0 9
    ∷ goes 1 9
    ∷ goes 1 9
    ∷ goes 1 9
    ∷ goes 1 9
    ∷ goes 1 9
    ∷ goes 1 9
    ∷ calls 0 dequeue
    ∷ goes 0 9
    ∷ goes 0 9
    ∷ goes 0 9
    ∷ goes 0 9
    ∷ calls 0 dequeue
    ∷ []

demo : Run machine (λ m p. check_none (m.nodes p)) (create 1)
unfolding run check_none
demo = run machine (λ m p. check_none (m.nodes p)) (create 1) turns

demo_history :
    demo.last.history
    ≡ Event.call 0 dequeue
      ∷ Event.return 0 (dequeued none)
      ∷ Event.call 0 dequeue
      ∷ Event.return 1 (dequeued (some 7))
      ∷ Event.return 0 enqueued
      ∷ Event.call 0 (enqueue 7)
      ∷ Event.call 1 dequeue
      ∷ []
unfolding demo move Ms.begin Ms.deref Ms.same Ms.bump Ms.swing_tail
demo_history = refl

ms_linearizable_example : (a : Atomic) × AtomicReach a × (a.history ≡ demo.last.history)
ms_linearizable_example = ms_linearizable 1 (omega arith) demo.reach

ms_move-ne-fault_example : move 0 (record { fresh = 9; spurious = false }) demo.last.mem d2 ≢ fault
unfolding demo move Ms.begin Ms.deref Ms.same Ms.bump Ms.swing_tail
ms_move-ne-fault_example =
    ms_move-ne-fault 1 0 (record { fresh = 9; spurious = false }) (omega arith) demo.reach refl
      (omega arith) refl

ms_returns_alone_example :
    Within machine 0 (record { fresh = 9; spurious = false }) 16 demo.last.mem d2
unfolding demo move Ms.begin Ms.deref Ms.same Ms.bump Ms.swing_tail
ms_returns_alone_example =
    ms_returns_alone 1 0 (record { fresh = 9; spurious = false }) (omega arith) demo.reach refl
      (omega arith) refl
