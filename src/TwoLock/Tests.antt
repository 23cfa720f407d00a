-- ===== src/TwoLock/Tests.antt =====
-- Runs of two_lock_queue.hpp, and its theorems at them.
use concurrent_queue_evaluat.Base.{
  Option, none, Ptr, ℕ, ◌⊎◌, ◌≡◌, ◌≢◌, refl, some, List, [], ◌∷◌, arith, false,
}
use concurrent_queue_evaluat.Fifo.{
  Op, enqueue, dequeue, enqueued, dequeued, Event, Atomic, AtomicReach,
}
use concurrent_queue_evaluat.Machine.{fault}
use concurrent_queue_evaluat.Machine.Schedule.{Run, check_none, run, Turn, calls, goes}
use concurrent_queue_evaluat.TwoLock
use concurrent_queue_evaluat.TwoLock.Progress.{HasLock, two_lock_progresses}
use concurrent_queue_evaluat.Machine.Alone.{Within}
use concurrent_queue_evaluat.TwoLock.{Node, destroy, Pc, Mem, move, machine, create, b2}
use concurrent_queue_evaluat.Destroy.{cleared, Linked}
use concurrent_queue_evaluat.TwoLock.Destructor.{two_lock_destroy-Linked}
use concurrent_queue_evaluat.TwoLock.Linearizable.{two_lock_linearizable, two_lock_move-ne-fault}

-- Thread 0 adds 7 while thread 1 holds the lock of the head; thread 1 takes 7 and deletes the old
-- dummy, whose address serves again; thread 2 waits for the lock of the tail.
abbrev turns : List (Turn Op)
turns =
    calls 1 dequeue
    ∷ goes 1 9
    ∷ calls 0 (enqueue 7)
    ∷ goes 0 2
    ∷ goes 0 9
    ∷ calls 2 (enqueue 8)
    ∷ goes 2 3
    ∷ goes 2 9
    ∷ goes 0 9
    ∷ goes 1 9
    ∷ goes 1 9
    ∷ goes 1 9
    ∷ goes 1 9
    ∷ goes 1 9
    ∷ goes 1 9
    ∷ goes 0 9
    ∷ goes 0 9
    ∷ goes 2 9
    ∷ goes 2 9
    ∷ goes 2 9
    ∷ goes 2 9
    ∷ calls 0 dequeue
    ∷ goes 0 9
    ∷ []

demo : Run machine (λ m p. check_none (m.nodes p)) (create 1)
unfolding run check_none
demo = run machine (λ m p. check_none (m.nodes p)) (create 1) turns

demo_history :
    demo.last.history
    ≡ Event.call 0 dequeue
      ∷ Event.return 2 enqueued
      ∷ Event.return 0 enqueued
      ∷ Event.return 1 (dequeued (some 7))
      ∷ Event.call 2 (enqueue 8)
      ∷ Event.call 0 (enqueue 7)
      ∷ Event.call 1 dequeue
      ∷ []
unfolding demo move TwoLock.begin TwoLock.deref TwoLock.acquire
demo_history = refl

two_lock_linearizable_example : (a : Atomic) × AtomicReach a × (a.history ≡ demo.last.history)
two_lock_linearizable_example = two_lock_linearizable 1 (omega arith) demo.reach

two_lock_move-ne-fault_example :
    move 0 (record { fresh = 9; spurious = false }) demo.last.mem b2 ≢ fault
unfolding demo move TwoLock.begin TwoLock.deref TwoLock.acquire
two_lock_move-ne-fault_example =
    two_lock_move-ne-fault 1 0 (record { fresh = 9; spurious = false }) (omega arith) demo.reach
      refl (omega arith) refl

two_lock_progresses_example :
    Within machine 0 (record { fresh = 9; spurious = false }) 7 demo.last.mem b2
    ⊎ ((j : ℕ) × (c : Pc) × HasLock demo.last.mem j
        × (demo.last.thread j ≡ some c)
        × Within machine j (record { fresh = 9; spurious = false }) 6 demo.last.mem c)
unfolding demo move TwoLock.begin TwoLock.deref TwoLock.acquire
two_lock_progresses_example =
    two_lock_progresses 1 0 (record { fresh = 9; spurious = false }) (omega arith) demo.reach refl
      (omega arith) refl

two_lock_destroy-Linked_example :
    (rounds : ℕ) × (nodes : Ptr → Option Node) × (destroy rounds demo.last.mem ≡ cleared nodes)
    × ((q : Ptr)
        → Linked (λ d. d.next_node) demo.last.mem.nodes demo.last.mem.head q
        → nodes q ≡ none)
    × ((q : Ptr)
        → ¬ Linked (λ d. d.next_node) demo.last.mem.nodes demo.last.mem.head q
        → nodes q ≡ demo.last.mem.nodes q)
two_lock_destroy-Linked_example = two_lock_destroy-Linked 1 (omega arith) demo.reach
