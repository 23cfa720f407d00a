-- ===== src/Mutex/Tests.antt =====
-- Runs of mutex_queue.hpp, and its theorems at them.
use concurrent_queue_evaluat.Base.{
  Option, Ptr, ℕ, ◌⊎◌, some, ◌≡◌, ◌≢◌, refl, none, some, List, [], ◌∷◌, arith, false,
}
use concurrent_queue_evaluat.Fifo.{
  Op, enqueue, dequeue, enqueued, dequeued, Event, Atomic, AtomicReach,
}
use concurrent_queue_evaluat.Machine.{fault}
use concurrent_queue_evaluat.Machine.Schedule.{Run, check_none, run, Turn, calls, goes}
use concurrent_queue_evaluat.Mutex
use concurrent_queue_evaluat.Mutex.{Node, destroy, Pc, Mem, move, machine, create, b1}
use concurrent_queue_evaluat.Mutex.Progress.{mutex_progresses}
use concurrent_queue_evaluat.Machine.Alone.{Within}
use concurrent_queue_evaluat.Destroy.{cleared, Linked}
use concurrent_queue_evaluat.Mutex.Destructor.{mutex_destroy-Linked}
use concurrent_queue_evaluat.Mutex.Linearizable.{mutex_linearizable, mutex_move-ne-fault}

-- Thread 1 waits while thread 0 holds the mutex and adds 7, then takes 7 and deletes its node, whose
-- address serves again; a last call meets the empty queue.
abbrev turns : List (Turn Op)
turns =
    calls 0 (enqueue 7)
    ∷ calls 1 dequeue
    ∷ goes 0 2
    ∷ goes 0 9
    ∷ goes 1 9
    ∷ goes 0 9
    ∷ goes 0 9
    ∷ goes 1 9
    ∷ goes 1 9
    ∷ goes 1 9
    ∷ goes 1 9
    ∷ calls 0 (enqueue 8)
    ∷ goes 0 2
    ∷ goes 0 9
    ∷ goes 0 9
    ∷ goes 0 9
    ∷ calls 1 dequeue
    ∷ goes 1 9
    ∷ goes 1 9
    ∷ goes 1 9
    ∷ goes 1 9
    ∷ calls 1 dequeue
    ∷ goes 1 9
    ∷ goes 1 9
    ∷ goes 1 9
    ∷ calls 0 dequeue
    ∷ []

demo : Run machine (λ m p. check_none (m.nodes p)) create
unfolding run check_none
demo = run machine (λ m p. check_none (m.nodes p)) create turns

demo_history :
    demo.last.history
    ≡ Event.call 0 dequeue
      ∷ Event.return 1 (dequeued none)
      ∷ Event.call 1 dequeue
      ∷ Event.return 1 (dequeued (some 8))
      ∷ Event.call 1 dequeue
      ∷ Event.return 0 enqueued
      ∷ Event.call 0 (enqueue 8)
      ∷ Event.return 1 (dequeued (some 7))
      ∷ Event.return 0 enqueued
      ∷ Event.call 1 dequeue
      ∷ Event.call 0 (enqueue 7)
      ∷ []
unfolding demo move Mutex.begin Mutex.deref Mutex.acquire
demo_history = refl

mutex_linearizable_example : (a : Atomic) × AtomicReach a × (a.history ≡ demo.last.history)
mutex_linearizable_example = mutex_linearizable demo.reach

mutex_move-ne-fault_example :
    move 0 (record { fresh = 9; spurious = false }) demo.last.mem b1 ≢ fault
unfolding demo move Mutex.begin Mutex.deref Mutex.acquire
mutex_move-ne-fault_example =
    mutex_move-ne-fault 0 (record { fresh = 9; spurious = false }) demo.reach refl (omega arith)
      refl

mutex_progresses_example :
    Within machine 0 (record { fresh = 9; spurious = false }) 4 demo.last.mem b1
    ⊎ ((j : ℕ) × (c : Pc) × (demo.last.mem.mutex ≡ some j)
        × (demo.last.thread j ≡ some c)
        × Within machine j (record { fresh = 9; spurious = false }) 3 demo.last.mem c)
unfolding demo move Mutex.begin Mutex.acquire Mutex.deref
mutex_progresses_example =
    mutex_progresses 0 (record { fresh = 9; spurious = false }) demo.reach refl (omega arith) refl

mutex_destroy-Linked_example :
    (rounds : ℕ) × (nodes : Ptr → Option Node) × (destroy rounds demo.last.mem ≡ cleared nodes)
    × ((q : Ptr)
        → Linked (λ d. d.next_node) demo.last.mem.nodes demo.last.mem.head q
        → nodes q ≡ none)
    × ((q : Ptr)
        → ¬ Linked (λ d. d.next_node) demo.last.mem.nodes demo.last.mem.head q
        → nodes q ≡ demo.last.mem.nodes q)
mutex_destroy-Linked_example = mutex_destroy-Linked demo.reach
