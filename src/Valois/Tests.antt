-- ===== src/Valois/Tests.antt =====
-- Runs of valois_queue.hpp, and its theorems at them.
use concurrent_queue_evaluat.Base.{
  ℕ, Option, Ptr, ◌≡◌, ◌≢◌, refl, none, some, List, [], ◌∷◌, arith, false,
}
use concurrent_queue_evaluat.Fifo.{
  Op, enqueue, dequeue, enqueued, dequeued, Event, Atomic, AtomicReach,
}
use concurrent_queue_evaluat.Machine.{fault}
use concurrent_queue_evaluat.Machine.Alone.{Within}
use concurrent_queue_evaluat.Machine.Schedule.{Run, check_none, run, Turn, calls, goes}
use concurrent_queue_evaluat.Valois
use concurrent_queue_evaluat.Valois.{Node, delete_chain, Mem, move, machine, create, d2}
use concurrent_queue_evaluat.Valois.Alone.{valois_returns_alone}
use concurrent_queue_evaluat.Destroy.{cleared, Linked}
use concurrent_queue_evaluat.Valois.Destructor.{valois_delete_chain-Linked}
use concurrent_queue_evaluat.Valois.Linearizable.{valois_linearizable, valois_move-ne-fault}

-- Thread 0 adds 7, while thread 1 waits with a stale view of the empty queue and then takes 7.
abbrev turns : List (Turn Op)
turns =
    calls 1 dequeue
    ∷ goes 1 9
    ∷ calls 0 (enqueue 7)
    ∷ goes 0 2
    ∷ goes 1 9
    ∷ goes 0 9
    ∷ goes 0 9
    ∷ goes 0 9
    ∷ goes 0 9
    ∷ goes 1 9
    ∷ goes 1 9
    ∷ goes 1 9
    ∷ goes 0 9
    ∷ goes 1 9
    ∷ goes 1 9
    ∷ goes 1 9
    ∷ goes 1 9
    ∷ goes 1 9
    ∷ goes 1 9
    ∷ goes 1 9
    ∷ goes 1 9
    ∷ goes 1 9
    ∷ calls 0 dequeue
    ∷ goes 0 9
    ∷ goes 0 9
    ∷ goes 0 9
    ∷ goes 0 9
    ∷ calls 0 dequeue
    ∷ []

demo : Run machine (λ m p. check_none (m.nodes p)) (create 1)
unfolding run check_none
demo = run machine (λ m p. check_none (m.nodes p)) (create 1) turns

demo_history :
    demo.last.history
    ≡ Event.call 0 dequeue
      ∷ Event.return 0 (dequeued none)
      ∷ Event.call 0 dequeue
      ∷ Event.return 1 (dequeued (some 7))
      ∷ Event.return 0 enqueued
      ∷ Event.call 0 (enqueue 7)
      ∷ Event.call 1 dequeue
      ∷ []
unfolding demo move Valois.begin Valois.deref Valois.swing_tail
demo_history = refl

valois_linearizable_example : (a : Atomic) × AtomicReach a × (a.history ≡ demo.last.history)
valois_linearizable_example = valois_linearizable 1 (omega arith) demo.reach

valois_move-ne-fault_example :
    move 0 (record { fresh = 9; spurious = false }) demo.last.mem d2 ≢ fault
unfolding demo move Valois.begin Valois.deref Valois.swing_tail
valois_move-ne-fault_example =
    valois_move-ne-fault 1 0 (record { fresh = 9; spurious = false }) (omega arith) demo.reach refl
      (omega arith) refl

valois_returns_alone_example :
    Within machine 0 (record { fresh = 9; spurious = false }) 19 demo.last.mem d2
unfolding demo move Valois.begin Valois.deref Valois.swing_tail
valois_returns_alone_example =
    valois_returns_alone 1 0 (record { fresh = 9; spurious = false }) (omega arith) demo.reach refl
      (omega arith) refl refl

valois_delete_chain-Linked_example :
    (rounds : ℕ) × (nodes : Ptr → Option Node) × (delete_chain rounds demo.last.mem
        demo.last.mem.head
      ≡ cleared nodes)
    × ((q : Ptr)
        → Linked (λ d. d.next_node) demo.last.mem.nodes demo.last.mem.head q
        → nodes q ≡ none)
    × ((q : Ptr)
        → ¬ Linked (λ d. d.next_node) demo.last.mem.nodes demo.last.mem.head q
        → nodes q ≡ demo.last.mem.nodes q)
valois_delete_chain-Linked_example = valois_delete_chain-Linked 1 (omega arith) demo.reach
