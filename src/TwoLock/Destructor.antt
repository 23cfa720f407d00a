-- ===== src/TwoLock/Destructor.antt =====
-- The destructor of two_lock_queue.hpp.
use concurrent_queue_evaluat.Base.{
  ℕ, ◌≡◌, ◌≢◌, ◌∙◌, sym, ap, Option, none, Ptr, null, ==_ne, if◌then◌else◌, arith,
}
use concurrent_queue_evaluat.Machine.{System, Reach}
use concurrent_queue_evaluat.Machine.Simulation.Linearized
use concurrent_queue_evaluat.Destroy.{cleared, Linked}
use concurrent_queue_evaluat.Destroy.Positions.{positions-Clears}
use concurrent_queue_evaluat.TwoLock.{Node, machine, create, destroy}
use concurrent_queue_evaluat.TwoLock.Knowledge.{view, node_at}
use concurrent_queue_evaluat.TwoLock.Linearizable.{linearization}

-- In every reachable state of a TwoLockQueue, the destructor's loop ends and follows no bad pointer; the
-- nodes that one comes to from `head_` are deleted, each once, and all other nodes are as they were.
pub two_lock_destroy-Linked :
    (dummy : Ptr) {s : System machine}
    → dummy ≢ null
    → Reach machine (create dummy) s
    → (rounds : ℕ) × (nodes : Ptr → Option Node) × (destroy rounds s.mem ≡ cleared nodes)
      × ((q : Ptr) → Linked (λ d. d.next_node) s.mem.nodes s.mem.head q → nodes q ≡ none)
      × ((q : Ptr) → ¬ Linked (λ d. d.next_node) s.mem.nodes s.mem.head q → nodes q ≡ s.mem.nodes q)
two_lock_destroy-Linked dummy {s} nn r =
    let (g, v) = Linearized.invariant machine view (linearization dummy nn) r in
    let l = g.list in
    positions-Clears (λ d. d.next_node) s.mem.nodes l.at l.head l.len
      (λ k lo lt. let (d, stored, _, succ) = node_at s.mem l k v.live lo lt in (d, stored, succ))
      v.live.nonnull v.live.distinct s.mem.head (omega (arith, v.dummy))
      (sym v.head_here
        ∙ sym (
            ap (λ b. if b then null else l.at l.head)
              (==_ne l.head l.len λ e. omega (arith, v.dummy))))
