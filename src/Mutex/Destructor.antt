-- ===== src/Mutex/Destructor.antt =====
-- The destructor of mutex_queue.hpp.
use concurrent_queue_evaluat.Base.{ℕ, ◌≡◌, Option, none, Ptr}
use concurrent_queue_evaluat.Machine.{System, Reach}
use concurrent_queue_evaluat.Machine.Simulation.Linearized
use concurrent_queue_evaluat.Destroy.{cleared, Linked}
use concurrent_queue_evaluat.Destroy.Positions.{positions-Clears}
use concurrent_queue_evaluat.Mutex.{Node, machine, create, destroy}
use concurrent_queue_evaluat.Mutex.Knowledge.{view, node_of_look}
use concurrent_queue_evaluat.Mutex.Linearizable.{linearization}

-- In every reachable state of a MutexQueue, the destructor's loop ends and follows no bad pointer; the
-- nodes that one comes to from `head_` are deleted, each once, and all other nodes are as they were.
pub mutex_destroy-Linked :
    {s : System machine}
    → Reach machine create s
    → (rounds : ℕ) × (nodes : Ptr → Option Node) × (destroy rounds s.mem ≡ cleared nodes)
      × ((q : Ptr) → Linked (λ d. d.next_node) s.mem.nodes s.mem.head q → nodes q ≡ none)
      × ((q : Ptr) → ¬ Linked (λ d. d.next_node) s.mem.nodes s.mem.head q → nodes q ≡ s.mem.nodes q)
mutex_destroy-Linked {s} r =
    let (g, v) = Linearized.invariant machine view linearization r in
    positions-Clears (λ d. d.next_node) s.mem.nodes g.at g.head g.len
      (λ k lo lt.
        let (d, stored, _, succ) =
          node_of_look (s.mem.nodes (g.at k)) (g.val k) _ (v.live.cell k lo lt) in
        (d, stored, succ))
      v.live.nonnull v.live.distinct s.mem.head v.order v.head_here
