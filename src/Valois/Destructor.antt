-- ===== src/Valois/Destructor.antt =====
-- `delete_chain` of valois_queue.hpp, with which its destructor begins.
use concurrent_queue_evaluat.Base.{
  ℕ, ◌≡◌, ◌≢◌, refl, ◌∙◌, sym, ap, Option, none, some, Ptr, null, ==_ne, if◌then◌else◌, arith,
}
use concurrent_queue_evaluat.Machine.{System, Reach}
use concurrent_queue_evaluat.Machine.Simulation.Linearized
use concurrent_queue_evaluat.Destroy.{cleared, Linked}
use concurrent_queue_evaluat.Destroy.Positions.{positions-Clears}
use concurrent_queue_evaluat.Valois.{Node, machine, create, delete_chain}
use concurrent_queue_evaluat.Valois.Knowledge.{look_node, view}
use concurrent_queue_evaluat.Valois.Linearizable.{linearization}

node_of_look :
    (o : Option Node) (v q : Ptr)
    → look_node o ≡ some (v, q)
    → (d : Node) × (o ≡ some d) × (d.next_node ≡ q)
node_of_look none v q h = absurd (cc)
node_of_look (some d) v q h = (d, refl, ground arith)

-- In every reachable state of a ValoisQueue, the loop of `delete_chain` from `head_` ends and follows no
-- bad pointer; the nodes that one comes to from there are deleted, each once, and all other nodes are as
-- they were.
pub valois_delete_chain-Linked :
    (dummy : Ptr) {s : System machine}
    → dummy ≢ null
    → Reach machine (create dummy) s
    → (rounds : ℕ) × (nodes : Ptr → Option Node) × (delete_chain rounds s.mem s.mem.head
        ≡ cleared nodes)
      × ((q : Ptr) → Linked (λ d. d.next_node) s.mem.nodes s.mem.head q → nodes q ≡ none)
      × ((q : Ptr) → ¬ Linked (λ d. d.next_node) s.mem.nodes s.mem.head q → nodes q ≡ s.mem.nodes q)
valois_delete_chain-Linked dummy {s} nn r =
    let (g, v) = Linearized.invariant machine view (linearization dummy nn) r in
    positions-Clears (λ d. d.next_node) s.mem.nodes g.at g.head g.len
      (λ k lo lt. node_of_look (s.mem.nodes (g.at k)) (g.val k) _ (v.chain.cell k lt))
      (λ k lo lt. v.chain.nonnull k lt) (λ j k lj hj lk hk. v.chain.distinct j k hj hk) s.mem.head
      (omega (arith, v.head_here.linked))
      (sym v.head_here.here
        ∙ sym (
            ap (λ b. if b then null else g.at g.head)
              (==_ne g.head g.len λ e. omega (arith, v.head_here.linked))))
