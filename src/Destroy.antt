-- ===== src/Destroy.antt =====
-- The loop that destructors of the queues share: it deletes the nodes of a linked list.
pub mod Chains
pub mod Positions
use concurrent_queue_evaluat.Base.{
  ℕ, zero, suc, ◌≡◌, ◌≢◌, Bool, true, false, Option, none, some, Ptr, null, ◌==◌, update,
}

-- The nodes that are left, a pointer that leads to no node, or a loop that needs more rounds.
pub data Cleared (Node : Type 0) : Type 0 where
  cleared : (nodes : Ptr → Option Node) → Cleared Node
  fault : Cleared Node
  running : Cleared Node

module _ {Node : Type 0} (next_node : Node → Ptr) where
  unfoldable pub delete_nodes : (rounds : ℕ) → (Ptr → Option Node) → (curr : Ptr) → Cleared Node
  delete_nodes zero nodes curr = running
  delete_nodes (suc rounds) nodes curr = elim (curr == null) [
    | true ↦ cleared nodes
    | false ↦ elim (nodes curr) [
      | none ↦ fault
      | some d ↦ delete_nodes rounds (update nodes curr none) (next_node d)
    ]
  ]

  -- From a pointer one comes to a node.
  pub data Linked (nodes : Ptr → Option Node) : Ptr → Ptr → Type 0 where
    here : {p : Ptr} → p ≢ null → Linked nodes p p
    further :
        {p q : Ptr} {d : Node}
        → p ≢ null
        → nodes p ≡ some d
        → Linked nodes (next_node d) q
        → Linked nodes p q
