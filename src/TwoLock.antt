-- ===== src/TwoLock.antt =====
-- include/two_lock_queue.hpp: the two-lock queue of Michael and Scott. Each access to memory that
-- threads share is one step; a node is allocated and filled in one step, before any other thread can
-- reach it.
pub mod Knowledge
pub mod Enqueue
pub mod Dequeue
pub mod Linearizable
pub mod Holds
pub mod Progress
pub mod Destructor
mod Tests
use concurrent_queue_evaluat.Base.{
  ℕ, ◌≡◌, Option, none, some, Ptr, null, ◌==◌, if◌then◌else◌, update,
}
use concurrent_queue_evaluat.Fifo.{Item, Op, enqueue, dequeue, Answer, enqueued, dequeued}
use concurrent_queue_evaluat.Destroy.{Cleared, delete_nodes}
use concurrent_queue_evaluat.Machine.{Outcome, next, done, blocked, fault, Env, Machine}

pub record Node : Type 0 where
  pub item : Item
  pub next_node : Ptr  -- next

-- `head_`, `tail_`, the two mutexes with the thread that holds each, and the nodes that `new` has
-- returned and `delete` has not taken back
pub record Mem : Type 0 where
  pub nodes : Ptr → Option Node
  pub head : Ptr
  pub head_lock : Option ℕ
  pub tail : Ptr
  pub tail_lock : Option ℕ

abbrev pub store : Mem → Ptr → Node → Mem
store m p d = record m { nodes = update m.nodes p (some d) }

-- The places in `enqueue` (a) and `dequeue` (b), each at an access, with the locals that are live.
pub data Pc : Type 0 where
  a1 : (value : Item) → Pc  -- `new Node(item)`
  a2 : (node : Ptr) → Pc  -- `tail_lock_.lock()`
  a3 : (node : Ptr) → Pc  -- `tail_->next.store(node)`
  a4 : (node : Ptr) → Pc  -- `tail_ = node`
  a5 : Pc  -- `tail_lock_.unlock()`
  b1 : Pc  -- `head_lock_.lock()`
  b2 : Pc  -- `dummy = head_`
  b3 : (dummy : Ptr) → Pc  -- `dummy->next.load()`
  b4 : (dummy new_head : Ptr) → Pc  -- `item = new_head->item`
  b5 : (dummy new_head : Ptr) (value : Item) → Pc  -- `head_ = new_head`
  b6 : (dummy : Ptr) (value : Item) → Pc  -- `head_lock_.unlock()`
  b7 : (dummy : Ptr) (value : Item) → Pc  -- `delete dummy`
  b9 : Pc  -- `head_lock_.unlock()` and `return false`

pub begin : Op → Pc
begin (enqueue x) = a1 x
begin dequeue = b1

-- `p->…`: a fault where `p` names no node
pub deref : Mem → Ptr → (Node → Outcome Mem Pc Answer) → Outcome Mem Pc Answer
deref m p k = elim (m.nodes p) [ none ↦ fault | some d ↦ k d ]

-- `lock()` of a mutex
pub acquire : Option ℕ → Outcome Mem Pc Answer → Outcome Mem Pc Answer
acquire none o = o
acquire (some holder) o = blocked

unfoldable pub move : ℕ → Env → Mem → Pc → Outcome Mem Pc Answer
move self e m (a1 x) = next (store m e.fresh (record { item = x; next_node = null })) (a2 e.fresh)
move self e m (a2 n) = acquire m.tail_lock (next (record m { tail_lock = some self }) (a3 n))
move self e m (a3 n) = deref m m.tail λ d. next (store m m.tail (record d { next_node = n })) (a4 n)
move self e m (a4 n) = next (record m { tail = n }) a5
move self e m a5 = done (record m { tail_lock = none }) enqueued
move self e m b1 = acquire m.head_lock (next (record m { head_lock = some self }) b2)
move self e m b2 = next m (b3 m.head)
move self e m (b3 dummy) =
    deref m dummy λ d. if d.next_node == null then next m b9 else next m (b4 dummy d.next_node)
move self e m (b4 dummy h) = deref m h λ d. next m (b5 dummy h d.item)
move self e m (b5 dummy h v) = next (record m { head = h }) (b6 dummy v)
move self e m (b6 dummy v) = next (record m { head_lock = none }) (b7 dummy v)
move self e m (b7 dummy v) =
    deref m dummy λ _. done (record m { nodes = update m.nodes dummy none }) (dequeued (some v))
move self e m b9 = done (record m { head_lock = none }) (dequeued none)

abbrev pub machine : Machine Op Answer
machine = record {
  Mem = Mem;
  Pc = Pc;
  begin = begin;
  Unused = λ m p. m.nodes p ≡ none;
  move = move;
}

-- The constructor; `dummy` is the address of its node.
abbrev pub create : Ptr → Mem
create dummy = record {
  nodes = update (λ _. none) dummy (some (record { item = null; next_node = null }));
  head = dummy;
  head_lock = none;
  tail = dummy;
  tail_lock = none;
}

-- The destructor; a round of its loop deletes one node.
abbrev pub destroy : (rounds : ℕ) → Mem → Cleared Node
destroy rounds m = delete_nodes (λ d. d.next_node) rounds m.nodes m.head
