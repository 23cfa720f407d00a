-- ===== src/Mutex.antt =====
-- include/mutex_queue.hpp: a linked list under one mutex. The statements between `lock` and `unlock`
-- are one step, since no other thread can come between them; so are the last ones of `dequeue`,
-- which use a node that no other thread can reach.
pub mod Knowledge
pub mod Enqueue
pub mod Dequeue
pub mod Linearizable
pub mod Holds
pub mod Progress
pub mod Destructor
mod Tests
use concurrent_queue_evaluat.Base.{
  ℕ, ◌≡◌, Option, none, some, Ptr, null, ◌==◌, if◌then◌else◌, update,
}
use concurrent_queue_evaluat.Fifo.{Item, Op, enqueue, dequeue, Answer, enqueued, dequeued}
use concurrent_queue_evaluat.Destroy.{Cleared, delete_nodes}
use concurrent_queue_evaluat.Machine.{Outcome, next, done, blocked, fault, Env, Machine}

pub record Node : Type 0 where
  pub item : Item
  pub next_node : Ptr  -- next

-- `head_`, `tail_`, `mutex_` with the thread that holds it, and the nodes that `new` has returned and
-- `delete` has not taken back
pub record Mem : Type 0 where
  pub nodes : Ptr → Option Node
  pub head : Ptr
  pub tail : Ptr
  pub mutex : Option ℕ

abbrev pub store : Mem → Ptr → Node → Mem
store m p d = record m { nodes = update m.nodes p (some d) }

pub data Pc : Type 0 where
  a1 : (value : Item) → Pc  -- `new Node(item)`
  a2 : (node : Ptr) → Pc  -- `mutex_.lock()` in `enqueue`
  a3 : (node : Ptr) → Pc  -- the statements under the mutex
  a4 : Pc  -- `mutex_.unlock()`
  b1 : Pc  -- `mutex_.lock()` in `dequeue`
  b2 : Pc  -- the statements under the mutex
  b3 : (tmp : Ptr) → Pc  -- `mutex_.unlock()`
  b4 : (tmp : Ptr) → Pc  -- `item = tmp->item; delete tmp;`
  b9 : Pc  -- `mutex_.unlock()` and `return false`

unfoldable pub begin : Op → Pc
begin (enqueue x) = a1 x
begin dequeue = b1

-- `p->…`: a fault where `p` names no node
unfoldable pub deref : Mem → Ptr → (Node → Outcome Mem Pc Answer) → Outcome Mem Pc Answer
deref m p k = elim (m.nodes p) [ none ↦ fault | some d ↦ k d ]

-- `lock()` of a mutex
unfoldable pub acquire : Option ℕ → Outcome Mem Pc Answer → Outcome Mem Pc Answer
acquire none o = o
acquire (some holder) o = blocked

unfoldable pub move : ℕ → Env → Mem → Pc → Outcome Mem Pc Answer
move self e m (a1 x) = next (store m e.fresh (record { item = x; next_node = null })) (a2 e.fresh)
move self e m (a2 n) = acquire m.mutex (next (record m { mutex = some self }) (a3 n))
move self e m (a3 n) =
    if m.head == null
    then next (record m { head = n; tail = n }) a4
    else deref m m.tail λ d.
      next
        (record m { nodes = update m.nodes m.tail (some (record d { next_node = n })); tail = n })
        a4
move self e m a4 = done (record m { mutex = none }) enqueued
move self e m b1 = acquire m.mutex (next (record m { mutex = some self }) b2)
move self e m b2 =
    if m.head == null
    then next m b9
    else deref m m.head λ d.
      next (record m { head = d.next_node; tail = if d.next_node == null then null else m.tail })
        (b3 m.head)
move self e m (b3 tmp) = next (record m { mutex = none }) (b4 tmp)
move self e m (b4 tmp) =
    deref m tmp λ d. done (record m { nodes = update m.nodes tmp none }) (dequeued (some d.item))
move self e m b9 = done (record m { mutex = none }) (dequeued none)

abbrev pub machine : Machine Op Answer
machine = record {
  Mem = Mem;
  Pc = Pc;
  begin = begin;
  Unused = λ m p. m.nodes p ≡ none;
  move = move;
}

-- The constructor.
abbrev pub create : Mem
create = record { nodes = λ _. none; head = null; tail = null; mutex = none }

-- The destructor; a round of its loop, whose variable is `head_`, deletes one node.
abbrev pub destroy : (rounds : ℕ) → Mem → Cleared Node
destroy rounds m = delete_nodes (λ d. d.next_node) rounds m.nodes m.head
