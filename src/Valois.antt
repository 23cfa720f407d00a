-- ===== src/Valois.antt =====
-- include/valois_queue.hpp: a queue after Valois. Each access to memory that threads share is one
-- step; a node is allocated and filled in one step, before any other thread can reach it. Memory
-- orders weaker than sequential consistency are not modelled.
pub mod Knowledge
pub mod Swing
pub mod Enqueue
pub mod Dequeue
pub mod Retire
pub mod Linearizable
pub mod Alone
pub mod Destructor
mod Tests
use concurrent_queue_evaluat.Base.{
  ℕ, ◌≡◌, Bool, true, false, ◌&&◌, Option, none, some, Ptr, null, ◌==◌, if◌then◌else◌, update,
}
use concurrent_queue_evaluat.Fifo.{Item, Op, enqueue, dequeue, Answer, enqueued, dequeued}
use concurrent_queue_evaluat.Destroy.{Cleared, delete_nodes}
use concurrent_queue_evaluat.Machine.{Outcome, next, done, fault, Env, Machine}

pub record Node : Type 0 where
  pub value : Item  -- item
  pub next_node : Ptr  -- next
  pub retired_next : Ptr

-- `head_`, `tail_`, `retired_` and the nodes that `new` has returned
pub record Mem : Type 0 where
  pub nodes : Ptr → Option Node
  pub head : Ptr
  pub tail : Ptr
  pub retired : Ptr

abbrev pub store : Mem → Ptr → Node → Mem
store m p d = record m { nodes = update m.nodes p (some d) }

-- The places in `enqueue` (e), `dequeue` (d) and `retire` (r), each at an access, with the locals
-- that are live there: `node` is the new node, `first`, `last` and `after` the source's `head`,
-- `tail` and `next`.
pub data Pc : Type 0 where
  e1 : (value : Item) → Pc  -- `new Node(item)`
  e5 : (node : Ptr) → Pc  -- `tail_.load`
  e6 : (node last : Ptr) → Pc  -- `tail->next.load`
  e7 : (node last after : Ptr) → Pc  -- `tail != tail_.load`
  e9 : (node last after : Ptr) → Pc  -- `tail->next.compare_exchange_strong(next, node)`
  e13 : (node last after : Ptr) → Pc  -- `tail_.compare_exchange_strong(tail, next)`
  e17 : (node last : Ptr) → Pc  -- `tail_.compare_exchange_strong(tail, node)`
  d2 : Pc  -- `head_.load`
  d3 : (first : Ptr) → Pc  -- `tail_.load`
  d4 : (first last : Ptr) → Pc  -- `head->next.load`
  d5 : (first last after : Ptr) → Pc  -- `head != head_.load`
  d10 : (last after : Ptr) → Pc  -- `tail_.compare_exchange_strong(tail, next)`
  d12 : (first after : Ptr) → Pc  -- `next->item`
  d13 : (first after : Ptr) (value : Item) → Pc  -- `head_.compare_exchange_strong(head, next)`
  r1 : (first : Ptr) (value : Item) → Pc  -- `retired_.load`
  r2 : (first old : Ptr) (value : Item) → Pc  -- `node->retired_next.store`
  r3 : (first old : Ptr) (value : Item) → Pc  -- `retired_.compare_exchange_weak`

pub begin : Op → Pc
begin (enqueue x) = e1 x
begin dequeue = d2

-- `p->…`: a fault where `p` names no node
pub deref : Mem → Ptr → (Node → Outcome Mem Pc Answer) → Outcome Mem Pc Answer
deref m p k = elim (m.nodes p) [ none ↦ fault | some d ↦ k d ]

-- `tail_.compare_exchange_strong(last, to)`, whose result is not used
pub swing_tail : Mem → Ptr → Ptr → Mem
swing_tail m last to = if m.tail == last then record m { tail = to } else m

-- The accesses of `retire(node)`, after which `dequeue` returns `value`: the first load, the store and
-- the weak compare-exchange, which leads back to the store where it fails.
abbrev pub retire_load : Mem → (node : Ptr) → (value : Item) → Outcome Mem Pc Answer
retire_load m node value = next m (r2 node m.retired value)

abbrev pub retire_store : Mem → (node old_retired : Ptr) → (value : Item) → Outcome Mem Pc Answer
retire_store m node old_retired value =
    deref m node
      λ d. next (store m node (record d { retired_next = old_retired })) (r3 node old_retired value)

abbrev pub retire_swap :
    Env → Mem → (node old_retired : Ptr) → (value : Item) → Outcome Mem Pc Answer
retire_swap e m node old_retired value =
    if e.spurious
    then next m (r2 node m.retired value)
    else (if m.retired == old_retired
        then done (record m { retired = node }) (dequeued (some value))
        else next m (r2 node m.retired value))

unfoldable pub move : ℕ → Env → Mem → Pc → Outcome Mem Pc Answer
move self e m (e1 x) =
    next (store m e.fresh (record { value = x; next_node = null; retired_next = null }))
      (e5 e.fresh)
move self e m (e5 n) = next m (e6 n m.tail)
move self e m (e6 n last) = deref m last λ d. next m (e7 n last d.next_node)
move self e m (e7 n last after) =
    if last == m.tail
    then (if after == null then next m (e9 n last after) else next m (e13 n last after))
    else next m (e5 n)
move self e m (e9 n last after) = deref m last λ d.
    if d.next_node == after
    then next (store m last (record d { next_node = n })) (e17 n last)
    else next m (e5 n)
move self e m (e13 n last after) = next (swing_tail m last after) (e5 n)
move self e m (e17 n last) = done (swing_tail m last n) enqueued
move self e m d2 = next m (d3 m.head)
move self e m (d3 first) = next m (d4 first m.tail)
move self e m (d4 first last) = deref m first λ d. next m (d5 first last d.next_node)
move self e m (d5 first last after) =
    if first == m.head
    then (if after == null
        then done m (dequeued none)
        else (if first == last then next m (d10 last after) else next m (d12 first after)))
    else next m d2
move self e m (d10 last after) = next (swing_tail m last after) d2
move self e m (d12 first after) = deref m after λ d. next m (d13 first after d.value)
move self e m (d13 first after v) =
    if m.head == first then next (record m { head = after }) (r1 first v) else next m d2
move self e m (r1 first v) = retire_load m first v
move self e m (r2 first old v) = retire_store m first old v
move self e m (r3 first old v) = retire_swap e m first old v

abbrev pub machine : Machine Op Answer
machine = record {
  Mem = Mem;
  Pc = Pc;
  begin = begin;
  Unused = λ m p. m.nodes p ≡ none;
  move = move;
}

-- The constructor; `dummy` is the address of its node.
abbrev pub create : Ptr → Mem
create dummy = record {
  nodes =
      update (λ _. none) dummy
        (some (record { value = null; next_node = null; retired_next = null }));
  head = dummy;
  tail = dummy;
  retired = null;
}

-- `delete_chain`; a round of its loop deletes one node.
abbrev pub delete_chain : (rounds : ℕ) → Mem → (curr : Ptr) → Cleared Node
delete_chain rounds m curr = delete_nodes (λ d. d.next_node) rounds m.nodes curr
