-- ===== src/Ms.antt =====
-- include/ms_queue.hpp: the queue of Michael and Scott. Each access to memory that threads share is
-- one step; a node is allocated and filled in one step, before any other thread can reach it.
pub mod Knowledge
pub mod Swing
pub mod Enqueue
pub mod Dequeue
pub mod Linearizable
pub mod Alone
mod Tests
use concurrent_queue_evaluat.Base.{
  ℕ, ◌+◌, ◌%◌, ◌^◌, ◌≡◌, Bool, ◌&&◌, Option, none, some, Ptr, null, ◌==◌, if◌then◌else◌, update,
}
use concurrent_queue_evaluat.Fifo.{Item, Op, enqueue, dequeue, Answer, enqueued, dequeued}
use concurrent_queue_evaluat.Machine.{Outcome, next, done, fault, Env, Machine}

-- `struct pointer_t`, read and written as one 16-byte word
pub record Pointer : Type 0 where
  pub ptr : Ptr
  pub count : ℕ  -- unsigned int

-- `pointer_t::operator==`
pub same : Pointer → Pointer → Bool
same a b = a.ptr == b.ptr && a.count == b.count

-- `count + 1` in an unsigned int
pub bump : ℕ → ℕ
bump c = (c + 1) % 2 ^ 32

abbrev pub pointer : Ptr → ℕ → Pointer
pointer p c = record { ptr = p; count = c }

pub record Node : Type 0 where
  pub value : Item
  pub next_node : Pointer

-- `Head`, `Tail` and the nodes that `new` has returned
pub record Mem : Type 0 where
  pub nodes : Ptr → Option Node
  pub head : Pointer
  pub tail : Pointer

abbrev pub store : Mem → Ptr → Node → Mem
store m p d = record m { nodes = update m.nodes p (some d) }

-- The places in `enqueue` (E) and `dequeue` (D), by the labels of the source, with the locals that
-- are live there. `node` is the new node; `last` and `after` are the source's `tail` and `next`.
pub data Pc : Type 0 where
  e1 : (value : Item) → Pc
  e5 : (node : Ptr) → Pc
  e6 : (node : Ptr) (last : Pointer) → Pc
  e7 : (node : Ptr) (last after : Pointer) → Pc
  e9 : (node : Ptr) (last after : Pointer) → Pc
  e13 : (node : Ptr) (last after : Pointer) → Pc
  e17 : (node : Ptr) (last : Pointer) → Pc
  d2 : Pc
  d3 : (first : Pointer) → Pc
  d4 : (first last : Pointer) → Pc
  d5 : (first last after : Pointer) → Pc
  d10 : (last after : Pointer) → Pc
  d12 : (first after : Pointer) → Pc
  d13 : (first after : Pointer) (value : Item) → Pc

pub begin : Op → Pc
begin (enqueue x) = e1 x
begin dequeue = d2

-- `p->…`: a fault where `p` names no node
pub deref : Mem → Ptr → (Node → Outcome Mem Pc Answer) → Outcome Mem Pc Answer
deref m p k = elim (m.nodes p) [ none ↦ fault | some d ↦ k d ]

-- `Tail.compare_exchange_strong(last, {to, last.count + 1})`, whose result is not used
pub swing_tail : Mem → Pointer → Ptr → Mem
swing_tail m last to =
    if same m.tail last then record m { tail = pointer to (bump last.count) } else m

unfoldable pub move : ℕ → Env → Mem → Pc → Outcome Mem Pc Answer
move self e m (e1 x) =
    next (store m e.fresh (record { value = x; next_node = pointer null 0 })) (e5 e.fresh)
move self e m (e5 n) = next m (e6 n m.tail)
move self e m (e6 n last) = deref m last.ptr λ d. next m (e7 n last d.next_node)
move self e m (e7 n last after) =
    if same last m.tail
    then (if after.ptr == null then next m (e9 n last after) else next m (e13 n last after))
    else next m (e5 n)
move self e m (e9 n last after) = deref m last.ptr λ d.
    if same d.next_node after
    then next (store m last.ptr (record d { next_node = pointer n (bump after.count) }))
        (e17 n last)
    else next m (e5 n)
move self e m (e13 n last after) = next (swing_tail m last after.ptr) (e5 n)
move self e m (e17 n last) = done (swing_tail m last n) enqueued
move self e m d2 = next m (d3 m.head)
move self e m (d3 first) = next m (d4 first m.tail)
move self e m (d4 first last) = deref m first.ptr λ d. next m (d5 first last d.next_node)
move self e m (d5 first last after) =
    if same first m.head
    then (if first.ptr == last.ptr
        then (if after.ptr == null then done m (dequeued none) else next m (d10 last after))
        else next m (d12 first after))
    else next m d2
move self e m (d10 last after) = next (swing_tail m last after.ptr) d2
move self e m (d12 first after) = deref m after.ptr λ d. next m (d13 first after d.value)
move self e m (d13 first after v) =
    if same m.head first
    then done (record m { head = pointer after.ptr (bump first.count) }) (dequeued (some v))
    else next m d2

abbrev pub machine : Machine Op Answer
machine = record {
  Mem = Mem;
  Pc = Pc;
  begin = begin;
  Unused = λ m p. m.nodes p ≡ none;
  move = move;
}

-- The constructor; `dummy` is the address of its node.
abbrev pub create : Ptr → Mem
create dummy = record {
  nodes = update (λ _. none) dummy (some (record { value = null; next_node = pointer null 0 }));
  head = pointer dummy 0;
  tail = pointer dummy 0;
}
