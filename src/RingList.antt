-- ===== src/RingList.antt =====
-- The lists of rings of include/lcr_queue.hpp (`LCRQueue`) and include/lpr_queue.hpp (`LPRQueue`).
-- The two classes are the same code over their ring classes, but for one call: where a ring was empty
-- and has a successor, `LPRQueue` calls `dequeue` on it once more before it moves the head. Each
-- access to memory that threads share is one step.
pub mod Knowledge
pub mod Moves
pub mod Calls
pub mod Changes
pub mod Linking
pub mod Accesses
pub mod Enqueue
pub mod Dequeue
pub mod Linked
use concurrent_queue_evaluat.Base.{
  ℕ, ◌≡◌, Bool, Option, none, some, Ptr, null, ◌==◌, if◌then◌else◌, update,
}
use concurrent_queue_evaluat.Fifo.{Item, Op, enqueue, dequeue, Answer, enqueued, dequeued}
use concurrent_queue_evaluat.Machine.{Outcome, next, done, blocked, fault, Env, Machine}

-- What a list uses of its rings: the calls, the state that the constructor makes, whether a call of
-- `enqueue` has returned CLOSED, and the value that a call of `dequeue` has returned (0 for EMPTY).
pub record RingClass : Type 1 where
  pub Reply : Type 0
  pub machine : Machine Op Reply
  pub create : machine.Mem
  pub is_closed : Reply → Bool
  pub value : Reply → Item

module _ (ring : RingClass) where
  pub record Entry : Type 0 where
    pub state : ring.machine.Mem
    pub next_ring : Ptr  -- next

  -- `_head`, `_tail` and the rings that `new` has returned and `delete` has not taken back
  pub record Mem : Type 0 where
    pub rings : Ptr → Option Entry
    pub head : Ptr
    pub tail : Ptr

  -- The places in `enqueue` (e) and `dequeue` (d), each at an access, with the locals that are live
  -- there; `at` is the place inside the call of a ring.
  pub data Pc : Type 0 where
    e1 : (x : Item) → Pc  -- `crq = _tail`
    e2 : (x : Item) (crq : Ptr) → Pc  -- `crq->next != nullptr`
    e3 : (x : Item) (crq : Ptr) → Pc  -- the second load of `crq->next`
    e4 : (x : Item) (crq after : Ptr) → Pc  -- `_tail.compare_exchange_strong(crq, crq->next)`
    e5 : (x : Item) (crq : Ptr) (at : ring.machine.Pc) → Pc  -- in `crq->enqueue(x)`
    e6 : (x : Item) (crq : Ptr) → Pc  -- `new CRQ()`
    e7 : (x : Item) (crq newcrq : Ptr) (at : ring.machine.Pc) → Pc  -- in `newcrq->enqueue(x)`
    e8 : (x : Item) (crq newcrq : Ptr) → Pc  -- `crq->next.compare_exchange_strong`
    e9 : (crq newcrq : Ptr) → Pc  -- `_tail.compare_exchange_strong(crq, newcrq)`
    e10 : (x : Item) (newcrq : Ptr) → Pc  -- `delete newcrq`
    d1 : Pc  -- `crq = _head`
    d2 : (crq : Ptr) (at : ring.machine.Pc) → Pc  -- in `crq->dequeue()`
    d3 : (crq : Ptr) → Pc  -- `next = crq->next`
    d4 : (crq after : Ptr) (at : ring.machine.Pc) → Pc  -- in the second `prq->dequeue()`
    d5 : (crq after : Ptr) → Pc  -- `_head.compare_exchange_strong(crq, next)`

  unfoldable pub begin : Op → Pc
  begin (enqueue x) = e1 x
  begin dequeue = d1

  abbrev pub set_state : Mem → Ptr → Entry → ring.machine.Mem → Mem
  set_state m p r state = record m { rings = update m.rings p (some (record r { state = state })) }

  -- `p->…`: a fault where `p` names no ring
  unfoldable pub deref : Mem → Ptr → (Entry → Outcome Mem Pc Answer) → Outcome Mem Pc Answer
  deref m p k = elim (m.rings p) [ none ↦ fault | some r ↦ k r ]

  -- One access of the ring at `p`: the call goes on at `goes`, or returns to `ends`.
  unfoldable pub inside :
      Mem
      → Ptr
      → Entry
      → (ring.machine.Pc → Pc)
      → (Mem → ring.Reply → Outcome Mem Pc Answer)
      → Outcome ring.machine.Mem ring.machine.Pc ring.Reply
      → Outcome Mem Pc Answer
  inside m p r goes ends (next state c) = next (set_state m p r state) (goes c)
  inside m p r goes ends (done state reply) = ends (set_state m p r state) reply
  inside m p r goes ends blocked = blocked
  inside m p r goes ends fault = fault

  -- What `dequeue` does with the value `v` that a ring has returned.
  unfoldable pub found : Item → Pc → Mem → Outcome Mem Pc Answer
  found v empty m = if v == 0 then next m empty else done m (dequeued (some v))

  -- `again` is whether a ring with a successor is tried once more.
  unfoldable pub move : (again : Bool) → ℕ → Env → Mem → Pc → Outcome Mem Pc Answer
  move again self e m (e1 x) = next m (e2 x m.tail)
  move again self e m (e2 x crq) = deref m crq λ r.
      if r.next_ring == null
      then next m (e5 x crq (ring.machine.begin (enqueue x)))
      else next m (e3 x crq)
  move again self e m (e3 x crq) = deref m crq λ r. next m (e4 x crq r.next_ring)
  move again self e m (e4 x crq after) =
      next (if m.tail == crq then record m { tail = after } else m) (e1 x)
  move again self e m (e5 x crq at) = deref m crq λ r.
      inside m crq r (λ c. e5 x crq c)
        (λ m' reply. if ring.is_closed reply then next m' (e6 x crq) else done m' enqueued)
        (ring.machine.move self e r.state at)
  move again self e m (e6 x crq) =
      next
        (record m {
          rings = update m.rings e.fresh (some (record { state = ring.create; next_ring = null }));
        })
        (e7 x crq e.fresh (ring.machine.begin (enqueue x)))
  move again self e m (e7 x crq newcrq at) = deref m newcrq λ r.
      inside m newcrq r (λ c. e7 x crq newcrq c) (λ m' reply. next m' (e8 x crq newcrq))
        (ring.machine.move self e r.state at)
  move again self e m (e8 x crq newcrq) = deref m crq λ r.
      if r.next_ring == null
      then next (record m { rings = update m.rings crq (some (record r { next_ring = newcrq })) })
          (e9 crq newcrq)
      else next m (e10 x newcrq)
  move again self e m (e9 crq newcrq) =
      done (if m.tail == crq then record m { tail = newcrq } else m) enqueued
  move again self e m (e10 x newcrq) =
      deref m newcrq λ _. next (record m { rings = update m.rings newcrq none }) (e1 x)
  move again self e m d1 = next m (d2 m.head (ring.machine.begin dequeue))
  move again self e m (d2 crq at) = deref m crq λ r.
      inside m crq r (λ c. d2 crq c) (λ m' reply. found (ring.value reply) (d3 crq) m')
        (ring.machine.move self e r.state at)
  move again self e m (d3 crq) = deref m crq λ r.
      if r.next_ring == null
      then done m (dequeued none)
      else (if again
          then next m (d4 crq r.next_ring (ring.machine.begin dequeue))
          else next m (d5 crq r.next_ring))
  move again self e m (d4 crq after at) = deref m crq λ r.
      inside m crq r (λ c. d4 crq after c) (λ m' reply. found (ring.value reply) (d5 crq after) m')
        (ring.machine.move self e r.state at)
  move again self e m (d5 crq after) =
      next (if m.head == crq then record m { head = after } else m) d1

  abbrev pub machine : Bool → Machine Op Answer
  machine again = record {
    Mem = Mem;
    Pc = Pc;
    begin = begin;
    Unused = λ m p. m.rings p ≡ none;
    move = move again;
  }

  -- The constructor; `first` is the address of its ring.
  abbrev pub create : Ptr → Mem
  create first = record {
    rings = update (λ _. none) first (some (record { state = ring.create; next_ring = null }));
    head = first;
    tail = first;
  }
