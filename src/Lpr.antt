-- ===== src/Lpr.antt =====
-- `LPRQueue` of include/lpr_queue.hpp: the list of rings over `PRQ`.
pub mod Rings
mod Tests
use concurrent_queue_evaluat.Base.{ℕ, Bool, true, false, Ptr}
use concurrent_queue_evaluat.Fifo.{Item, Op, Answer}
use concurrent_queue_evaluat.Machine.{Machine}
use concurrent_queue_evaluat.Prq
use concurrent_queue_evaluat.RingList
use concurrent_queue_evaluat.RingList.{RingClass}

-- `prq->enqueue(x) != PRQ::EnqueueResult::CLOSED`
unfoldable pub is_closed : Prq.Reply → Bool
is_closed (Prq.closed x) = true
is_closed _ = false

-- The value of `prq->dequeue()`
unfoldable pub value : Prq.Reply → Item
value (Prq.returned v) = v
value _ = 0

-- `address` is where each thread has its `thread_local char`.
abbrev pub ring : (address : ℕ → Ptr) → RingClass
ring address = record {
  Reply = Prq.Reply;
  machine = Prq.machine address;
  create = Prq.create;
  is_closed = is_closed;
  value = value;
}

abbrev pub machine : (ℕ → Ptr) → Machine Op Answer
machine address = RingList.machine (ring address) true

abbrev pub create : (address : ℕ → Ptr) → Ptr → RingList.Mem (ring address)
create address first = RingList.create (ring address) first
