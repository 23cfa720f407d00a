-- ===== src/Lcr.antt =====
-- `LCRQueue` of include/lcr_queue.hpp: the list of rings over `CRQ`.
pub mod Lost
pub mod Rings
mod Tests
use concurrent_queue_evaluat.Base.{Bool, true, false, Ptr}
use concurrent_queue_evaluat.Fifo.{Item, Op, Answer}
use concurrent_queue_evaluat.Machine.{Machine}
use concurrent_queue_evaluat.Crq
use concurrent_queue_evaluat.RingList
use concurrent_queue_evaluat.RingList.{RingClass}

-- `crq->enqueue(x) != CRQ::EnqueueResult::CLOSED`
unfoldable pub is_closed : Crq.Reply → Bool
is_closed (Crq.closed x) = true
is_closed _ = false

-- The value of `crq->dequeue()`
unfoldable pub value : Crq.Reply → Item
value (Crq.returned v) = v
value _ = 0

abbrev pub ring : RingClass
ring = record {
  Reply = Crq.Reply;
  machine = Crq.machine;
  create = Crq.create;
  is_closed = is_closed;
  value = value;
}

abbrev pub machine : Machine Op Answer
machine = RingList.machine ring false

abbrev pub create : Ptr → RingList.Mem ring
create first = RingList.create ring first
