-- ===== src/Lcr/Tests.antt =====
-- The theorems of `LCRQueue` at a run.
use concurrent_queue_evaluat.Base.{◌≡◌, ◌≢◌, refl, some, none, Option, [], ◌∷◌, false, arith}
use concurrent_queue_evaluat.Fifo.{enqueue, dequeue}
use concurrent_queue_evaluat.Machine.{System, Reach, fault}
use concurrent_queue_evaluat.Machine.Schedule.{Run, run, go, check_none, calls}
use concurrent_queue_evaluat.Word
use concurrent_queue_evaluat.Crq
use concurrent_queue_evaluat.RingList
use concurrent_queue_evaluat.RingList.{Entry, d3}
use concurrent_queue_evaluat.Lcr
use concurrent_queue_evaluat.Lcr.{ring, machine, create}
use concurrent_queue_evaluat.Lcr.Lost.{demo}
use concurrent_queue_evaluat.Lcr.Rings.{lcr_ring-Reach, lcr_move-ne-fault}

-- Thread 1 waits before it looks for a successor of the first ring.
waiting : Run machine (λ m p. check_none (m.rings p)) (create 1)
unfolding run check_none
waiting =
    run machine (λ m p. check_none (m.rings p)) (create 1)
      (calls 0 (enqueue 9) ∷ go 3 0 (calls 1 dequeue ∷ go 9 1 []))

-- The second ring of the run.
abbrev second : Option (Entry ring) → Crq.Mem
second none = Crq.create
second (some r) = r.state

lcr_ring-Reach_example :
    (u : System Crq.machine) × Reach Crq.machine Crq.create u
    × (u.mem ≡ second (demo.last.mem.rings 9))
unfolding demo go RingList.move RingList.begin RingList.deref RingList.inside RingList.found
    Lcr.is_closed Lcr.value Crq.move Crq.begin Crq.decode_node_safe Crq.decode_tail_closed Word.flag
    Crq.decode_node_idx Word.number Crq.encode_node_safe_idx Word.join Crq.same_cell Crq.recode
    Crq.decode_tail_t Word.add64 Crq.gives_up Word.sub64 Crq.close
lcr_ring-Reach_example =
    lcr_ring-Reach 1 {s = demo.last} {p = 9}
      {r = record { state = second (demo.last.mem.rings 9); next_ring = 0 }} demo.reach refl

lcr_move-ne-fault_example :
    RingList.move ring false 1 (record { fresh = 8; spurious = false }) waiting.last.mem (d3 1)
    ≢ fault
unfolding waiting go RingList.move RingList.begin RingList.deref RingList.inside RingList.found
    Lcr.is_closed Lcr.value Crq.move Crq.begin Crq.decode_node_safe Crq.decode_tail_closed Word.flag
    Crq.decode_node_idx Word.number Crq.encode_node_safe_idx Word.join Crq.same_cell Crq.recode
    Crq.decode_tail_t Word.add64 Crq.gives_up Word.sub64 Crq.close
lcr_move-ne-fault_example =
    lcr_move-ne-fault 1 {s = waiting.last} 1 (record { fresh = 8; spurious = false }) waiting.reach
      refl (omega arith) refl
