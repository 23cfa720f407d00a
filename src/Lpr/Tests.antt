-- ===== src/Lpr/Tests.antt =====
-- A run of `LPRQueue`, and its theorems at it.
use concurrent_queue_evaluat.Base.{
  ℕ, ◌+◌, ◌*◌, ◌≡◌, ◌≢◌, refl, Option, some, none, List, [], ◌∷◌, true, false, arith, Ptr,
}
use concurrent_queue_evaluat.Fifo.{Op, enqueue, dequeue, enqueued, dequeued, Event}
use concurrent_queue_evaluat.Machine.{System, Reach, fault}
use concurrent_queue_evaluat.Machine.Schedule.{Run, check_none, go, run, Turn, calls, goes}
use concurrent_queue_evaluat.Word
use concurrent_queue_evaluat.Prq
use concurrent_queue_evaluat.RingList
use concurrent_queue_evaluat.RingList.{Entry, d3}
use concurrent_queue_evaluat.Lpr
use concurrent_queue_evaluat.Lpr.{ring, machine, create}
use concurrent_queue_evaluat.Lpr.Rings.{lpr_ring-Reach, lpr_move-ne-fault}

abbrev address : ℕ → Ptr
address i = 4096 + 64 * i

-- Thread 0 has a ticket of the first ring and waits. Thread 1 finds the ring empty and waits before
-- it looks for a successor. Thread 2 puts 6 into the ring. Thread 0 closes the ring, and puts 8 into
-- a second one. Thread 1 tries the first ring again and takes 6.
abbrev turns : List (Turn Op)
turns =
    calls 0 (enqueue 8)
    ∷ go 3 0 (
        calls 1 dequeue
        ∷ go 7 1 (
            calls 2 (enqueue 6)
            ∷ go 8 2 (go 4 0 (goes 0 9 ∷ go 8 0 (go 6 1 (calls 1 dequeue ∷ go 1 1 []))))))

demo : Run (machine address) (λ m p. check_none (m.rings p)) (create address 1)
unfolding run check_none
demo = run (machine address) (λ m p. check_none (m.rings p)) (create address 1) turns

demo_history :
    demo.last.history
    ≡ Event.call 1 dequeue
      ∷ Event.return 1 (dequeued (some 6))
      ∷ Event.return 0 enqueued
      ∷ Event.return 2 enqueued
      ∷ Event.call 2 (enqueue 6)
      ∷ Event.call 1 dequeue
      ∷ Event.call 0 (enqueue 8)
      ∷ []
unfolding demo go RingList.move RingList.begin RingList.deref RingList.inside RingList.found
    Lpr.is_closed Lpr.value Prq.move Prq.begin Prq.decode_cell_safe Prq.decode_tail_closed Word.flag
    Prq.decode_cell_epoch Word.number Prq.encode_cell_safe_epoch Word.join Prq.is_token Prq.is_free
    Prq.thread_token Prq.decode_tail_t Word.add64 Prq.gives_up Word.sub64 Prq.close Prq.dispatch
demo_history = refl

-- The second ring of the run.
abbrev second : Option (Entry (ring address)) → Prq.Mem
second none = Prq.create
second (some r) = r.state

lpr_ring-Reach_example :
    (u : System (Prq.machine address)) × Reach (Prq.machine address) Prq.create u
    × (u.mem ≡ second (demo.last.mem.rings 9))
unfolding demo go RingList.move RingList.begin RingList.deref RingList.inside RingList.found
    Lpr.is_closed Lpr.value Prq.move Prq.begin Prq.decode_cell_safe Prq.decode_tail_closed Word.flag
    Prq.decode_cell_epoch Word.number Prq.encode_cell_safe_epoch Word.join Prq.is_token Prq.is_free
    Prq.thread_token Prq.decode_tail_t Word.add64 Prq.gives_up Word.sub64 Prq.close Prq.dispatch
lpr_ring-Reach_example =
    lpr_ring-Reach address 1 {s = demo.last} {p = 9}
      {r = record { state = second (demo.last.mem.rings 9); next_ring = 0 }} demo.reach refl

-- Thread 1 waits before it looks for a successor of the first ring.
waiting : Run (machine address) (λ m p. check_none (m.rings p)) (create address 1)
unfolding run check_none
waiting =
    run (machine address) (λ m p. check_none (m.rings p)) (create address 1)
      (calls 0 (enqueue 8) ∷ go 3 0 (calls 1 dequeue ∷ go 7 1 []))

lpr_move-ne-fault_example :
    RingList.move
      (ring address)
      true
      1
      (record { fresh = 8; spurious = false })
      waiting.last.mem
      (d3 1)
    ≢ fault
unfolding waiting go RingList.move RingList.begin RingList.deref RingList.inside RingList.found
    Lpr.is_closed Lpr.value Prq.move Prq.begin Prq.decode_cell_safe Prq.decode_tail_closed Word.flag
    Prq.decode_cell_epoch Word.number Prq.encode_cell_safe_epoch Word.join Prq.is_token Prq.is_free
    Prq.thread_token Prq.decode_tail_t Word.add64 Prq.gives_up Word.sub64 Prq.close Prq.dispatch
lpr_move-ne-fault_example =
    lpr_move-ne-fault address 1 {s = waiting.last} 1 (record { fresh = 8; spurious = false })
      waiting.reach refl (omega arith) refl
