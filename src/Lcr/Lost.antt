-- ===== src/Lcr/Lost.antt =====
-- `LCRQueue` against the atomic queue, at one run.
use concurrent_queue_evaluat.Base.{◌≡◌, ◌≢◌, ◌∙◌, refl, Ptr, null, arith, none, some, List, [], ◌∷◌}
use concurrent_queue_evaluat.Fifo.{
  Op, enqueue, dequeue, Answer, enqueued, dequeued, Event, Atomic, AtomicReach,
}
use concurrent_queue_evaluat.Fifo.Kept.{last_call, pending, taken}
use concurrent_queue_evaluat.Fifo.Refused.{refused-taken}
use concurrent_queue_evaluat.Machine.{System, Reach}
use concurrent_queue_evaluat.Machine.Schedule.{Run, go, check_none, run, Turn, calls, goes}
use concurrent_queue_evaluat.Word
use concurrent_queue_evaluat.Crq
use concurrent_queue_evaluat.RingList
use concurrent_queue_evaluat.Lcr
use concurrent_queue_evaluat.Lcr.{machine, create}

-- Thread 0 has ticket 0 of the first ring for its item 9 and waits. Thread 1 finds the ring empty and
-- waits before it looks for a successor. Thread 2 puts 7 into the ring. Thread 0 goes on, closes the
-- ring, and puts 9 into a second ring. Thread 1 moves the head to the second ring, and takes 9.
-- Thread 3 finds the queue empty.
abbrev turns : List (Turn Op)
turns =
    calls 0 (enqueue 9)
    ∷ go 3 0 (
        calls 1 dequeue
        ∷ go 9 1 (
            calls 2 (enqueue 7)
            ∷ go 6 2 (go 4 0 (goes 0 9 ∷ go 6 0 (go 7 1 (calls 3 dequeue ∷ go 11 3 []))))))

unfoldable pub demo : Run machine (λ m p. check_none (m.rings p)) (create 1)
unfolding run check_none
demo = run machine (λ m p. check_none (m.rings p)) (create 1) turns

abbrev lost : List (Event Op Answer)
lost =
    Event.return 3 (dequeued none)
    ∷ Event.call 3 dequeue
    ∷ Event.return 1 (dequeued (some 9))
    ∷ Event.return 0 enqueued
    ∷ Event.return 2 enqueued
    ∷ Event.call 2 (enqueue 7)
    ∷ Event.call 1 dequeue
    ∷ Event.call 0 (enqueue 9)
    ∷ []

demo_history : demo.last.history ≡ lost
unfolding demo go RingList.move RingList.begin RingList.deref RingList.inside RingList.found
    Lcr.is_closed Lcr.value Crq.move Crq.begin Crq.decode_node_safe Crq.decode_tail_closed Word.flag
    Crq.decode_node_idx Word.number Crq.encode_node_safe_idx Word.join Crq.same_cell Crq.recode
    Crq.decode_tail_t Word.add64 Crq.gives_up Word.sub64 Crq.close
demo_history = refl

-- LCRQueue is not linearizable: there are interleavings of calls whose calls and returns are those of
-- no run of the atomic FIFO queue, since an item whose call of `enqueue` has returned is in no ring
-- that `dequeue` comes to.
pub lcr_loses_items : ¬ (
    (first : Ptr) (s : System machine)
    → first ≢ null
    → Reach machine (create first) s
    → (a : Atomic) × AtomicReach a × (a.history ≡ s.history))
unfolding last_call pending taken
lcr_loses_items claim =
    let (a, r, same) = claim 1 demo.last (omega arith) demo.reach in
    let kept =
      refused-taken 3 2 7 _ refl (omega arith) (λ j. ground arith) r (same ∙ demo_history) in
    absurd (cc)
