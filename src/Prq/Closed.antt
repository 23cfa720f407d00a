-- ===== src/Prq/Closed.antt =====
-- The closing of a ring.
use concurrent_queue_evaluat.Base.{
  ℕ, ◌+◌, ◌^◌, ◌<◌, ◌≤◌, ◌≡◌, true, ◌||◌, leb, ltb, if◌then◌else◌, arith, Ptr,
}
use concurrent_queue_evaluat.Machine.{Env, System, Step, next}
use concurrent_queue_evaluat.Machine.Invariant
use concurrent_queue_evaluat.Machine.Invariant.{After}
use concurrent_queue_evaluat.Word.{add64, sub64, flag, flag-join, number}
use concurrent_queue_evaluat.Prq.{
  ring_size, starving_threshold, decode_tail_closed, close, gives_up, dispatch, Mem, Pc, move,
  machine, p1, p9, p10,
}

module _ (address : ℕ → Ptr) (m : Mem) where
  closed-add64 :
      decode_tail_closed m.tail ≡ true
      → m.tail + 1 < 2 ^ 64
      → decode_tail_closed (add64 m.tail 1) ≡ true
  unfolding add64 decode_tail_closed flag
  closed-add64 h lt = ground arith

  closed-close : (w : ℕ) → decode_tail_closed (close w) ≡ true
  unfolding decode_tail_closed close
  closed-close w = flag-join true (number w)

  After-move :
      (i : ℕ) (e : Env) (c : Pc)
      → decode_tail_closed m.tail ≡ true
      → m.tail + 1 < 2 ^ 64
      → After (machine address) (λ m'. decode_tail_closed m'.tail ≡ true) (move address i e m c)
  unfolding move dispatch
  After-move i e (p1 x it) h lt = ground (arith, closed-add64 h lt)
  After-move i e (p10 x) h lt = closed-close m.tail
  After-move i e _ h lt = ground arith

-- In a PRQ whose tail word is closed and has not come to its last value, no step of any thread opens
-- the ring again.
pub prq_stays_closed :
    (address : ℕ → Ptr) {s t : System (machine address)}
    → decode_tail_closed s.mem.tail ≡ true
    → s.mem.tail + 1 < 2 ^ 64
    → Step (machine address) s t
    → decode_tail_closed t.mem.tail ≡ true
prq_stays_closed address {s} h lt st =
    Invariant.After-Step (machine address) _ h (λ i e c at_c. After-move address s.mem i e c h lt)
      st

-- Where the ticket is below 2 ^ 64 and the head plus a ring's size is at most 2 ^ 64, an enqueuer of a
-- PRQ at its check of the ring closes it when the head has passed the ticket, however few items the
-- ring holds; otherwise it closes it exactly when a ring's size of tickets lies between, or it has
-- tried too often.
pub prq_closes_when :
    (address : ℕ → Ptr) (self : ℕ) (e : Env) (m : Mem) (item iteration t : ℕ)
    → t < 2 ^ 64
    → m.head + ring_size ≤ 2 ^ 64
    → move address self e m (p9 item iteration t) ≡ (
        if ltb t m.head || (leb (m.head + ring_size) t || ltb starving_threshold iteration)
        then next m (p10 item)
        else next m (p1 item (iteration + 1)))
unfolding move gives_up sub64
prq_closes_when address self e m item iteration t lt lh = ground arith
