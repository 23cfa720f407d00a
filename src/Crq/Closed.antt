-- ===== src/Crq/Closed.antt =====
-- The closing of a ring.
use concurrent_queue_evaluat.Base.{
  ℕ, ◌+◌, ◌^◌, ◌<◌, ◌≤◌, ◌≡◌, true, leb, ltb, if◌then◌else◌, ◌||◌, arith,
}
use concurrent_queue_evaluat.Machine.{next, Env, System, Step, Reach}
use concurrent_queue_evaluat.Machine.Invariant
use concurrent_queue_evaluat.Machine.Invariant.{Ok, AllOk, After, at_place}
use concurrent_queue_evaluat.Fifo.{Op, enqueue, dequeue}
use concurrent_queue_evaluat.Word.{add64, sub64, flag, flag-join, number, join}
use concurrent_queue_evaluat.Crq.{
  ring_size, starving_threshold, decode_tail_closed, gives_up, close, Mem, Pc, begin, move, machine,
  create, p1, p6, p7, q1, f2, f3, f4,
}

-- The words fit into 64 bits, and `fixState` only moves the tail up.
abbrev PcFits : Pc → Type 0
PcFits (f2 h) = h < 2 ^ 64
PcFits (f3 h t) = h < 2 ^ 64
PcFits (f4 h t) = (h < 2 ^ 64) × (t < h)
PcFits _ = Unit

abbrev MemFits : Mem → Type 0
MemFits m = (m.head < 2 ^ 64) × (m.tail < 2 ^ 64)

close-lt : (w : ℕ) → close w < 2 ^ 64
unfolding close join
close-lt w = ground arith

add64-lt : (w k : ℕ) → add64 w k < 2 ^ 64
unfolding add64
add64-lt w k = omega arith

module _ (self : ℕ) (e : Env) (m : Mem) (fit : MemFits m) where
  Fits-move : (c : Pc) → PcFits c → Ok machine MemFits PcFits (move self e m c)
  unfolding move
  Fits-move (p1 arg it) k = ground (arith, add64-lt m.tail 1)
  Fits-move (p7 arg) k = (fit.0, close-lt m.tail)
  Fits-move q1 k = ground (arith, add64-lt m.head 1)
  Fits-move _ k = ground arith

  closed_up :
      (w v : ℕ) → decode_tail_closed w ≡ true → w ≤ v → v < 2 ^ 64 → decode_tail_closed v ≡ true
  unfolding decode_tail_closed flag
  closed_up w v h le lt = ground arith

  closed-add64 :
      decode_tail_closed m.tail ≡ true
      → m.tail + 1 < 2 ^ 64
      → decode_tail_closed (add64 m.tail 1) ≡ true
  unfolding add64
  closed-add64 h lt = closed_up m.tail _ h (omega arith) (omega arith)

  closed-close : (w : ℕ) → decode_tail_closed (close w) ≡ true
  unfolding decode_tail_closed close
  closed-close w = flag-join true (number w)

  After-move :
      (c : Pc)
      → PcFits c
      → decode_tail_closed m.tail ≡ true
      → m.tail + 1 < 2 ^ 64
      → After machine (λ m'. decode_tail_closed m'.tail ≡ true) (move self e m c)
  unfolding move
  After-move (p1 arg it) k h lt = ground (arith, closed-add64 h lt)
  After-move (p7 arg) k h lt = closed-close m.tail
  After-move (f4 w t) k h lt = ground (arith, closed_up m.tail w)
  After-move _ k h lt = ground arith

begin-PcFits : (o : Op) → PcFits (begin o)
unfolding begin
begin-PcFits (enqueue x) = tt
begin-PcFits dequeue = tt

Fits-Reach : {s : System machine} → Reach machine create s → AllOk machine MemFits PcFits s
Fits-Reach r =
    Invariant.AllOk-Reach machine MemFits PcFits begin-PcFits (λ i e m c f k. Fits-move i e m f c k)
      (omega arith) r

-- In a reachable state of a CRQ whose tail word is closed and has not come to its last value, no
-- step of any thread opens the ring again.
pub crq_stays_closed :
    {s t : System machine}
    → Reach machine create s
    → decode_tail_closed s.mem.tail ≡ true
    → s.mem.tail + 1 < 2 ^ 64
    → Step machine s t
    → decode_tail_closed t.mem.tail ≡ true
crq_stays_closed {s} r h lt st =
    let a = Fits-Reach r in
    Invariant.After-Step machine _ h
      (λ i e c at_c. After-move i e s.mem a.memory c (at_place machine MemFits PcFits a at_c) h lt)
      st

-- Where the ticket is below 2 ^ 64 and the head plus a ring's size is at most 2 ^ 64, an enqueuer of a
-- CRQ at its check of the ring closes it when the head has passed the ticket, however few items the
-- ring holds; otherwise it closes it exactly when a ring's size of tickets lies between, or it has
-- tried too often.
pub crq_closes_when :
    (self : ℕ) (e : Env) (m : Mem) (arg iteration t : ℕ)
    → t < 2 ^ 64
    → m.head + ring_size ≤ 2 ^ 64
    → move self e m (p6 arg iteration t) ≡ (
        if ltb t m.head || (leb (m.head + ring_size) t || ltb starving_threshold iteration)
        then next m (p7 arg)
        else next m (p1 arg (iteration + 1)))
unfolding move gives_up sub64
crq_closes_when self e m arg iteration t lt lh = ground arith
