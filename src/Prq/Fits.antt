-- ===== src/Prq/Fits.antt =====
-- The words of a ring fit into 64 bits, and a thread writes only epochs that it has compared.
use concurrent_queue_evaluat.Base.{ℕ, ◌/◌, ◌^◌, ◌<◌, ◌≤◌, arith, Ptr}
use concurrent_queue_evaluat.Fifo.{Op, enqueue, dequeue}
use concurrent_queue_evaluat.Machine.{Env, System, Reach}
use concurrent_queue_evaluat.Machine.Invariant
use concurrent_queue_evaluat.Machine.Invariant.{Ok, AllOk}
use concurrent_queue_evaluat.Word.{add64, number, join}
use concurrent_queue_evaluat.Prq.{
  ring_size, decode_cell_epoch, decode_tail_t, close, dispatch, Mem, Pc, begin, move, machine,
  create, p1, p2, p3, p4, p5, p6, p10, q1, q2, q3, q4, q6, q7, q8,
}

abbrev pub MemFits : Mem → Type 0
MemFits m = (m.head < 2 ^ 64) × (m.tail < 2 ^ 64)

abbrev pub PcFits : Pc → Type 0
PcFits (p2 x it t) = t < 2 ^ 63
PcFits (p3 x it t enc) = t < 2 ^ 63
PcFits (p4 x it t enc v) = (t < 2 ^ 63) × (decode_cell_epoch enc < t / ring_size)
PcFits (p5 x it t enc v) = (t < 2 ^ 63) × (decode_cell_epoch enc < t / ring_size)
PcFits (p6 x it t enc) = (t < 2 ^ 63) × (decode_cell_epoch enc < t / ring_size)
PcFits (q2 h) = h < 2 ^ 64
PcFits (q3 h enc) = h < 2 ^ 64
PcFits (q4 h enc v) = h < 2 ^ 64
PcFits (q6 h enc v) = (h < 2 ^ 64) × (decode_cell_epoch enc ≤ h / ring_size)
PcFits (q7 h enc) = (h < 2 ^ 64) × (decode_cell_epoch enc ≤ h / ring_size)
PcFits (q8 h enc) = h < 2 ^ 64
PcFits _ = Unit

close-lt : (w : ℕ) → close w < 2 ^ 64
unfolding close join
close-lt w = ground arith

add64-lt : (w k : ℕ) → add64 w k < 2 ^ 64
unfolding add64
add64-lt w k = omega arith

decode_tail_t-lt : (w : ℕ) → decode_tail_t w < 2 ^ 63
unfolding decode_tail_t number
decode_tail_t-lt w = omega arith

module _ (address : ℕ → Ptr) where
  begin-PcFits : (o : Op) → PcFits (begin o)
  unfolding begin
  begin-PcFits (enqueue x) = tt
  begin-PcFits dequeue = tt

  Fits-move :
      (i : ℕ) (e : Env) (m : Mem) (c : Pc)
      → MemFits m
      → PcFits c
      → Ok (machine address) MemFits PcFits (move address i e m c)
  unfolding move dispatch
  Fits-move i e m (p1 x it) f k = ground (arith, add64-lt m.tail 1, decode_tail_t-lt m.tail)
  Fits-move i e m (p10 x) f k = (f.0, close-lt m.tail)
  Fits-move i e m q1 f k = ground (arith, add64-lt m.head 1)
  Fits-move i e m _ f k = ground arith

  pub Fits-Reach :
      {s : System (machine address)}
      → Reach (machine address) create s
      → AllOk (machine address) MemFits PcFits s
  Fits-Reach r =
      Invariant.AllOk-Reach (machine address) MemFits PcFits begin-PcFits Fits-move (omega arith) r
