-- ===== src/Prq/Epochs.antt =====
-- The epochs of the cells of a ring.
use concurrent_queue_evaluat.Base.{ℕ, ◌/◌, ◌^◌, ◌<◌, ◌≤◌, ◌≡◌, Bool, true, false, arith, Ptr}
use concurrent_queue_evaluat.Machine.{Env, System, Step, Reach}
use concurrent_queue_evaluat.Machine.Invariant
use concurrent_queue_evaluat.Machine.Invariant.{After, at_place}
use concurrent_queue_evaluat.Word.{number, number-join}
use concurrent_queue_evaluat.Prq.{
  ring_size, decode_cell_epoch, decode_cell_safe, encode_cell_safe_epoch, dispatch, Mem, Pc, move,
  machine, create, p6, q7, q8,
}
use concurrent_queue_evaluat.Prq.Fits.{MemFits, PcFits, Fits-Reach}

decode-encode : (s : Bool) (n : ℕ) → n < 2 ^ 63 → decode_cell_epoch (encode_cell_safe_epoch s n) ≡ n
unfolding decode_cell_epoch encode_cell_safe_epoch
decode-encode s n h = omega (arith, number-join s n)

decode-lt : (w : ℕ) → decode_cell_epoch w < 2 ^ 63
unfolding decode_cell_epoch number
decode-lt w = omega arith

module _ (address : ℕ → Ptr) (k : ℕ) (i : ℕ) (e : Env) (m : Mem) where
  Grown : Mem → Type 0
  Grown m' =
      decode_cell_epoch (m.cells k).safe_and_epoch ≤ decode_cell_epoch (m'.cells k).safe_and_epoch

  After-move : (c : Pc) → PcFits c → After (machine address) Grown (move address i e m c)
  unfolding move dispatch Grown
  After-move (p6 x it t enc) f = ground (arith, decode-encode true (t / ring_size))
  After-move (q7 h enc) f = ground (arith, decode-encode (decode_cell_safe enc) (h / ring_size))
  After-move (q8 h enc) f =
      ground (arith, decode-encode false (decode_cell_epoch enc), decode-lt enc)
  After-move _ f = ground arith

-- In a reachable state of a PRQ, no step of any thread takes the epoch of a cell back.
pub prq_epochs_grow :
    (address : ℕ → Ptr) (k : ℕ) {s t : System (machine address)}
    → Reach (machine address) create s
    → Step (machine address) s t
    → decode_cell_epoch (s.mem.cells k).safe_and_epoch
      ≤ decode_cell_epoch (t.mem.cells k).safe_and_epoch
unfolding Grown
prq_epochs_grow address k {s} r st =
    let a = Fits-Reach address r in
    Invariant.After-Step (machine address)
      (Grown address k 0 (record { fresh = 0; spurious = false }) s.mem) (omega arith)
      (λ i e c at_c.
        After-move address k i e s.mem c (at_place (machine address) MemFits PcFits a at_c))
      st
