-- ===== src/Ms/Alone.antt =====
-- A call of ms_queue.hpp by a thread that moves while the other threads pause.
mod Enqueue
mod Dequeue
use concurrent_queue_evaluat.Base.{ℕ, ◌≤◌, ◌≡◌, ◌≢◌, some, none, Ptr, null, arith}
use concurrent_queue_evaluat.Fifo.{Phase, adding}
use concurrent_queue_evaluat.Machine.{Env, System, Reach}
use concurrent_queue_evaluat.Machine.Simulation.Linearized
use concurrent_queue_evaluat.Machine.Alone.{Within, Within-le}
use concurrent_queue_evaluat.Chain.{Chain}
use concurrent_queue_evaluat.Ms.{
  Mem, Pc, machine, create, e1, e5, e6, e7, e9, e13, e17, d2, d3, d4, d5, d10, d12, d13,
}
use concurrent_queue_evaluat.Ms.Knowledge.{Inv, Local, view}
use concurrent_queue_evaluat.Ms.Linearizable.{linearization}
use Enqueue.{Ends-e1, Ends-e5, Ends-e6, Ends-e7, Ends-e9, Ends-e13, Ends-e17}
use Dequeue.{Ends-d2, Ends-d3, Ends-d4, Ends-d5, Ends-d10, Ends-d12, Ends-d13}

module _ (i : ℕ) (e : Env) (g : Chain) (m : Mem) (p : Phase) (v : Inv g m) where
  within : {n : ℕ} {c : Pc} → n ≤ 16 → Within machine i e n m c → Within machine i e 16 m c
  within h w = Within-le machine i e 16 h w

  ends :
      (c : Pc)
      → Local g m i c p
      → e.fresh ≢ null
      → m.nodes e.fresh ≡ none
      → Within machine i e 16 m c
  ends (e1 x) h nn un = within (omega arith) (Ends-e1 i e m v x nn un)
  ends (e5 n) h nn un = within (omega arith) (Ends-e5 i e m v n)
  ends (e6 n l) (k, a, t) nn un = within (omega arith) (Ends-e6 i e m v n l k t)
  ends (e7 n l o) (k, a, t, s) nn un = within (omega arith) (Ends-e7 i e m v n l o k t s)
  ends (e9 n l o) (k, a, t, z) nn un = within (omega arith) (Ends-e9 i e m v n l o k t)
  ends (e13 n l o) (k, a, t, s) nn un = within (omega arith) (Ends-e13 i e m v n l o k t s)
  ends (e17 n l) h nn un = within (omega arith) (Ends-e17 i e m n l)
  ends d2 h nn un = within (omega arith) (Ends-d2 i e m v)
  ends (d3 f) (k, r, h) nn un = Ends-d3 i e m v f k h
  ends (d4 f l) (k, j, r, w) nn un = within (omega arith) (Ends-d4 i e m v f l k j w)
  ends (d5 f l o) (k, j, r, w, s, z, b) nn un =
      within (omega arith) (Ends-d5 i e m v f l o k j w s b)
  ends (d10 l o) (j, r, t, s) nn un = within (omega arith) (Ends-d10 i e m v l o j t s)
  ends (d12 f o) (k, r, h, s, b) nn un = within (omega arith) (Ends-d12 i e m v f o _ s)
  ends (d13 f o x) h nn un = within (omega arith) (Ends-d13 i e m v f o x)

-- In every reachable state of an MSQueue, wherever the other threads have stopped, a thread in a
-- call that moves alone returns after at most 16 accesses.
pub ms_returns_alone :
    (dummy : Ptr) {s : System machine} {c : Pc} (i : ℕ) (e : Env)
    → dummy ≢ null
    → Reach machine (create dummy) s
    → s.thread i ≡ some c
    → e.fresh ≢ null
    → s.mem.nodes e.fresh ≡ none
    → Within machine i e 16 s.mem c
ms_returns_alone dummy {s} {c} i e nn r at_c fresh unused =
    let (g, p, v, h) = Linearized.knowledge machine view (linearization dummy nn) i r at_c in
    ends i e g s.mem p v c h fresh unused
