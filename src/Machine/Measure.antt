-- ===== src/Machine/Measure.antt =====
-- A thread that moves alone gets nearer to its return with each access.
use concurrent_queue_evaluat.Base.{ℕ, zero, suc, ◌<◌, ◌≡◌, refl, arith}
use concurrent_queue_evaluat.Fifo.{Op, Answer, Phase}
use concurrent_queue_evaluat.Machine.{Outcome, next, done, blocked, fault, Env, Machine}
use concurrent_queue_evaluat.Machine.Simulation.{View, Good, goes}
use concurrent_queue_evaluat.Machine.Alone.{Within}

-- `left` bounds the accesses that follow the one at a place. `Ready` is what keeps a thread from
-- waiting.
module _ (q : Machine Op Answer) (v : View q) (i : ℕ) (e : Env) (left : q.Pc → ℕ)
    (Ready : q.Mem → q.Pc → Type 0) where
  abbrev pub Falls : ℕ → Outcome q.Mem q.Pc Answer → Type 0
  Falls n (next m' c') = (left c' < n) × Ready m' c'
  Falls n (done m' r) = Unit
  Falls n blocked = ⊥
  Falls n fault = Unit

  module _
      (good : (g : v.Ghost) (m : q.Mem) (c : q.Pc) (p : Phase)
        → v.Inv g m
        → v.Local g m i c p
        → Ready m c
        → Good q v g m i p (q.move i e m c))
      (falls : (m : q.Mem) (c : q.Pc) → Ready m c → Falls (left c) (q.move i e m c)) where
    by_outcome :
        (n : ℕ) {g : v.Ghost} {m : q.Mem} {c : q.Pc} {p : Phase} (o : Outcome q.Mem q.Pc Answer)
        → ((g' : v.Ghost) (m' : q.Mem) (c' : q.Pc) (p' : Phase)
            → left c' < n
            → v.Inv g' m'
            → v.Local g' m' i c' p'
            → Ready m' c'
            → Within q i e n m' c')
        → q.move i e m c ≡ o
        → left c < suc n
        → Good q v g m i p o
        → Falls (left c) o
        → Within q i e (suc n) m c
    by_outcome n (next m' c') rec eq lt (goes g' p' inv rely loc eff) (near, ready) =
        Within.goes eq (rec g' m' c' p' (omega arith) inv loc ready)
    by_outcome n (done m' r) rec eq lt k f = Within.returns eq
    by_outcome n blocked rec eq lt k f = absurd f
    by_outcome n fault rec eq lt k f = elim k [ ]

    pub Within-left :
        (n : ℕ) (g : v.Ghost) (m : q.Mem) (c : q.Pc) (p : Phase)
        → left c < n
        → v.Inv g m
        → v.Local g m i c p
        → Ready m c
        → Within q i e n m c
    Within-left zero g m c p lt inv loc ready = absurd (omega arith)
    Within-left (suc n) g m c p lt inv loc ready =
        by_outcome n (q.move i e m c) (Within-left n) refl lt (good g m c p inv loc ready)
          (falls m c ready)
