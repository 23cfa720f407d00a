-- ===== src/Machine/Alone.antt =====
-- A thread that moves while the other threads pause.
use concurrent_queue_evaluat.Base.{ℕ, zero, suc, ◌≤◌, ◌≡◌, arith}
use concurrent_queue_evaluat.Machine.{next, done, Env, Machine}

module _ {C R : Type 0} (q : Machine C R) (i : ℕ) (e : Env) where
  -- Thread `i` at the place `c` returns from its call after at most `n` accesses, all its own.
  pub data Within : ℕ → q.Mem → q.Pc → Type 0 where
    returns :
        {n : ℕ} {m m' : q.Mem} {c : q.Pc} {r : R} → q.move i e m c ≡ done m' r → Within (suc n) m c
    goes :
        {n : ℕ} {m m' : q.Mem} {c c' : q.Pc}
        → q.move i e m c ≡ next m' c'
        → Within n m' c'
        → Within (suc n) m c

  pub Within-le : (k : ℕ) {n : ℕ} {m : q.Mem} {c : q.Pc} → n ≤ k → Within n m c → Within k m c
  Within-le zero h (returns eq) = absurd (omega arith)
  Within-le zero h (goes eq w) = absurd (omega arith)
  Within-le (suc k) h (returns eq) = returns eq
  Within-le (suc k) h (goes eq w) = goes eq (Within-le k (omega arith) w)
