-- ===== src/TwoLock/Linearizable.antt =====
-- Linearizability and memory safety of two_lock_queue.hpp.
use concurrent_queue_evaluat.Base.{ℕ, ◌≡◌, ◌≢◌, refl, true, none, some, Ptr, null, arith}
use concurrent_queue_evaluat.Fifo.{Phase, Atomic, AtomicReach}
use concurrent_queue_evaluat.Machine.{System, Reach, Env, fault}
use concurrent_queue_evaluat.Machine.Simulation.Linearized
use concurrent_queue_evaluat.Machine.Simulation.{Good, Linearization}
use concurrent_queue_evaluat.Chain.Contents.{between_empty}
use concurrent_queue_evaluat.Live.{IsLive}
use concurrent_queue_evaluat.TwoLock.{
  Mem, Pc, move, machine, create, a1, a2, a3, a4, a5, b1, b2, b3, b4, b5, b6, b7, b9,
}
use concurrent_queue_evaluat.TwoLock.Knowledge.{look, Ghost, Inv, Local, view, stable, begins}
use concurrent_queue_evaluat.TwoLock.Enqueue.{Good-a1, Good-a2, Good-a3, Good-a4, Good-a5}
use concurrent_queue_evaluat.TwoLock.Dequeue.{
  Good-b1, Good-b2, Good-b3, Good-b4, Good-b5, Good-b6, Good-b7, Good-b9,
}

-- What `new` gives at an access that calls it.
abbrev pub New : Env → Mem → Pc → Type 0
New e m (a1 x) = (e.fresh ≢ null) × (m.nodes e.fresh ≡ none)
New e m _ = Unit

pub New-of : (e : Env) (m : Mem) (c : Pc) → e.fresh ≢ null → m.nodes e.fresh ≡ none → New e m c
New-of e m (a1 x) nn un = (nn, un)
New-of e m _ nn un = tt

pub moves :
    (g : Ghost) (m : Mem) (i : ℕ) (e : Env) (c : Pc) (p : Phase)
    → Inv g m
    → Local g m i c p
    → New e m c
    → Good machine view g m i p (move i e m c)
moves g m i e (a1 x) p v h (nn, un) = Good-a1 g m i e p v x h nn un
moves g m i e (a2 n) p v h w = Good-a2 g m i e p v n h
moves g m i e (a3 n) p v h w = Good-a3 g m i e p v n h
moves g m i e (a4 n) p v h w = Good-a4 g m i e p v n h
moves g m i e a5 p v h w = Good-a5 g m i e p v h
moves g m i e b1 p v h w = Good-b1 g m i e p v h
moves g m i e b2 p v h w = Good-b2 g m i e p v h
moves g m i e (b3 d) p v h w = Good-b3 g m i e p v d h
moves g m i e (b4 d k) p v h w = Good-b4 g m i e p v d k h
moves g m i e (b5 d k x) p v h w = Good-b5 g m i e p v d k x h
moves g m i e (b6 d x) p v h w = Good-b6 g m i e p v d x h
moves g m i e (b7 d x) p v h w = Good-b7 g m i e p v d x h
moves g m i e b9 p v h w = Good-b9 g m i e p v h

abbrev ghost₀ : Ptr → Ghost
ghost₀ dummy = record {
  list = record { at = λ _. dummy; val = λ _. null; len = 1; head = 0; owner = λ _. none };
  settled = true;
}

create-IsLive : (dummy : Ptr) → dummy ≢ null → IsLive (look (create dummy)) (ghost₀ dummy).list
create-IsLive dummy nn = record {
  cell = λ k lo h. ground arith;
  distinct = λ j k lj hj lk hk e. omega arith;
  nonnull = λ k lo h. nn;
  shared = λ k lo h. refl;
  private = λ p i e. absurd (cc);
}

pub linearization : (dummy : Ptr) → dummy ≢ null → Linearization machine view (create dummy)
linearization dummy nn = record {
  ghost₀ = ghost₀ dummy;
  items₀ = between_empty (λ _. null) 1 1 (omega arith);
  inv₀ = record {
    live = create-IsLive dummy nn;
    dummy = omega arith;
    head_here = refl;
    tail_here = λ k h s. refl;
    tail_free = λ h. refl;
  };
  begins = begins;
  stable = λ {g} {g'} {m} {m'} c p ne r h. stable m m' c p ne r h;
  moves = λ g m i e c p v h nn un. moves g m i e c p v h (New-of e m c nn un);
}

-- Whatever the interleaving of any number of threads that call `enqueue` and `dequeue` on an
-- TwoLockQueue, the calls and returns are those of some run of the atomic queue, in the same order.
pub two_lock_linearizable :
    (dummy : Ptr) {s : System machine}
    → dummy ≢ null
    → Reach machine (create dummy) s
    → (a : Atomic) × AtomicReach a × (a.history ≡ s.history)
two_lock_linearizable dummy nn r = Linearized.linearizable machine view (linearization dummy nn) r

-- In every reachable state of a TwoLockQueue, no access of a thread follows a null pointer or a pointer
-- to an address that holds no node.
pub two_lock_move-ne-fault :
    (dummy : Ptr) {s : System machine} {c : Pc} (i : ℕ) (e : Env)
    → dummy ≢ null
    → Reach machine (create dummy) s
    → s.thread i ≡ some c
    → e.fresh ≢ null
    → s.mem.nodes e.fresh ≡ none
    → move i e s.mem c ≢ fault
two_lock_move-ne-fault dummy i e nn r at_c fresh unused =
    Linearized.move-ne-fault machine view (linearization dummy nn) i e r at_c fresh unused
