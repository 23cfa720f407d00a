-- ===== src/Mutex/Linearizable.antt =====
-- Linearizability and memory safety of mutex_queue.hpp.
use concurrent_queue_evaluat.Base.{ℕ, ◌≡◌, ◌≢◌, refl, none, some, null, arith}
use concurrent_queue_evaluat.Fifo.{Phase, Atomic, AtomicReach}
use concurrent_queue_evaluat.Machine.{System, Reach, Env, fault}
use concurrent_queue_evaluat.Machine.Simulation.Linearized
use concurrent_queue_evaluat.Machine.Simulation.{Good, Linearization}
use concurrent_queue_evaluat.Chain.Contents.{between_empty}
use concurrent_queue_evaluat.Live.{Live, IsLive}
use concurrent_queue_evaluat.Mutex.{
  Mem, Pc, move, machine, create, a1, a2, a3, a4, b1, b2, b3, b4, b9,
}
use concurrent_queue_evaluat.Mutex.Knowledge.{look, Inv, Local, view, stable, begins}
use concurrent_queue_evaluat.Mutex.Enqueue.{Good-a1, Good-a2, Good-a3, Good-a4}
use concurrent_queue_evaluat.Mutex.Dequeue.{Good-b1, Good-b2, Good-b3, Good-b4, Good-b9}

-- What `new` gives at an access that calls it.
abbrev pub New : Env → Mem → Pc → Type 0
New e m (a1 x) = (e.fresh ≢ null) × (m.nodes e.fresh ≡ none)
New e m _ = Unit

pub New-of : (e : Env) (m : Mem) (c : Pc) → e.fresh ≢ null → m.nodes e.fresh ≡ none → New e m c
New-of e m (a1 x) nn un = (nn, un)
New-of e m _ nn un = tt

pub moves :
    (g : Live) (m : Mem) (i : ℕ) (e : Env) (c : Pc) (p : Phase)
    → Inv g m
    → Local g m i c p
    → New e m c
    → Good machine view g m i p (move i e m c)
moves g m i e (a1 x) p v h (nn, un) = Good-a1 g m i e p v x h nn un
moves g m i e (a2 n) p v h w = Good-a2 g m i e p v n h
moves g m i e (a3 n) p v h w = Good-a3 g m i e p v n h
moves g m i e a4 p v h w = Good-a4 g m i e p v h
moves g m i e b1 p v h w = Good-b1 g m i e p v h
moves g m i e b2 p v h w = Good-b2 g m i e p v h
moves g m i e (b3 t) p v h w = Good-b3 g m i e p v t h
moves g m i e (b4 t) p v h w = Good-b4 g m i e p v t h
moves g m i e b9 p v h w = Good-b9 g m i e p v h

abbrev ghost₀ : Live
ghost₀ = record { at = λ _. null; val = λ _. null; len = 0; head = 0; owner = λ _. none }

create-IsLive : IsLive (look create) ghost₀
create-IsLive = record {
  cell = λ k lo h. absurd (omega arith);
  distinct = λ j k lj hj lk hk e. absurd (omega arith);
  nonnull = λ k lo h. absurd (omega arith);
  shared = λ k lo h. refl;
  private = λ p i e. absurd (cc);
}

pub linearization : Linearization machine view create
linearization = record {
  ghost₀ = ghost₀;
  items₀ = between_empty (λ _. null) 0 0 (omega arith);
  inv₀ = record {
    live = create-IsLive;
    order = omega arith;
    head_here = refl;
    tail_here = λ k h lo. absurd (omega arith);
  };
  begins = begins;
  stable = λ {g} {g'} {m} {m'} c p ne r h. stable m m' c p ne r h;
  moves = λ g m i e c p v h nn un. moves g m i e c p v h (New-of e m c nn un);
}

-- Whatever the interleaving of any number of threads that call `enqueue` and `dequeue` on a
-- MutexQueue, the calls and returns are those of some run of the atomic queue, in the same order.
pub mutex_linearizable :
    {s : System machine}
    → Reach machine create s
    → (a : Atomic) × AtomicReach a × (a.history ≡ s.history)
mutex_linearizable r = Linearized.linearizable machine view linearization r

-- In every reachable state of a MutexQueue, no access of a thread follows a null pointer or a
-- pointer to an address that holds no node, and no node is deleted twice.
pub mutex_move-ne-fault :
    {s : System machine} {c : Pc} (i : ℕ) (e : Env)
    → Reach machine create s
    → s.thread i ≡ some c
    → e.fresh ≢ null
    → s.mem.nodes e.fresh ≡ none
    → move i e s.mem c ≢ fault
mutex_move-ne-fault i e r at_c fresh unused =
    Linearized.move-ne-fault machine view linearization i e r at_c fresh unused
