-- ===== src/Ms/Linearizable.antt =====
-- Linearizability and memory safety of ms_queue.hpp.
use concurrent_queue_evaluat.Base.{ℕ, ◌≡◌, ◌≢◌, refl, none, some, Ptr, null, arith}
use concurrent_queue_evaluat.Fifo.{Phase, Atomic, AtomicReach}
use concurrent_queue_evaluat.Machine.{System, Reach, Env, fault}
use concurrent_queue_evaluat.Machine.Simulation.Linearized
use concurrent_queue_evaluat.Machine.Simulation.{Good, Linearization}
use concurrent_queue_evaluat.Chain.{Chain, IsChain}
use concurrent_queue_evaluat.Chain.Contents.{contents_empty}
use concurrent_queue_evaluat.Ms.{
  Mem, Pc, move, machine, create, e1, e5, e6, e7, e9, e13, e17, d2, d3, d4, d5, d10, d12, d13,
}
use concurrent_queue_evaluat.Ms.Knowledge.{look, Inv, Local, view, stable, begins}
use concurrent_queue_evaluat.Ms.Enqueue.{
  Good-e1, Good-e5, Good-e6, Good-e7, Good-e9, Good-e13, Good-e17,
}
use concurrent_queue_evaluat.Ms.Dequeue.{
  Good-d2, Good-d3, Good-d4, Good-d5, Good-d10, Good-d12, Good-d13,
}

moves :
    (g : Chain) (m : Mem) (i : ℕ) (e : Env) (c : Pc) (p : Phase)
    → Inv g m
    → Local g m i c p
    → e.fresh ≢ null
    → m.nodes e.fresh ≡ none
    → Good machine view g m i p (move i e m c)
moves g m i e (e1 x) p v h nn un = Good-e1 g m i e p v x h nn un
moves g m i e (e5 n) p v h nn un = Good-e5 g m i e p v n h
moves g m i e (e6 n l) p v h nn un = Good-e6 g m i e p v n l h
moves g m i e (e7 n l a) p v h nn un = Good-e7 g m i e p v n l a h
moves g m i e (e9 n l a) p v h nn un = Good-e9 g m i e p v n l a h
moves g m i e (e13 n l a) p v h nn un = Good-e13 g m i e p v n l a h
moves g m i e (e17 n l) p v h nn un = Good-e17 g m i e p v n l h
moves g m i e d2 p v h nn un = Good-d2 g m i e p v h
moves g m i e (d3 f) p v h nn un = Good-d3 g m i e p v f h
moves g m i e (d4 f l) p v h nn un = Good-d4 g m i e p v f l h
moves g m i e (d5 f l a) p v h nn un = Good-d5 g m i e p v f l a h
moves g m i e (d10 l a) p v h nn un = Good-d10 g m i e p v l a h
moves g m i e (d12 f a) p v h nn un = Good-d12 g m i e p v f a h
moves g m i e (d13 f a x) p v h nn un = Good-d13 g m i e p v f a x h

abbrev chain₀ : Ptr → Chain
chain₀ dummy = record {
  at = λ _. dummy;
  val = λ _. null;
  len = 1;
  head = 0;
  tail = 0;
  owner = λ _. none;
}

create-IsChain : (dummy : Ptr) → dummy ≢ null → IsChain (look (create dummy)) (chain₀ dummy)
create-IsChain dummy nn = record {
  cell = λ k h. ground arith;
  distinct = λ j k hj hk e. omega arith;
  nonnull = λ k h. nn;
  shared = λ k h. refl;
  private = λ p i e. absurd (cc);
  order = omega arith;
}

pub linearization : (dummy : Ptr) → dummy ≢ null → Linearization machine view (create dummy)
linearization dummy nn = record {
  ghost₀ = chain₀ dummy;
  items₀ = contents_empty (chain₀ dummy) (omega arith);
  inv₀ = record {
    chain = create-IsChain dummy nn;
    head_here = record { linked = omega arith; here = refl };
    tail_here = record { linked = omega arith; here = refl };
  };
  begins = begins;
  stable = λ {g} {g'} {m} {m'} c p ne r h. stable m m' c p ne r h;
  moves = moves;
}

-- Whatever the interleaving of any number of threads that call `enqueue` and `dequeue` on an
-- MSQueue, the calls and returns are those of some run of the atomic queue, in the same order.
pub ms_linearizable :
    (dummy : Ptr) {s : System machine}
    → dummy ≢ null
    → Reach machine (create dummy) s
    → (a : Atomic) × AtomicReach a × (a.history ≡ s.history)
ms_linearizable dummy nn r = Linearized.linearizable machine view (linearization dummy nn) r

-- In every reachable state of an MSQueue, no access of a thread follows a null pointer or a pointer
-- to an address that holds no node.
pub ms_move-ne-fault :
    (dummy : Ptr) {s : System machine} {c : Pc} (i : ℕ) (e : Env)
    → dummy ≢ null
    → Reach machine (create dummy) s
    → s.thread i ≡ some c
    → e.fresh ≢ null
    → s.mem.nodes e.fresh ≡ none
    → move i e s.mem c ≢ fault
ms_move-ne-fault dummy i e nn r at_c fresh unused =
    Linearized.move-ne-fault machine view (linearization dummy nn) i e r at_c fresh unused
