-- ===== src/Machine/Simulation.antt =====
-- How a queue class is shown to be linearizable: a view of its memory as a list of items, what a
-- thread knows at each place in its code, and what other threads leave alone. Each access then is
-- at most one step of the atomic queue, and every history of the class is one of the atomic queue.
pub mod Matches
pub mod Linearized
use concurrent_queue_evaluat.Base.{
  ℕ, ◌≡◌, ◌≢◌, refl, ◌∙◌, sym, ap, subst, Option, none, some, List, [], ◌∷◌, null, update,
  update_self, update_ne, arith, ℕ_discrete,
}
use concurrent_queue_evaluat.Fifo.{
  Item, Op, Answer, Event, Phase, idle, called, Commit, Answers, Atomic, empty, AtomicStep,
  AtomicReach, start, later,
}
use concurrent_queue_evaluat.Machine.{
  Outcome, next, done, blocked, fault, Env, Machine, System, Step, call, access, return, Reach,
}

-- At most one step of the atomic queue.
pub data Effect (q : List Item) (p : Phase) (q' : List Item) (p' : Phase) : Type 0 where
  silent : q' ≡ q → p' ≡ p → Effect q p q' p'
  visible : Commit q p q' p' → Effect q p q' p'

module _ (q : Machine Op Answer) where
  -- `Ghost` is what a proof knows beyond the memory. `Rely i` is what an access of thread `i`
  -- promises to the other threads.
  pub record View : Type 1 where
    pub Ghost : Type 0
    pub items : Ghost → List Item
    pub Inv : Ghost → q.Mem → Type 0
    pub Local : Ghost → q.Mem → ℕ → q.Pc → Phase → Type 0
    pub Rely : ℕ → Ghost → q.Mem → Ghost → q.Mem → Type 0

  module _ (v : View) where
    -- A good outcome of an access of thread `i` in phase `p`; a fault is none.
    pub data Good (g : v.Ghost) (m : q.Mem) (i : ℕ) (p : Phase)
        : Outcome q.Mem q.Pc Answer → Type 0 where
      goes :
          {m' : q.Mem} {c' : q.Pc} (g' : v.Ghost) (p' : Phase)
          → v.Inv g' m'
          → v.Rely i g m g' m'
          → v.Local g' m' i c' p'
          → Effect (v.items g) p (v.items g') p'
          → Good g m i p (next m' c')
      ends :
          {m' : q.Mem} {r : Answer} (g' : v.Ghost) (p' : Phase)
          → v.Inv g' m'
          → v.Rely i g m g' m'
          → Answers p' r
          → Effect (v.items g) p (v.items g') p'
          → Good g m i p (done m' r)
      waits : Good g m i p blocked

    pub Good-next :
        {g : v.Ghost} {m m' : q.Mem} {i : ℕ} {p : Phase} {c : q.Pc}
        → Good g m i p (next m' c)
        → (g' : v.Ghost) × v.Inv g' m'
    Good-next (goes g' p' inv rely loc eff) = (g', inv)

    -- What the proofs about a class provide.
    pub record Linearization (m₀ : q.Mem) : Type 0 where
      pub ghost₀ : v.Ghost
      pub items₀ : v.items ghost₀ ≡ []
      pub inv₀ : v.Inv ghost₀ m₀
      pub begins :
          (g : v.Ghost) (m : q.Mem) (i : ℕ) (o : Op)
          → v.Inv g m
          → v.Local g m i (q.begin o) (called o)
      pub stable :
          {g g' : v.Ghost} {m m' : q.Mem} {i j : ℕ} (c : q.Pc) (p : Phase)
          → j ≢ i
          → v.Rely i g m g' m'
          → v.Local g m j c p
          → v.Local g' m' j c p
      pub moves :
          (g : v.Ghost) (m : q.Mem) (i : ℕ) (e : Env) (c : q.Pc) (p : Phase)
          → v.Inv g m
          → v.Local g m i c p
          → e.fresh ≢ null
          → q.Unused m e.fresh
          → Good g m i p (q.move i e m c)
