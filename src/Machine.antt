-- ===== src/Machine.antt =====
-- Threads that call one queue object, interleaved at each access to memory that they share
-- (sequential consistency). A queue class is a `Machine`: its fields and nodes, the places in its
-- code where a thread may stand, and what a thread does there.
pub mod Simulation
pub mod Alone
pub mod Measure
pub mod Invariant
pub mod Relies
pub mod Locks
pub mod Schedule
use concurrent_queue_evaluat.Base.{
  ℕ, ◌≡◌, ◌≢◌, Bool, Option, none, some, List, [], ◌∷◌, Ptr, null, update,
}
use concurrent_queue_evaluat.Fifo.{Event}

-- What one access leads to: the next place in the code, the return, no progress while a mutex is
-- held by another thread, or the use of a pointer that leads to no node.
pub data Outcome (M P R : Type 0) : Type 0 where
  next : M → P → Outcome M P R
  done : M → R → Outcome M P R
  blocked : Outcome M P R
  fault : Outcome M P R

-- What the environment chooses at an access: the address that `new` returns, and whether a weak
-- compare-exchange fails for no reason.
pub record Env : Type 0 where
  pub fresh : Ptr
  pub spurious : Bool

-- `C` are the calls of the object and `R` what they return.
pub record Machine (C R : Type 0) : Type 1 where
  pub Mem : Type 0
  pub Pc : Type 0
  pub begin : C → Pc
  pub Unused : Mem → Ptr → Type 0
  pub move : (self : ℕ) → Env → Mem → Pc → Outcome Mem Pc R

module _ {C R : Type 0} (q : Machine C R) where
  pub record System : Type 0 where
    pub mem : q.Mem
    pub thread : ℕ → Option q.Pc
    pub history : List (Event C R)

  pub data Step (s : System) : System → Type 0 where
    call :
        (i : ℕ) (o : C)
        → s.thread i ≡ none
        → Step s (record {
          mem = s.mem;
          thread = update s.thread i (some (q.begin o));
          history = Event.call i o ∷ s.history;
        })
    access :
        (i : ℕ) (e : Env) {c c' : q.Pc} {m : q.Mem}
        → s.thread i ≡ some c
        → e.fresh ≢ null
        → q.Unused s.mem e.fresh
        → q.move i e s.mem c ≡ next m c'
        → Step s (record { mem = m; thread = update s.thread i (some c'); history = s.history })
    return :
        (i : ℕ) (e : Env) {c : q.Pc} {m : q.Mem} {r : R}
        → s.thread i ≡ some c
        → e.fresh ≢ null
        → q.Unused s.mem e.fresh
        → q.move i e s.mem c ≡ done m r
        → Step s (record {
          mem = m;
          thread = update s.thread i none;
          history = Event.return i r ∷ s.history;
        })

  abbrev pub initial : q.Mem → System
  initial m = record { mem = m; thread = λ _. none; history = [] }

  pub data Reach (m : q.Mem) : System → Type 0 where
    start : Reach m (initial m)
    later : {s t : System} → Reach m s → Step s t → Reach m t
