-- ===== src/Machine/Schedule.antt =====
-- Reachable states by evaluation: the threads move in a given order. A turn that the state does not
-- allow is passed over.
use concurrent_queue_evaluat.Base.{
  ℕ, zero, suc, ◌∷◌, ◌≡◌, ◌≢◌, refl, Bool, Option, none, some, List, Ptr, null, ℕ_discrete, foldl,
}
use concurrent_queue_evaluat.Machine.{
  Outcome, next, done, blocked, fault, Env, Machine, System, access, return, Reach, start, later,
  initial,
}
use concurrent_queue_evaluat.Machine

pub data Turn (C : Type 0) : Type 0 where
  calls : (thread : ℕ) → C → Turn C
  goes : (thread : ℕ) → (fresh : Ptr) → Turn C

-- Thread `i` makes `n` accesses before `rest`; none of them allocates.
unfoldable pub go : {C : Type 0} → (n i : ℕ) → List (Turn C) → List (Turn C)
go zero i rest = rest
go (suc n) i rest = goes i 8 ∷ go n i rest

-- Whether an address is unused.
unfoldable pub check_none : {A : Type 0} (o : Option A) → Option (o ≡ none)
check_none none = some refl
check_none (some a) = none

abbrev env : Ptr → Env
env p = record { fresh = p; spurious = Bool.false }

module _ {C R : Type 0} (q : Machine C R)
    (check : (m : q.Mem) (p : Ptr) → Option (q.Unused m p)) where
  pub record Run (m : q.Mem) : Type 0 where
    pub last : System q
    pub reach : Reach q m last

  take_call : {m : q.Mem} (r : Run m) (i : ℕ) → C → (o : Option q.Pc) → r.last.thread i ≡ o → Run m
  take_call r i op none h = record { last = _; reach = later r.reach (Machine.call i op h) }
  take_call r i op (some c) h = r

  take_outcome :
      {m : q.Mem} (r : Run m) (i : ℕ) (e : Env) {c : q.Pc}
      → r.last.thread i ≡ some c
      → e.fresh ≢ null
      → q.Unused r.last.mem e.fresh
      → (o : Outcome q.Mem q.Pc R) → q.move i e r.last.mem c ≡ o
      → Run m
  take_outcome r i e h nn un (next m c) eq = record {
    last = _;
    reach = later r.reach (access i e h nn un eq);
  }
  take_outcome r i e h nn un (done m a) eq = record {
    last = _;
    reach = later r.reach (return i e h nn un eq);
  }
  take_outcome r i e h nn un blocked eq = r
  take_outcome r i e h nn un fault eq = r

  take_go :
      {m : q.Mem} (r : Run m) (i : ℕ) (e : Env)
      → (o : Option q.Pc) → r.last.thread i ≡ o
      → Dec (e.fresh ≡ null)
      → Option (q.Unused r.last.mem e.fresh)
      → Run m
  unfolding take_outcome
  take_go r i e (some c) h (no nn) (some un) =
      take_outcome r i e h nn un (q.move i e r.last.mem c) refl
  take_go r i e _ h _ _ = r

  turn : {m : q.Mem} → Run m → Turn C → Run m
  unfolding take_call take_go
  turn r (calls i op) = take_call r i op (r.last.thread i) refl
  turn r (goes i p) =
      take_go r i (env p) (r.last.thread i) refl (ℕ_discrete p null) (check r.last.mem p)

  unfoldable pub run : (m : q.Mem) → List (Turn C) → Run m
  unfolding turn ℕ_discrete
  run m = foldl turn (record { last = initial q m; reach = start })
