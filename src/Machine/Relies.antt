-- ===== src/Machine/Relies.antt =====
-- Invariants by what each thread knows at its place and what the others leave alone, for classes that
-- need not be queues.
use concurrent_queue_evaluat.Base.{
  ℕ, ◌≡◌, ◌≢◌, sym, subst, Option, none, some, null, update, update_self, update_ne, at_or_else,
}
use concurrent_queue_evaluat.Machine.{
  Outcome, next, done, blocked, fault, Env, Machine, System, Step, call, access, return, Reach,
  start, later,
}

module _ {C R : Type 0} (q : Machine C R) where
  -- `Ghost` is what a proof knows beyond the memory. `Local` is what a thread knows at its place, or
  -- outside its calls. `Rely i` is what thread `i` promises to the others.
  pub record View : Type 1 where
    pub Ghost : Type 0
    pub Inv : Ghost → q.Mem → Type 0
    pub Local : Ghost → q.Mem → ℕ → Option q.Pc → Type 0
    pub Rely : ℕ → Ghost → q.Mem → Ghost → q.Mem → Type 0
    pub Fault : Type 0

  module _ (v : View) where
    -- The state after thread `i` has moved to `c`.
    pub record Moved (g : v.Ghost) (m : q.Mem) (i : ℕ) (m' : q.Mem) (c : Option q.Pc) : Type 0 where
      pub ghost : v.Ghost
      pub inv : v.Inv ghost m'
      pub rely : v.Rely i g m ghost m'
      pub local : v.Local ghost m' i c

    abbrev pub Good : v.Ghost → q.Mem → ℕ → Outcome q.Mem q.Pc R → Type 0
    Good g m i (next m' c) = Moved g m i m' (some c)
    Good g m i (done m' r) = Moved g m i m' none
    Good g m i blocked = Unit
    Good g m i fault = v.Fault

    pub record Proof (m₀ : q.Mem) : Type 0 where
      pub ghost₀ : v.Ghost
      pub inv₀ : v.Inv ghost₀ m₀
      pub idle₀ : (i : ℕ) → v.Local ghost₀ m₀ i none
      pub begins :
          (g : v.Ghost) (m : q.Mem) (i : ℕ) (o : C)
          → v.Inv g m
          → v.Local g m i none
          → Moved g m i m (some (q.begin o))
      pub stable :
          {g g' : v.Ghost} {m m' : q.Mem} {i j : ℕ} (c : Option q.Pc)
          → i ≢ j
          → v.Rely i g m g' m'
          → v.Local g m j c
          → v.Local g' m' j c
      pub moves :
          (g : v.Ghost) (m : q.Mem) (i : ℕ) (e : Env) (c : q.Pc)
          → v.Inv g m
          → v.Local g m i (some c)
          → e.fresh ≢ null
          → q.Unused m e.fresh
          → Good g m i (q.move i e m c)

    pub record Known (s : System q) : Type 0 where
      pub ghost : v.Ghost
      pub inv : v.Inv ghost s.mem
      pub local : (i : ℕ) → v.Local ghost s.mem i (s.thread i)

    module _ {m₀ : q.Mem} (p : Proof m₀) where
      Known-Moved :
          {s : System q} (k : Known s) (i : ℕ) {m : q.Mem} {c : Option q.Pc} {h : _}
          → Moved k.ghost s.mem i m c
          → Known (record { mem = m; thread = update s.thread i c; history = h })
      Known-Moved {s} k i {m} {c} w = record {
        ghost = w.ghost;
        inv = w.inv;
        local =
            at_or_else i (subst (v.Local w.ghost m i) (sym (update_self s.thread i c)) w.local)
              λ j n.
                subst (v.Local w.ghost m j) (sym (update_ne s.thread i j c n))
                  (p.stable (s.thread j) n w.rely (k.local j));
      }

      pub at_thread :
          {s : System q} (k : Known s) (i : ℕ) {c : Option q.Pc}
          → s.thread i ≡ c
          → v.Local k.ghost s.mem i c
      at_thread {s} k i e = subst (v.Local k.ghost s.mem i) e (k.local i)

      Good-thread :
          {s : System q} (k : Known s) (i : ℕ) (e : Env) {c : q.Pc}
          → s.thread i ≡ some c
          → e.fresh ≢ null
          → q.Unused s.mem e.fresh
          → Good k.ghost s.mem i (q.move i e s.mem c)
      Good-thread {s} k i e {c} at_c nn un =
          p.moves k.ghost s.mem i e c k.inv (at_thread k i at_c) nn un

      Known-Step : {s t : System q} → Known s → Step q s t → Known t
      Known-Step {s} k (call i o idle) =
          Known-Moved k i (p.begins k.ghost s.mem i o k.inv (at_thread k i idle))
      Known-Step {s} k (access i e at_c nn un eq) =
          Known-Moved k i (subst (Good k.ghost s.mem i) eq (Good-thread k i e at_c nn un))
      Known-Step {s} k (return i e at_c nn un eq) =
          Known-Moved k i (subst (Good k.ghost s.mem i) eq (Good-thread k i e at_c nn un))

      pub Known-Reach : {s : System q} → Reach q m₀ s → Known s
      Known-Reach start = record { ghost = p.ghost₀; inv = p.inv₀; local = p.idle₀ }
      Known-Reach (later r st) = Known-Step (Known-Reach r) st

      pub move-ne-fault :
          ¬ v.Fault
          → {s : System q} (i : ℕ) (e : Env) {c : q.Pc} → Reach q m₀ s
          → s.thread i ≡ some c
          → e.fresh ≢ null
          → q.Unused s.mem e.fresh
          → q.move i e s.mem c ≢ fault
      move-ne-fault never {s} i e r at_c nn un bad =
          let k = Known-Reach r in
          never (subst (Good k.ghost s.mem i) bad (Good-thread k i e at_c nn un))
