-- ===== src/Machine/Invariant.antt =====
-- Invariants of a machine that speak of the memory and of each thread's place apart.
use concurrent_queue_evaluat.Base.{
  ℕ, ◌≡◌, subst, Option, none, some, ℕ_discrete, update, update_self, update_ne,
}
use concurrent_queue_evaluat.Machine.{
  Outcome, next, done, blocked, fault, Env, Machine, System, Step, call, access, return, Reach,
  start, later,
}

module _ {C R : Type 0} (q : Machine C R) where
  -- The memory that an access leads to.
  abbrev pub After : (q.Mem → Type 0) → Outcome q.Mem q.Pc R → Type 0
  After P (next m c) = P m
  After P (done m r) = P m
  After P blocked = Unit
  After P fault = Unit

  pub After-Step :
      (P : q.Mem → Type 0) {s t : System q}
      → P s.mem
      → ((i : ℕ) (e : Env) (c : q.Pc) → s.thread i ≡ some c → After P (q.move i e s.mem c))
      → Step q s t
      → P t.mem
  After-Step P h f (call i o idle) = h
  After-Step P h f (access i e {c} at_c fresh un eq) = subst (After P) eq (f i e c at_c)
  After-Step P h f (return i e {c} at_c fresh un eq) = subst (After P) eq (f i e c at_c)

  module _ (MemOk : q.Mem → Type 0) (PcOk : q.Pc → Type 0) where
    abbrev pub Ok : Outcome q.Mem q.Pc R → Type 0
    Ok (next m c) = MemOk m × PcOk c
    Ok (done m r) = MemOk m
    Ok blocked = Unit
    Ok fault = Unit

    abbrev ThreadOk : Option q.Pc → Type 0
    ThreadOk none = Unit
    ThreadOk (some c) = PcOk c

    pub record AllOk (s : System q) : Type 0 where
      pub memory : MemOk s.mem
      pub places : (i : ℕ) → ThreadOk (s.thread i)

    pub at_place : {s : System q} {i : ℕ} {c : q.Pc} → AllOk s → s.thread i ≡ some c → PcOk c
    at_place {i} a h = subst ThreadOk h (a.places i)

    ThreadOk-update :
        (th : ℕ → Option q.Pc) (i : ℕ) (c : Option q.Pc)
        → ThreadOk c
        → ((j : ℕ) → ThreadOk (th j))
        → (j : ℕ) → ThreadOk (update th i c j)
    ThreadOk-update th i c mine others j = elim (ℕ_discrete i j) [
      | yes e ↦ subst (λ z. ThreadOk (update th i c z)) e (rw (update_self th i c) mine)
      | no n ↦ rw (update_ne th i j c n) (others j)
    ]

    module _ (begins : (o : C) → PcOk (q.begin o))
        (moves : (i : ℕ) (e : Env) (m : q.Mem) (c : q.Pc)
          → MemOk m
          → PcOk c
          → Ok (q.move i e m c)) where
      AllOk-Step : {s t : System q} → AllOk s → Step q s t → AllOk t
      AllOk-Step {s} a (call i o h) = record {
        memory = a.memory;
        places = ThreadOk-update s.thread i _ (begins o) a.places;
      }
      AllOk-Step {s} a (access i e {c} h fresh un eq) =
          let (w, p) = subst Ok eq (moves i e s.mem c a.memory (at_place a h)) in
          record { memory = w; places = ThreadOk-update s.thread i _ p a.places }
      AllOk-Step {s} a (return i e {c} h fresh un eq) = record {
        memory = subst Ok eq (moves i e s.mem c a.memory (at_place a h));
        places = ThreadOk-update s.thread i none tt a.places;
      }

      pub AllOk-Reach : {m₀ : q.Mem} {s : System q} → MemOk m₀ → Reach q m₀ s → AllOk s
      AllOk-Reach h start = record { memory = h; places = λ i. tt }
      AllOk-Reach h (later r st) = AllOk-Step (AllOk-Reach h r) st
