-- ===== src/Machine/Simulation/Matches.antt =====
-- A state of a class beside a state of the atomic queue: what they share, and the effect of an access.
use concurrent_queue_evaluat.Base.{
  ℕ, ◌≡◌, ◌≢◌, refl, ◌∙◌, sym, subst, Option, none, some, List, update, update_self, update_ne,
  arith, ℕ_discrete,
}
use concurrent_queue_evaluat.Fifo.{
  Item, Op, Answer, Phase, idle, Commit, Atomic, AtomicStep, AtomicReach, later,
}
use concurrent_queue_evaluat.Machine.{Machine, System}
use concurrent_queue_evaluat.Machine.Simulation.{View, Effect, silent, visible}

module _ (q : Machine Op Answer) (v : View q) where
  -- An idle thread has no duty; a thread in a call knows what its place says.
  abbrev pub Knows : v.Ghost → q.Mem → ℕ → Option q.Pc → Phase → Type 0
  Knows g m i none p = p ≡ idle
  Knows g m i (some c) p = v.Local g m i c p

  pub record Matches (s : System q) (a : Atomic) : Type 0 where
    pub ghost : v.Ghost
    pub inv : v.Inv ghost s.mem
    pub same_items : v.items ghost ≡ a.items
    pub same_history : s.history ≡ a.history
    pub knows : (i : ℕ) → Knows ghost s.mem i (s.thread i) (a.phase i)

  -- The atomic queue after the effect of an access of thread `i`.
  pub record Absorbed (a : Atomic) (i : ℕ) (items : List Item) (p : Phase) : Type 0 where
    pub after : Atomic
    pub reach : AtomicReach after
    pub items_after : items ≡ after.items
    pub history_after : after.history ≡ a.history
    pub phase_after : (j : ℕ) → after.phase j ≡ update a.phase i p j

  pub absorb :
      {a : Atomic} (i : ℕ) {k k' : List Item} {p p' : Phase}
      → AtomicReach a
      → k ≡ a.items
      → p ≡ a.phase i
      → Effect k p k' p'
      → Absorbed a i k' p'
  absorb {a} i r ek ep (silent e f) = record {
    after = a;
    reach = r;
    items_after = e ∙ ek;
    history_after = refl;
    phase_after = λ j. ground arith;
  }
  absorb {a} i {k} {k'} {p'} r ek ep (visible c) =
      let c' = subst (λ z. Commit z (a.phase i) k' p') ek (subst (λ z. Commit k z k' p') ep c) in
      record {
        after = record a { items = k'; phase = update a.phase i p' };
        reach = later r (AtomicStep.commit i c');
        items_after = refl;
        history_after = refl;
        phase_after = λ j. refl;
      }

  -- A family of threads in which thread `i` has moved.
  pub Knows-update :
      (g : v.Ghost) (m : q.Mem) (th : ℕ → Option q.Pc) (ph : ℕ → Phase) (i : ℕ) (c : Option q.Pc)
      (p : Phase)
      → Knows g m i c p
      → ((j : ℕ) → j ≢ i → Knows g m j (th j) (ph j))
      → (j : ℕ) → Knows g m j (update th i c j) (update ph i p j)
  Knows-update g m th ph i c p mine others j = elim (ℕ_discrete i j) [
    | yes e ↦
        subst (λ z. Knows g m z (update th i c z) (update ph i p z)) e
          (rw (update_self th i c, update_self ph i p) mine)
    | no n ↦ rw (update_ne th i j c n, update_ne ph i j p n) (others j λ e. n (sym e))
  ]
