-- ===== src/Machine/Simulation/Linearized.antt =====
-- The linearizability of a class from the obligations of its accesses.
use concurrent_queue_evaluat.Base.{
  ℕ, ◌≡◌, ◌≢◌, refl, ◌∙◌, sym, ap, subst, Option, none, some, ◌∷◌, null, update, update_self,
  update_ne,
}
use concurrent_queue_evaluat.Fifo.{
  Op, Answer, Event, Phase, idle, Answers, Atomic, empty, AtomicStep, AtomicReach, start, later,
}
use concurrent_queue_evaluat.Machine.{
  next, done, fault, Env, Machine, System, Step, call, access, return, Reach,
}
use concurrent_queue_evaluat.Machine.Simulation.{View, Good, goes, ends, Linearization}
use concurrent_queue_evaluat.Machine.Simulation.Matches.{Knows, Matches, absorb, Knows-update}

module _ (q : Machine Op Answer) (v : View q) where
  module _ {m₀ : q.Mem} (l : Linearization q v m₀) where
    open l use {ghost₀, items₀, inv₀, begins, stable, moves}

    -- The other threads still know what they knew.
    Knows-stable :
        {g g' : v.Ghost} {m m' : q.Mem} {i j : ℕ} (c : Option q.Pc) (p : Phase)
        → j ≢ i
        → v.Rely i g m g' m'
        → Knows q v g m j c p
        → Knows q v g' m' j c p
    Knows-stable none p n r k = k
    Knows-stable (some c) p n r k = stable c p n r k

    Linearized : System q → Type 0
    Linearized s = (a : Atomic) × AtomicReach a × Matches q v s a

    Linearized-call :
        {s : System q} {a : Atomic} (i : ℕ) (o : Op)
        → s.thread i ≡ none
        → AtomicReach a
        → Matches q v s a
        → Linearized (record {
          mem = s.mem;
          thread = update s.thread i (some (q.begin o));
          history = Event.call i o ∷ s.history;
        })
    unfolding Linearized
    Linearized-call {s} {a} i o not_called r w =
        let ready : a.phase i ≡ idle =
          subst (λ c. Knows q v w.ghost s.mem i c (a.phase i)) not_called (w.knows i) in
        (
          _,
          later r (AtomicStep.call i o ready),
          record {
            ghost = w.ghost;
            inv = w.inv;
            same_items = w.same_items;
            same_history = ap (λ h. Event.call i o ∷ h) w.same_history;
            knows =
                Knows-update q v _ _ s.thread a.phase i _ _ (begins w.ghost s.mem i o w.inv)
                  (λ j n. w.knows j);
          },
        )

    Linearized-access :
        {s : System q} {a : Atomic} (i : ℕ) {c' : q.Pc} {m : q.Mem}
        → AtomicReach a
        → (w : Matches q v s a) → Good q v w.ghost s.mem i (a.phase i) (next m c')
        → Linearized (record { mem = m; thread = update s.thread i (some c'); history = s.history })
    unfolding Linearized
    Linearized-access {s} {a} i {c'} r w (goes g' p' inv rely loc eff) =
        let b = absorb q v i r w.same_items refl eff in
        (
          b.after,
          b.reach,
          record {
            ghost = g';
            inv = inv;
            same_items = b.items_after;
            same_history = w.same_history ∙ sym b.history_after;
            knows = λ j. rw (b.phase_after j) (
                Knows-update q v _ _ s.thread a.phase i _ _ loc
                  (λ k n. Knows-stable _ _ n rely (w.knows k)) j);
          },
        )

    Linearized-return :
        {s : System q} {a : Atomic} (i : ℕ) {ans : Answer} {m : q.Mem}
        → AtomicReach a
        → (w : Matches q v s a) → Good q v w.ghost s.mem i (a.phase i) (done m ans)
        → Linearized (record {
          mem = m;
          thread = update s.thread i none;
          history = Event.return i ans ∷ s.history;
        })
    unfolding Linearized
    Linearized-return {s} {a} i {ans} r w (ends g' p' inv rely ok eff) =
        let b = absorb q v i r w.same_items refl eff in
        let here : p' ≡ b.after.phase i = sym (b.phase_after i ∙ update_self a.phase i p') in
        (
          _,
          later b.reach (AtomicStep.return i (subst (λ z. Answers z ans) here ok)),
          record {
            ghost = g';
            inv = inv;
            same_items = b.items_after;
            same_history = ap (λ h. Event.return i ans ∷ h) (w.same_history ∙ sym b.history_after);
            knows = Knows-update q v _ _ s.thread b.after.phase i none idle refl λ k n.
                rw (b.phase_after k, update_ne a.phase i k p' (λ e. n (sym e)))
                  (Knows-stable _ _ n rely (w.knows k));
          },
        )

    -- What the step of a thread in a call must be, from the class's own proof.
    Good-thread :
        {s : System q} {a : Atomic} (i : ℕ) (e : Env) {c : q.Pc}
        → (w : Matches q v s a) → s.thread i ≡ some c
        → e.fresh ≢ null
        → q.Unused s.mem e.fresh
        → Good q v w.ghost s.mem i (a.phase i) (q.move i e s.mem c)
    Good-thread {s} {a} i e {c} w at_c nonnull unused =
        moves w.ghost s.mem i e c (a.phase i) w.inv
          (subst (λ z. Knows q v w.ghost s.mem i z (a.phase i)) at_c (w.knows i)) nonnull unused

    Linearized-Step : {s t : System q} → Linearized s → Step q s t → Linearized t
    unfolding Linearized
    Linearized-Step (a, r, w) (call i o not_called) = Linearized-call i o not_called r w
    Linearized-Step (a, r, w) (access i e at_c nonnull unused outcome) =
        Linearized-access i r w
          (subst (Good q v w.ghost _ i (a.phase i)) outcome (Good-thread i e w at_c nonnull unused))
    Linearized-Step (a, r, w) (return i e at_c nonnull unused outcome) =
        Linearized-return i r w
          (subst (Good q v w.ghost _ i (a.phase i)) outcome (Good-thread i e w at_c nonnull unused))

    Linearized-Reach : {s : System q} → Reach q m₀ s → Linearized s
    unfolding Linearized
    Linearized-Reach Reach.start = (
      empty,
      start,
      record {
        ghost = ghost₀;
        inv = inv₀;
        same_items = items₀;
        same_history = refl;
        knows = λ i. refl;
      },
    )
    Linearized-Reach (Reach.later r st) = Linearized-Step (Linearized-Reach r) st

    -- Every history of the class is a history of the atomic queue.
    pub linearizable :
        {s : System q} → Reach q m₀ s → (a : Atomic) × AtomicReach a × (a.history ≡ s.history)
    unfolding Linearized
    linearizable r = let (a, ra, w) = Linearized-Reach r in (a, ra, sym w.same_history)

    not-Good-fault : {g : v.Ghost} {m : q.Mem} {i : ℕ} {p : Phase} → ¬ Good q v g m i p fault
    not-Good-fault x = elim x [ ]

    -- No thread ever uses a pointer that leads to no node.
    pub move-ne-fault :
        {s : System q} {c : q.Pc} (i : ℕ) (e : Env)
        → Reach q m₀ s
        → s.thread i ≡ some c
        → e.fresh ≢ null
        → q.Unused s.mem e.fresh
        → q.move i e s.mem c ≢ fault
    unfolding Linearized
    move-ne-fault i e r at_c nonnull unused bad =
        let (a, ra, w) = Linearized-Reach r in
        not-Good-fault
          (subst (Good q v w.ghost _ i (a.phase i)) bad (Good-thread i e w at_c nonnull unused))

    -- What a thread in a call knows in a reachable state.
    pub knowledge :
        {s : System q} {c : q.Pc} (i : ℕ)
        → Reach q m₀ s
        → s.thread i ≡ some c
        → (g : v.Ghost) × (p : Phase) × v.Inv g s.mem × v.Local g s.mem i c p
    unfolding Linearized
    knowledge {s} i r at_c =
        let (a, ra, w) = Linearized-Reach r in
        (
          w.ghost,
          a.phase i,
          w.inv,
          subst (λ z. Knows q v w.ghost s.mem i z (a.phase i)) at_c (w.knows i),
        )

    -- What is known of the memory in a reachable state.
    pub invariant : {s : System q} → Reach q m₀ s → (g : v.Ghost) × v.Inv g s.mem
    unfolding Linearized
    invariant r = let (a, ra, w) = Linearized-Reach r in (w.ghost, w.inv)
