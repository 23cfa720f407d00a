-- ===== src/Fifo/Refused.antt =====
-- A call of `dequeue` on the atomic queue that fails.
use concurrent_queue_evaluat.Base.{
  ℕ, ◌≡◌, ◌≢◌, refl, sym, ap, subst, ◌∙◌, true, false, none, some, List, [], ◌∷◌, update,
  update_self, update_ne, arith, ℕ_discrete, ==_ne,
}
use concurrent_queue_evaluat.Fifo.{
  Item, enqueue, dequeue, Answer, dequeued, Event, Phase, idle, removing, removed, called, Commit,
  put, take, meet_empty, Answers, enqueue_ends, dequeue_ends, dequeue_fails, Atomic, AtomicStep,
  AtomicReach,
}
use concurrent_queue_evaluat.Fifo.Kept.{
  History, last_call, pending, taken, has, inside, leaving, gone, InEffect, Keeps, Keeps-Reach,
}

Commit-met :
    {q q' : List Item} {p p' : Phase}
    → Commit q p q' p'
    → p' ≡ removing true
    → (q ≡ []) × ((x : Item) → p ≢ removed x)
Commit-met put e = absurd (cc)
Commit-met take e = absurd (cc)
Commit-met meet_empty e = (refl, λ x z. absurd (cc))

Answers-none : {p : Phase} {r : Answer} → Answers p r → r ≡ dequeued none → p ≡ removing true
Answers-none enqueue_ends e = absurd (cc)
Answers-none dequeue_ends e = absurd (cc)
Answers-none dequeue_fails e = refl

-- All calls have returned before thread `k` calls `dequeue`, and thread `i` has added `x` by its last
-- call.
module _ (k i : ℕ) (x : Item) (h : History) (asked : last_call i h ≡ some (enqueue x))
    (other : i ≢ k) (quiet : (j : ℕ) → pending j h ≡ false) where
  -- The queue is empty in that call only if `x` has been taken.
  met_empty-taken :
      {b : Atomic} {q : List Item} {p : Phase}
      → Keeps b
      → b.history ≡ Event.call k dequeue ∷ h
      → Commit b.items (b.phase k) q p
      → p ≡ removing true
      → taken x h ≡ true
  unfolding last_call pending taken has
  met_empty-taken {b} w e c m =
      let (none_in, not_left) = Commit-met c m in
      let idle_of : (j : ℕ) → k ≢ j → b.phase j ≡ idle =
        λ j n. w.returned j (ap (pending j) e ∙ rw (==_ne k j n) (quiet j)) in
      let mine : last_call i b.history ≡ some (enqueue x) =
        ap (last_call i) e ∙ rw (==_ne k i (λ z. other (sym z))) asked in
      elim (w.kept i x mine (subst InEffect (sym (idle_of i (λ z. other (sym z)))) tt)) [
        | inside t ↦ absurd (ground (arith, none_in))
        | leaving j z ↦ elim (ℕ_discrete k j) [
          | yes y ↦ absurd (not_left x (ap b.phase y ∙ z))
          | no n ↦ let idle_j = idle_of j n in absurd (cc)
        ]
        | gone t ↦ sym (ap (taken x) e) ∙ t
      ]

  phase-taken :
      {a : Atomic}
      → AtomicReach a
      → a.history ≡ Event.call k dequeue ∷ h
      → a.phase k ≡ removing true
      → taken x h ≡ true
  phase-taken AtomicReach.start e m = absurd (cc)
  phase-taken (AtomicReach.later {a = b} r (AtomicStep.call j o ready)) e m =
      let same : j ≡ k = cc in
      let asks : o ≡ dequeue = cc in
      let now : update b.phase j (called o) k ≡ called o =
        subst (λ z. update b.phase j (called o) z ≡ called o) same
          (update_self b.phase j (called o)) in
      let fresh : called o ≡ removing false = ap called asks in absurd (cc)
  phase-taken (AtomicReach.later {a = b} r (AtomicStep.commit j {q} {p} c)) e m =
      elim (ℕ_discrete j k) [
        | yes z ↦
            let now = subst (λ y. update b.phase j p y ≡ p) z (update_self b.phase j p) in
            met_empty-taken (Keeps-Reach r) e (subst (λ y. Commit b.items (b.phase y) q p) z c)
              (sym now ∙ m)
        | no n ↦ phase-taken r e (sym (update_ne b.phase j k p n) ∙ m)
      ]
  phase-taken (AtomicReach.later {a = b} r (AtomicStep.return j w)) e m = absurd (cc)

  -- A call of `dequeue` fails after that only if `x` has been taken.
  pub refused-taken :
      {a : Atomic}
      → AtomicReach a
      → a.history ≡ Event.return k (dequeued none) ∷ Event.call k dequeue ∷ h
      → taken x h ≡ true
  refused-taken AtomicReach.start e = absurd (cc)
  refused-taken (AtomicReach.later r (AtomicStep.call j o ready)) e = absurd (cc)
  refused-taken (AtomicReach.later r (AtomicStep.commit j c)) e = refused-taken r e
  refused-taken (AtomicReach.later {a = b} r (AtomicStep.return j {r = ans} w)) e =
      let same : j ≡ k = cc in
      let before : b.history ≡ Event.call k dequeue ∷ h = cc in
      let failed : ans ≡ dequeued none = cc in
      phase-taken r before (subst (λ z. b.phase z ≡ removing true) same (Answers-none w failed))
