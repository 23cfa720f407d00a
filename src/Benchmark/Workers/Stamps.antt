-- ===== src/Benchmark/Workers/Stamps.antt =====
-- When the workers of src/benchmark.cc have finished, the time points of the sampled items are written.
use concurrent_queue_evaluat.Base.{
  ℕ, ◌+◌, ◌*◌, ◌<◌, ◌≤◌, ◌≡◌, ◌≢◌, refl, ◌∙◌, sym, ap, subst, Bool, Bool-cases, true, inl, inr,
  none, some, List, [], ◌∷◌, ◌++◌, ltb, ◌==◌, ==_eq, if◌then◌else◌, update, ℕ_discrete, dec_lt,
  arith,
}
use concurrent_queue_evaluat.Fifo.Kept.{has, has-append}
use concurrent_queue_evaluat.Benchmark.Workers.{
  TestItem, write, Place, starts, adds, stamps, tries, asks, took, ends, finished, State, round,
  act, receive, initial, Reached, start, step,
}
use concurrent_queue_evaluat.Benchmark.Workers.Waiting.{Reached-Balanced, finished-empty}
use concurrent_queue_evaluat.Benchmark.Workers.Writes.{
  Written, Grows-refl, Grows-write, Written-write, Out,
}
use concurrent_queue_evaluat.Benchmark.Workers.Items.{
  Kept, inside, held, ending, out, rank, InRound, Stamped, Stamped-moved, Kept-moved, Kept-took,
  Kept-ends,
}

rank-round : (m i : ℕ) → i ≤ m → rank m (round m i) ≡ 7 * i
unfolding round
rank-round m i h = elim (Bool-cases (ltb i m)) [
  | inl e ↦ rw e refl
  | inr e ↦ let last : i ≡ m = ground (arith, e) in rw e (omega (arith, last))
]

InRound-round : (m i : ℕ) → InRound m (round m i)
unfolding round
InRound-round m i = elim (Bool-cases (ltb i m)) [
  | inl e ↦ rw e (ground (arith, e))
  | inr e ↦ rw e tt
]

module _ {m n : ℕ} {s : State} (t now : ℕ) (b : Stamped m s n) where
  at_round : {p : Place} → s.worker t ≡ p → InRound m p
  at_round e = subst (InRound m) e (b.rounds t)

  -- A step that writes nothing.
  turns :
      {p : Place}
      → s.worker t ≡ p
      → (p' : Place) → InRound m p'
      → ((j : ℕ) → j < m → 7 * j < rank m p' → 7 * j + 2 < rank m p)
      → ((i x t0 : ℕ) → s.worker t ≢ took i x t0)
      → ((i x : ℕ) → s.worker t ≢ ends i x)
      → Stamped m (record s { worker = update s.worker t p' }) n
  turns e p' r near free idle =
      let k = ap (rank m) e in
      Stamped-moved t p' s.items s.queue b r (λ y. Grows-refl (s.items y))
        (λ j jm lt. let h = near j jm lt in inl (omega (arith, k)))
        (λ j jm lt. let h = near j jm (omega arith) in inl (omega (arith, k)))
        (λ j jm lt. let h = near j jm (omega arith) in inl (omega (arith, k)))
        (Kept-moved t p' free idle (λ y. Grows-refl (s.items y)) λ x h. inl h)

  Stamped-receive :
      (i t0 : ℕ) (q : List ℕ)
      → s.worker t ≡ asks i t0
      → s.queue ≡ q
      → Stamped m (receive t i t0 q s) n
  unfolding receive has
  Stamped-receive i t0 [] e z =
      turns e (tries i) (at_round e) (λ j jm lt. omega arith) (λ i x u f. absurd (cc))
        (λ i x f. absurd (cc))
  Stamped-receive i t0 (got ∷ queue) e z =
      let k = ap (rank m) e in
      Stamped-moved t (took i got t0) s.items queue b (at_round e) (λ y. Grows-refl (s.items y))
        (λ j jm lt. inl (omega (arith, k))) (λ j jm lt. inl (omega (arith, k)))
        (λ j jm lt. inl (omega (arith, k)))
        (Kept-moved t (took i got t0) (λ i x t0 f. absurd (cc)) (λ i x f. absurd (cc))
          (λ y. Grows-refl (s.items y))
          λ x h. elim (Bool-cases (got == x)) [
            | inl here ↦ inr (i, t0, ap (λ y. took i y t0) (==_eq got x here))
            | inr other ↦ inl (ground (arith, z, ap (has x) z, other))
          ])

  Stamped-act : (p : Place) → s.worker t ≡ p → Stamped m (act m t now p s) n
  unfolding act has
  Stamped-act finished e = b
  Stamped-act (starts i) e =
      let k = ap (rank m) e in
      let f = λ (d : TestItem). record d { enqueue_start = some now } in
      let items = write s.items (t * m + i) f in
      let g = Grows-write s.items (t * m + i) f λ d. record {
        mark = refl;
        enqueue_start = λ h z. absurd (cc);
        enqueue_done = λ h. h;
        dequeue_start = λ h. h;
        dequeue_done = λ h. h;
      } in
      Stamped-moved t (adds i) items s.queue b (at_round e) g
        (λ j jm lt. elim (ℕ_discrete i j) [
          | yes z ↦ inr (
              subst (λ j. Written (λ d. d.enqueue_start) (items (t * m + j))) z
                (Written-write (λ d. d.enqueue_start) s.items (t * m + i) f λ z. absurd (cc)))
          | no ne ↦ inl (omega (arith, k))
        ])
        (λ j jm lt. inl (omega (arith, k))) (λ j jm lt. inl (omega (arith, k)))
        (Kept-moved t (adds i) (λ i x t0 f. absurd (cc)) (λ i x f. absurd (cc)) g λ x h. inl h)
  Stamped-act (adds i) e =
      let k = ap (rank m) e in
      let queue = s.queue ++ (t * m + i) ∷ [] in
      Stamped-moved t (stamps i) s.items queue b (at_round e) (λ y. Grows-refl (s.items y))
        (λ j jm lt. inl (omega (arith, k))) (λ j jm lt. inl (omega (arith, k)))
        (λ j jm lt. elim (ℕ_discrete i j) [
          | yes z ↦ inr (
              subst (λ j. Kept s.items queue (update s.worker t (stamps i)) (t * m + j)) z
                (inside (ground (arith, has-append (t * m + i) (t * m + i) s.queue))))
          | no ne ↦ inl (omega (arith, k))
        ])
        (Kept-moved t (stamps i) (λ i x t0 f. absurd (cc)) (λ i x f. absurd (cc))
          (λ y. Grows-refl (s.items y))
          λ x h. inl (ground (arith, has-append x (t * m + i) s.queue)))
  Stamped-act (stamps i) e =
      let k = ap (rank m) e in
      let f = λ (d : TestItem). record d { enqueue_done = some now } in
      let items = write s.items (t * m + i) f in
      let g = Grows-write s.items (t * m + i) f λ d. record {
        mark = refl;
        enqueue_start = λ h. h;
        enqueue_done = λ h z. absurd (cc);
        dequeue_start = λ h. h;
        dequeue_done = λ h. h;
      } in
      Stamped-moved t (tries i) items s.queue b (at_round e) g (λ j jm lt. inl (omega (arith, k)))
        (λ j jm lt. elim (ℕ_discrete i j) [
          | yes z ↦ inr (
              subst (λ j. Written (λ d. d.enqueue_done) (items (t * m + j))) z
                (Written-write (λ d. d.enqueue_done) s.items (t * m + i) f λ z. absurd (cc)))
          | no ne ↦ inl (omega (arith, k))
        ])
        (λ j jm lt. inl (omega (arith, k)))
        (Kept-moved t (tries i) (λ i x t0 f. absurd (cc)) (λ i x f. absurd (cc)) g λ x h. inl h)
  Stamped-act (tries i) e =
      turns e (asks i now) (at_round e) (λ j jm lt. omega arith) (λ i x u f. absurd (cc))
        (λ i x f. absurd (cc))
  Stamped-act (asks i t0) e = Stamped-receive i t0 s.queue e refl
  Stamped-act (took i got t0) e =
      let k = ap (rank m) e in
      let f = λ (d : TestItem). record d { dequeue_start = some t0 } in
      let items = write s.items got f in
      let g = Grows-write s.items got f λ d. record {
        mark = refl;
        enqueue_start = λ h. h;
        enqueue_done = λ h. h;
        dequeue_start = λ h z. absurd (cc);
        dequeue_done = λ h. h;
      } in
      Stamped-moved t (ends i got) items s.queue b (at_round e) g
        (λ j jm lt. inl (omega (arith, k))) (λ j jm lt. inl (omega (arith, k)))
        (λ j jm lt. inl (omega (arith, k)))
        (Kept-took t i got t0 e g
          (Written-write (λ d. d.dequeue_start) s.items got f (λ z. absurd (cc))))
  Stamped-act (ends i got) e =
      let k = ap (rank m) e in
      let r : i < m = at_round e in
      let k' = rank-round m (i + 1) (omega arith) in
      let f = λ (d : TestItem). record d { dequeue_done = some now } in
      let items = write s.items got f in
      let g = Grows-write s.items got f λ d. record {
        mark = refl;
        enqueue_start = λ h. h;
        enqueue_done = λ h. h;
        dequeue_start = λ h. h;
        dequeue_done = λ h z. absurd (cc);
      } in
      Stamped-moved t (round m (i + 1)) items s.queue b (InRound-round m (i + 1)) g
        (λ j jm lt. inl (omega (arith, k, k'))) (λ j jm lt. inl (omega (arith, k, k')))
        (λ j jm lt. inl (omega (arith, k, k')))
        (Kept-ends t i got (round m (i + 1)) e g
          (Written-write (λ d. d.dequeue_done) s.items got f (λ z. absurd (cc))))

initial-rank : (m n t : ℕ) (marks : ℕ → Bool) → t < n → rank m ((initial m n marks).worker t) ≡ 0
initial-rank m n t marks h =
    let yes' : ltb t n ≡ true = ground arith in
    ap (λ b. rank m (if b then round m 0 else finished)) yes' ∙ rank-round m 0 (omega arith)

Reached-Stamped : {m n : ℕ} {marks : ℕ → Bool} {s : State} → Reached m n marks s → Stamped m s n
Reached-Stamped {m} {n} {marks} start = record {
  rounds = λ t. elim (Bool-cases (ltb t n)) [
    | inl e ↦ subst (λ b. InRound m (if b then round m 0 else finished)) (sym e) (InRound-round m 0)
    | inr e ↦ subst (λ b. InRound m (if b then round m 0 else finished)) (sym e) tt
  ];
  started = λ t i tn im lt. absurd (omega (arith, initial-rank m n t marks tn));
  added = λ t i tn im lt. absurd (omega (arith, initial-rank m n t marks tn));
  kept = λ t i tn im lt. absurd (omega (arith, initial-rank m n t marks tn));
}
Reached-Stamped (step {s} t now r) = Stamped-act t now (Reached-Stamped r) (s.worker t) refl

-- On a queue whose calls take effect at one moment and whatever the order of the workers' steps, where
-- all workers have finished, all four time points of each sampled item are written.
pub sampled_written :
    {m n : ℕ} {marks : ℕ → Bool} {s : State} (t i : ℕ)
    → Reached m n marks s
    → ((t : ℕ) → t < n → s.worker t ≡ finished)
    → t < n
    → i < m
    → (s.items (t * m + i)).should_sample ≡ true
    → ((s.items (t * m + i)).enqueue_start ≢ none)
      × ((s.items (t * m + i)).enqueue_done ≢ none)
      × ((s.items (t * m + i)).dequeue_start ≢ none)
      × ((s.items (t * m + i)).dequeue_done ≢ none)
unfolding has
sampled_written {m} {n} {s} t i r done tn im mark =
    let b = Reached-Stamped r in
    let k = ap (rank m) (done t tn) in
    let (h, l) = gone (b.kept t i tn im (omega (arith, k))) in
    (
      b.started t i tn im (omega (arith, k)) mark,
      b.added t i tn im (omega (arith, k)) mark,
      h mark,
      l mark,
    )
  where
    gone : Kept s.items s.queue s.worker (t * m + i) → Out (s.items (t * m + i))
    gone (inside h) =
        absurd
          (ground (arith, h, finished-empty r done, ap (has (t * m + i)) (finished-empty r done)))
    gone (held j k t0 e) = elim (dec_lt j n) [
      | yes lt ↦ absurd (cc (e, done j lt))
      | no le ↦ absurd (cc (e, (Reached-Balanced r).none_else j (omega arith)))
    ]
    gone (ending j k e w) = elim (dec_lt j n) [
      | yes lt ↦ absurd (cc (e, done j lt))
      | no le ↦ absurd (cc (e, (Reached-Balanced r).none_else j (omega arith)))
    ]
    gone (out o) = o
