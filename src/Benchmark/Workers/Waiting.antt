-- ===== src/Benchmark/Workers/Waiting.antt =====
-- A worker of src/benchmark.cc that calls `dequeue` finds an item.
use concurrent_queue_evaluat.Base.{
  ℕ, zero, suc, ◌+◌, ◌*◌, ◌<◌, ◌≤◌, ◌≡◌, ◌≢◌, refl, ◌∙◌, sym, ap, Bool, Bool-cases, false, inl, inr,
  List, [], ◌∷◌, ◌++◌, ltb, update, update_self, update_ne, ℕ_discrete, dec_lt, arith,
}
use concurrent_queue_evaluat.Benchmark.Workers.{
  Place, starts, adds, stamps, tries, asks, took, ends, finished, State, round, act, receive,
  initial, Reached, start, step,
}

unfoldable pub length : List ℕ → ℕ
length [] = 0
length (x ∷ xs) = length xs + 1

length-append : (xs : List ℕ) (y : ℕ) → length (xs ++ y ∷ []) ≡ length xs + 1
unfolding length
length-append [] y = refl
length-append (x ∷ xs) y = ap (λ n. n + 1) (length-append xs y)

-- A worker that has added its item and taken none for it.
abbrev pub waits : Place → ℕ
waits (stamps i) = 1
waits (tries i) = 1
waits (asks i t0) = 1
waits _ = 0

unfoldable pub total : (ℕ → Place) → ℕ → ℕ
total w zero = 0
total w (suc n) = waits (w n) + total w n

total-above : (w : ℕ → Place) (t n : ℕ) (p : Place) → n ≤ t → total (update w t p) n ≡ total w n
unfolding total
total-above w t zero p h = refl
total-above w t (suc n) p h =
    ap (λ q. waits q + total (update w t p) n) (update_ne w t n p λ e. omega arith)
    ∙ ap (λ k. waits (w n) + k) (total-above w t n p (omega arith))

total-update :
    (w : ℕ → Place) (t n : ℕ) (p : Place)
    → t < n
    → total (update w t p) n + waits (w t) ≡ total w n + waits p
unfolding total
total-update w t zero p h = absurd (omega arith)
total-update w t (suc n) p h = elim (ℕ_discrete t n) [
  | yes e ↦
      let here : waits (update w t p n) ≡ waits p =
        ap waits (ap (update w t p) (sym e) ∙ update_self w t p) in
      let same : waits (w t) ≡ waits (w n) = ap (λ k. waits (w k)) e in
      omega (arith, here, same, total-above w t n p (omega arith))
  | no ne ↦
      let other : waits (update w t p n) ≡ waits (w n) = ap waits (update_ne w t n p ne) in
      omega (arith, other, total-update w t n p (omega arith))
]

waits-round : (n i : ℕ) → waits (round n i) ≡ 0
unfolding round
waits-round n i = elim (Bool-cases (ltb i n)) [ inl e ↦ rw e refl | inr e ↦ rw e refl ]

-- The items in the queue are as many as the workers that wait for one; there are `n` workers.
pub record Balanced (n : ℕ) (s : State) : Type 0 where
  pub items : length s.queue ≡ total s.worker n
  pub none_else : (t : ℕ) → n ≤ t → s.worker t ≡ finished

moved :
    {n : ℕ} {s : State} (t : ℕ) (p : Place) (queue : List ℕ)
    → t < n
    → Balanced n s
    → length queue + waits (s.worker t) ≡ length s.queue + waits p
    → (items : _)
    → Balanced n (record { items = items; queue = queue; worker = update s.worker t p })
moved {n} {s} t p queue lt b h items = record {
  items = omega (arith, total-update s.worker t n p lt, b.items, h);
  none_else = λ j le. update_ne s.worker t j p (λ e. omega arith) ∙ b.none_else j le;
}

in_range :
    {n : ℕ} {s : State} {p : Place} (t : ℕ) → Balanced n s → s.worker t ≡ p → p ≢ finished → t < n
in_range {n} t b e ne = elim (dec_lt t n) [
  | yes lt ↦ lt
  | no le ↦ absurd (ne (sym e ∙ b.none_else t (omega arith)))
]

module _ (m : ℕ) {n : ℕ} {s : State} (t now : ℕ) (b : Balanced n s) where
  Balanced-receive :
      (i t0 : ℕ) (q : List ℕ)
      → s.worker t ≡ asks i t0
      → s.queue ≡ q
      → Balanced n (receive t i t0 q s)
  unfolding receive length
  Balanced-receive i t0 [] e z =
      moved t (tries i) s.queue (in_range t b e (λ y. absurd (cc))) b
        (ap (λ p. length s.queue + waits p) e) _
  Balanced-receive i t0 (got ∷ queue) e z =
      moved t (took i got t0) queue (in_range t b e (λ y. absurd (cc))) b
        (omega (arith, ap waits e, ap length z)) _

  Balanced-act : (p : Place) → s.worker t ≡ p → Balanced n (act m t now p s)
  unfolding act
  Balanced-act finished e = b
  Balanced-act (starts i) e =
      moved t (adds i) s.queue (in_range t b e (λ z. absurd (cc))) b
        (ap (λ p. length s.queue + waits p) e) _
  Balanced-act (adds i) e =
      moved t (stamps i) _ (in_range t b e (λ z. absurd (cc))) b
        (omega (arith, length-append s.queue (t * m + i), ap waits e)) _
  Balanced-act (stamps i) e =
      moved t (tries i) s.queue (in_range t b e (λ z. absurd (cc))) b
        (ap (λ p. length s.queue + waits p) e) _
  Balanced-act (tries i) e =
      moved t (asks i now) s.queue (in_range t b e (λ z. absurd (cc))) b
        (ap (λ p. length s.queue + waits p) e) _
  Balanced-act (asks i t0) e = Balanced-receive i t0 s.queue e refl
  Balanced-act (took i got t0) e =
      moved t (ends i got) s.queue (in_range t b e (λ z. absurd (cc))) b
        (ap (λ p. length s.queue + waits p) e) _
  Balanced-act (ends i got) e =
      moved t (round m (i + 1)) s.queue (in_range t b e (λ z. absurd (cc))) b
        (omega (arith, waits-round m (i + 1), ap waits e)) _

module _ (m n : ℕ) (marks : ℕ → Bool) where
  initial-waits : (t : ℕ) → waits ((initial m n marks).worker t) ≡ 0
  initial-waits t = elim (Bool-cases (ltb t n)) [
    | inl e ↦ rw e (waits-round m 0)
    | inr e ↦ rw e refl
  ]

  total-initial : (k : ℕ) → total (initial m n marks).worker k ≡ 0
  unfolding total
  total-initial zero = refl
  total-initial (suc k) = omega (arith, initial-waits k, total-initial k)

  idle : (t : ℕ) → n ≤ t → (initial m n marks).worker t ≡ finished
  idle t le = let no : ltb t n ≡ false = ground arith in rw no refl

  initial-Balanced : Balanced n (initial m n marks)
  unfolding length
  initial-Balanced = record { items = sym (total-initial n); none_else = idle }

pub Reached-Balanced : {m n : ℕ} {marks : ℕ → Bool} {s : State} → Reached m n marks s → Balanced n s
Reached-Balanced {m} {n} {marks} start = initial-Balanced m n marks
Reached-Balanced {m} (step {s} t now r) =
    Balanced-act m t now (Reached-Balanced r) (s.worker t) refl

total-at : (w : ℕ → Place) (t n : ℕ) → t < n → waits (w t) ≤ total w n
unfolding total
total-at w t zero h = absurd (omega arith)
total-at w t (suc n) h = elim (ℕ_discrete t n) [
  | yes e ↦ let same = ap (λ k. waits (w k)) e in omega (arith, same)
  | no ne ↦ omega (arith, total-at w t n (omega arith))
]

total-finished : (w : ℕ → Place) (n : ℕ) → ((t : ℕ) → t < n → w t ≡ finished) → total w n ≡ 0
unfolding total
total-finished w zero h = refl
total-finished w (suc n) h =
    omega (arith, ap waits (h n (omega arith)), total-finished w n λ t lt. h t (omega arith))

length-zero : (q : List ℕ) → length q ≡ 0 → q ≡ []
unfolding length
length-zero [] h = refl
length-zero (x ∷ q) h = absurd (omega arith)

-- On a queue whose calls take effect at one moment and whatever the order of the workers' steps, a
-- worker that calls `dequeue` never finds the queue empty: it takes an item at its first attempt.
pub queue-ne-nil :
    {m n : ℕ} {marks : ℕ → Bool} {s : State} (t i t0 : ℕ)
    → Reached m n marks s
    → s.worker t ≡ asks i t0
    → s.queue ≢ []
unfolding length
queue-ne-nil {n} {s} t i t0 r e z =
    let b = Reached-Balanced r in
    let one = total-at s.worker t n (in_range t b e λ y. absurd (cc)) in
    absurd (omega (arith, one, ap waits e, b.items, ap length z))

-- Where all workers have finished, nothing is left in the queue.
pub finished-empty :
    {m n : ℕ} {marks : ℕ → Bool} {s : State}
    → Reached m n marks s
    → ((t : ℕ) → t < n → s.worker t ≡ finished)
    → s.queue ≡ []
finished-empty {n} {s} r done =
    let b = Reached-Balanced r in length-zero s.queue (b.items ∙ total-finished s.worker n done)
