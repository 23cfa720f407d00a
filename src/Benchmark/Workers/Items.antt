-- ===== src/Benchmark/Workers/Items.antt =====
-- Where an item of src/benchmark.cc is, and how far the workers are.
use concurrent_queue_evaluat.Base.{
  ℕ, ◌+◌, ◌*◌, ◌<◌, ◌≡◌, ◌≢◌, ◌∙◌, sym, ap, subst, ◌⊎◌, true, inl, inr, List, update, update_self,
  update_ne, ℕ_discrete, at_or_else, arith,
}
use concurrent_queue_evaluat.Fifo.Kept.{has}
use concurrent_queue_evaluat.Benchmark.Workers.{
  TestItem, Place, starts, adds, stamps, tries, asks, took, ends, finished, State,
}
use concurrent_queue_evaluat.Benchmark.Workers.Writes.{
  Written, Grows, Out, Grows-start, Grows-done, Grows-out, Grows-Out,
}

-- An item that has been added is in the queue, or in a worker's hand, or its time points are written.
pub data Kept (items : ℕ → TestItem) (queue : List ℕ) (worker : ℕ → Place) (x : ℕ) : Type 0 where
  inside : has x queue ≡ true → Kept items queue worker x
  held : (j i t0 : ℕ) → worker j ≡ took i x t0 → Kept items queue worker x
  ending :
      (j i : ℕ)
      → worker j ≡ ends i x
      → Written (λ d. d.dequeue_start) (items x)
      → Kept items queue worker x
  out : Out (items x) → Kept items queue worker x

-- How far a worker is, in steps.
abbrev pub rank : (m : ℕ) → Place → ℕ
rank m (starts i) = 7 * i
rank m (adds i) = 7 * i + 1
rank m (stamps i) = 7 * i + 2
rank m (tries i) = 7 * i + 3
rank m (asks i t0) = 7 * i + 4
rank m (took i x t0) = 7 * i + 5
rank m (ends i x) = 7 * i + 6
rank m finished = 7 * m

abbrev pub InRound : (m : ℕ) → Place → Type 0
InRound m (starts i) = i < m
InRound m (adds i) = i < m
InRound m (stamps i) = i < m
InRound m (tries i) = i < m
InRound m (asks i t0) = i < m
InRound m (took i x t0) = i < m
InRound m (ends i x) = i < m
InRound m finished = Unit

pub record Stamped (m : ℕ) (s : State) (n : ℕ) : Type 0 where
  pub rounds : (t : ℕ) → InRound m (s.worker t)
  pub started :
      (t i : ℕ)
      → t < n
      → i < m
      → 7 * i < rank m (s.worker t)
      → Written (λ d. d.enqueue_start) (s.items (t * m + i))
  pub added :
      (t i : ℕ)
      → t < n
      → i < m
      → 7 * i + 2 < rank m (s.worker t)
      → Written (λ d. d.enqueue_done) (s.items (t * m + i))
  pub kept :
      (t i : ℕ)
      → t < n
      → i < m
      → 7 * i + 1 < rank m (s.worker t)
      → Kept s.items s.queue s.worker (t * m + i)

updated :
    (P : ℕ → Place → Type 0) (w : ℕ → Place) (t : ℕ) (p : Place)
    → P t p
    → ((j : ℕ) → P j (w j))
    → (j : ℕ) → P j (update w t p j)
updated P w t p h f =
    at_or_else {P = λ j. P j (update w t p j)} t (subst (P t) (sym (update_self w t p)) h)
      λ j n. subst (P j) (sym (update_ne w t j p n)) (f j)

-- A step of worker `t` to the place `p`: what is new, and that it loses no item.
module _ {m n : ℕ} {s : State} (t : ℕ) (p : Place) (items : ℕ → TestItem) (queue : List ℕ)
    (b : Stamped m s n) where
  pub Stamped-moved :
      InRound m p
      → ((y : ℕ) → Grows (s.items y) (items y))
      → ((i : ℕ)
          → i < m
          → 7 * i < rank m p
          → (7 * i < rank m (s.worker t)) ⊎ Written (λ d. d.enqueue_start) (items (t * m + i)))
      → ((i : ℕ)
          → i < m
          → 7 * i + 2 < rank m p
          → (7 * i + 2 < rank m (s.worker t)) ⊎ Written (λ d. d.enqueue_done) (items (t * m + i)))
      → ((i : ℕ)
          → i < m
          → 7 * i + 1 < rank m p
          → (7 * i + 1 < rank m (s.worker t)) ⊎ Kept items queue (update s.worker t p) (t * m + i))
      → ((x : ℕ) → Kept s.items s.queue s.worker x → Kept items queue (update s.worker t p) x)
      → Stamped m (record { items = items; queue = queue; worker = update s.worker t p }) n
  Stamped-moved r g ns na nk keep = record {
    rounds = updated (λ j q. InRound m q) s.worker t p r b.rounds;
    started =
        let old = λ (j i : ℕ) (jn : j < n) (im : i < m) (lt : 7 * i < rank m (s.worker j)).
          Grows-start (g (j * m + i)) (b.started j i jn im lt) in
        updated
          (λ j q.
            (i : ℕ)
            → j < n
            → i < m
            → 7 * i < rank m q
            → Written (λ d. d.enqueue_start) (items (j * m + i)))
          s.worker t p
          (λ i jn im lt. elim (ns i im lt) [ inl le ↦ old t i jn im le | inr new ↦ new ]) old;
    added =
        let old = λ (j i : ℕ) (jn : j < n) (im : i < m) (lt : 7 * i + 2 < rank m (s.worker j)).
          Grows-done (g (j * m + i)) (b.added j i jn im lt) in
        updated
          (λ j q.
            (i : ℕ)
            → j < n
            → i < m
            → 7 * i + 2 < rank m q
            → Written (λ d. d.enqueue_done) (items (j * m + i)))
          s.worker t p
          (λ i jn im lt. elim (na i im lt) [ inl le ↦ old t i jn im le | inr new ↦ new ]) old;
    kept =
        let old = λ (j i : ℕ) (jn : j < n) (im : i < m) (lt : 7 * i + 1 < rank m (s.worker j)).
          keep (j * m + i) (b.kept j i jn im lt) in
        updated
          (λ j q.
            (i : ℕ)
            → j < n
            → i < m
            → 7 * i + 1 < rank m q
            → Kept items queue (update s.worker t p) (j * m + i))
          s.worker t p
          (λ i jn im lt. elim (nk i im lt) [ inl le ↦ old t i jn im le | inr new ↦ new ]) old;
  }

-- The items are kept where worker `t` has none in its hand.
pub Kept-moved :
    {items items' : ℕ → TestItem} {queue queue' : List ℕ} {worker : ℕ → Place} (t : ℕ) (p : Place)
    → ((i x t0 : ℕ) → worker t ≢ took i x t0)
    → ((i x : ℕ) → worker t ≢ ends i x)
    → ((y : ℕ) → Grows (items y) (items' y))
    → ((x : ℕ)
        → has x queue ≡ true
        → (has x queue' ≡ true) ⊎ ((i : ℕ) × (t0 : ℕ) × (p ≡ took i x t0)))
    → (x : ℕ) → Kept items queue worker x
    → Kept items' queue' (update worker t p) x
Kept-moved {worker} t p free idle g q x (inside h) = elim (q x h) [
  | inl still ↦ inside still
  | inr (i, t0, e) ↦ held t i t0 (update_self worker t p ∙ e)
]
Kept-moved {worker} t p free idle g q x (held j i t0 e) =
    held j i t0 (update_ne worker t j p (λ z. free i x t0 (ap worker z ∙ e)) ∙ e)
Kept-moved {worker} t p free idle g q x (ending j i e w) =
    ending j i (update_ne worker t j p (λ z. idle i x (ap worker z ∙ e)) ∙ e) (Grows-out (g x) w)
Kept-moved t p free idle g q x (out o) = out (Grows-Out (g x) o)

-- They are kept where it has written the first time point of the one that it had.
pub Kept-took :
    {items items' : ℕ → TestItem} {queue : List ℕ} {worker : ℕ → Place} (t i got t0 : ℕ)
    → worker t ≡ took i got t0
    → ((y : ℕ) → Grows (items y) (items' y))
    → Written (λ d. d.dequeue_start) (items' got)
    → (x : ℕ) → Kept items queue worker x
    → Kept items' queue (update worker t (ends i got)) x
Kept-took t i got t0 e g o x (inside h) = inside h
Kept-took {items'} {worker} t i got t0 e g o x (held j k u f) = elim (ℕ_discrete t j) [
  | yes z ↦
      let same : got ≡ x = ground (arith, e, f, ap worker z) in
      ending t i (update_self worker t (ends i got) ∙ ap (ends i) same)
        (subst (λ y. Written (λ d. d.dequeue_start) (items' y)) same o)
  | no ne ↦ held j k u (update_ne worker t j (ends i got) ne ∙ f)
]
Kept-took {worker} t i got t0 e g o x (ending j k f w) =
    ending j k (update_ne worker t j (ends i got) (λ z. let same = ap worker z in absurd (cc)) ∙ f)
      (Grows-out (g x) w)
Kept-took t i got t0 e g o x (out w) = out (Grows-Out (g x) w)

-- They are kept where it has written the second one.
pub Kept-ends :
    {items items' : ℕ → TestItem} {queue : List ℕ} {worker : ℕ → Place} (t i got : ℕ) (p : Place)
    → worker t ≡ ends i got
    → ((y : ℕ) → Grows (items y) (items' y))
    → Written (λ d. d.dequeue_done) (items' got)
    → (x : ℕ) → Kept items queue worker x
    → Kept items' queue (update worker t p) x
Kept-ends t i got p e g o x (inside h) = inside h
Kept-ends {worker} t i got p e g o x (held j k u f) =
    held j k u (update_ne worker t j p (λ z. let same = ap worker z in absurd (cc)) ∙ f)
Kept-ends {items'} {worker} t i got p e g o x (ending j k f w) = elim (ℕ_discrete t j) [
  | yes z ↦
      let same : got ≡ x = ground (arith, e, f, ap worker z) in
      out (Grows-out (g x) w, subst (λ y. Written (λ d. d.dequeue_done) (items' y)) same o)
  | no ne ↦ ending j k (update_ne worker t j p ne ∙ f) (Grows-out (g x) w)
]
Kept-ends t i got p e g o x (out w) = out (Grows-Out (g x) w)
