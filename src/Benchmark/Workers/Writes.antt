-- ===== src/Benchmark/Workers/Writes.antt =====
-- What a worker's step of src/benchmark.cc writes of an item.
use concurrent_queue_evaluat.Base.{
  ℕ, ◌≡◌, ◌≢◌, refl, ◌∙◌, sym, subst, Bool-cases, true, inl, inr, Option, none, if◌then◌else◌,
  update_self, update_ne, ℕ_discrete,
}
use concurrent_queue_evaluat.Benchmark.Workers.{TestItem, if_sampled, write}

-- The time point is written if the item is sampled.
abbrev pub Written : (TestItem → Option ℕ) → TestItem → Type 0
Written o d = d.should_sample ≡ true → o d ≢ none

-- No time point is lost.
pub record Grows (d d' : TestItem) : Type 0 where
  pub mark : d'.should_sample ≡ d.should_sample
  pub enqueue_start : d.enqueue_start ≢ none → d'.enqueue_start ≢ none
  pub enqueue_done : d.enqueue_done ≢ none → d'.enqueue_done ≢ none
  pub dequeue_start : d.dequeue_start ≢ none → d'.dequeue_start ≢ none
  pub dequeue_done : d.dequeue_done ≢ none → d'.dequeue_done ≢ none

pub Grows-refl : (d : TestItem) → Grows d d
Grows-refl d = record {
  mark = refl;
  enqueue_start = λ h. h;
  enqueue_done = λ h. h;
  dequeue_start = λ h. h;
  dequeue_done = λ h. h;
}

Grows-if_sampled :
    (f : TestItem → TestItem) (d : TestItem) → Grows d (f d) → Grows d (if_sampled f d)
Grows-if_sampled f d g = elim (Bool-cases d.should_sample) [
  | inl e ↦ subst (λ b. Grows d (if b then f d else d)) (sym e) g
  | inr e ↦ subst (λ b. Grows d (if b then f d else d)) (sym e) (Grows-refl d)
]

pub Grows-write :
    (items : ℕ → TestItem) (x : ℕ) (f : TestItem → TestItem)
    → ((d : TestItem) → Grows d (f d))
    → (y : ℕ) → Grows (items y) (write items x f y)
Grows-write items x f g y = elim (ℕ_discrete x y) [
  | yes e ↦
      subst (λ z. Grows (items z) (write items x f z)) e
        (subst (Grows (items x)) (sym (update_self items x (if_sampled f (items x))))
          (Grows-if_sampled f (items x) (g (items x))))
  | no ne ↦
      subst (Grows (items y)) (sym (update_ne items x y (if_sampled f (items x)) ne))
        (Grows-refl (items y))
]

Written-if_sampled :
    (o : TestItem → Option ℕ) (f : TestItem → TestItem) (d : TestItem)
    → o (f d) ≢ none
    → Written o (if_sampled f d)
Written-if_sampled o f d h = elim (Bool-cases d.should_sample) [
  | inl e ↦ subst (λ b. Written o (if b then f d else d)) (sym e) (λ m. h)
  | inr e ↦ subst (λ b. Written o (if b then f d else d)) (sym e) (λ m. absurd (cc))
]

pub Written-write :
    (o : TestItem → Option ℕ) (items : ℕ → TestItem) (x : ℕ) (f : TestItem → TestItem)
    → o (f (items x)) ≢ none
    → Written o (write items x f x)
Written-write o items x f h =
    subst (Written o) (sym (update_self items x (if_sampled f (items x))))
      (Written-if_sampled o f (items x) h)

-- Both time points of `dequeue`.
abbrev pub Out : TestItem → Type 0
Out d = Written (λ d. d.dequeue_start) d × Written (λ d. d.dequeue_done) d

pub Grows-out :
    {d d' : TestItem}
    → Grows d d'
    → Written (λ d. d.dequeue_start) d
    → Written (λ d. d.dequeue_start) d'
Grows-out g h = λ m. g.dequeue_start (h (sym g.mark ∙ m))

pub Grows-Out : {d d' : TestItem} → Grows d d' → Out d → Out d'
Grows-Out g (h, k) =
    (λ m. g.dequeue_start (h (sym g.mark ∙ m)), λ m. g.dequeue_done (k (sym g.mark ∙ m)))

pub Grows-start :
    {d d' : TestItem}
    → Grows d d'
    → Written (λ d. d.enqueue_start) d
    → Written (λ d. d.enqueue_start) d'
Grows-start g h = λ m. g.enqueue_start (h (sym g.mark ∙ m))

pub Grows-done :
    {d d' : TestItem}
    → Grows d d'
    → Written (λ d. d.enqueue_done) d
    → Written (λ d. d.enqueue_done) d'
Grows-done g h = λ m. g.enqueue_done (h (sym g.mark ∙ m))
