-- ===== src/Correctness/Tests.antt =====
-- The theorems about src/correctness.cc at runs of it.
use concurrent_queue_evaluat.Base.{
  ℕ, ◌≤◌, ◌≡◌, ◌≢◌, ◌+◌, ◌*◌, refl, ◌∙◌, ap, inl, inr, Bool-cases, none, some, List, [], ◌∷◌, ltb,
  leb, ◌==◌, if◌then◌else◌, arith,
}
use mathlib.Core.Logic.{◌↔◌}
use concurrent_queue_evaluat.Fifo.{Op}
use concurrent_queue_evaluat.Machine.Schedule.{Run, check_none, run, Turn, calls, goes}
use concurrent_queue_evaluat.Mutex
use concurrent_queue_evaluat.Mutex.Linearizable.{mutex_linearizable}
use concurrent_queue_evaluat.Correctness.{passed, failed, test_single_enqueue_dequeue}
use concurrent_queue_evaluat.Correctness.Single.{Ran, begins, enqueues, dequeues}
use concurrent_queue_evaluat.Correctness.Passes.{single, single_tests-ne-failed}
use concurrent_queue_evaluat.Correctness.Consumers
use concurrent_queue_evaluat.Correctness.Consumers.{Verdict, verify, flatten}
use concurrent_queue_evaluat.Correctness.Consumers.Order.{All, All-map, Increasing}
use concurrent_queue_evaluat.Correctness.Consumers.Counts.{count, Sorted}
use concurrent_queue_evaluat.Correctness.Consumers.Verified.{verify_iff}

-- `test_single_enqueue_dequeue` on a MutexQueue, with the variable at the address 7.
abbrev turns : List (Turn Op)
turns =
    calls 0 (Op.enqueue 7)
    ∷ goes 0 2
    ∷ goes 0 9
    ∷ goes 0 9
    ∷ goes 0 9
    ∷ calls 0 Op.dequeue
    ∷ goes 0 9
    ∷ goes 0 9
    ∷ goes 0 9
    ∷ goes 0 9
    ∷ calls 0 Op.dequeue
    ∷ goes 0 9
    ∷ goes 0 9
    ∷ goes 0 9
    ∷ []

demo : Run Mutex.machine (λ m p. check_none (m.nodes p)) Mutex.create
unfolding run check_none
demo = run Mutex.machine (λ m p. check_none (m.nodes p)) Mutex.create turns

demo-Ran : Ran (test_single_enqueue_dequeue 7 (λ _. 0)) demo.last.history passed
unfolding demo Mutex.move Mutex.begin Mutex.acquire Mutex.deref
demo-Ran = dequeues none (dequeues (some 7) (enqueues begins))

single_tests-ne-failed_example : passed ≢ failed
single_tests-ne-failed_example =
    single_tests-ne-failed Mutex.machine Mutex.create demo.last (λ s r. mutex_linearizable r)
      (single 7 (λ _. 0)) demo.reach demo-Ran

-- A `sort`.
insert : ℕ → List ℕ → List ℕ
insert x [] = x ∷ []
insert x (y ∷ ys) = let rest = insert x ys in if leb x y then x ∷ y ∷ ys else y ∷ rest

sort : List ℕ → List ℕ
sort [] = []
sort (x ∷ xs) = insert x (sort xs)

count-insert :
    (z x : ℕ) (ys : List ℕ) → count z (insert x ys) ≡ (if x == z then 1 else 0) + count z ys
unfolding insert count
count-insert z x [] = refl
count-insert z x (y ∷ ys) = elim (Bool-cases (leb x y)) [
  | inl e ↦ rw e refl
  | inr e ↦ rw e (ground (arith, count-insert z x ys))
]

count-sort : (z : ℕ) (xs : List ℕ) → count z (sort xs) ≡ count z xs
unfolding sort count
count-sort z [] = refl
count-sort z (x ∷ xs) =
    count-insert z x (sort xs) ∙ ap (λ n. (if x == z then 1 else 0) + n) (count-sort z xs)

All-insert : (b x : ℕ) (ys : List ℕ) → b ≤ x → All (λ y. b ≤ y) ys → All (λ y. b ≤ y) (insert x ys)
unfolding insert
All-insert b x [] h a = (h, a)
All-insert b x (y ∷ ys) h (p, a) = elim (Bool-cases (leb x y)) [
  | inl e ↦ rw e (h, (p, a))
  | inr e ↦ rw e (p, All-insert b x ys h a)
]

insert-Sorted : (x : ℕ) (ys : List ℕ) → Sorted ys → Sorted (insert x ys)
unfolding insert Sorted
insert-Sorted x [] s = (tt, tt)
insert-Sorted x (y ∷ ys) (a, s) = elim (Bool-cases (leb x y)) [
  | inl e ↦
      let le : x ≤ y = ground (arith, e) in rw e ((le, All-map ys (λ z h. omega arith) a), (a, s))
  | inr e ↦
      let le : y ≤ x = ground (arith, e) in rw e (All-insert y x ys le a, insert-Sorted x ys s)
]

sort-Sorted : (xs : List ℕ) → Sorted (sort xs)
unfolding sort Sorted
sort-Sorted [] = tt
sort-Sorted (x ∷ xs) = insert-Sorted x (sort xs) (sort-Sorted xs)

-- Two consumers, two producers of two items each.
abbrev taken : List (List ℕ)
taken = (0 ∷ 2 ∷ 1 ∷ []) ∷ (3 ∷ []) ∷ []

verify_iff_example : (verify sort 2 2 taken ≡ Verdict.passed) ↔ (
    All (λ v. Increasing 2 v) taken
    × ((x : ℕ) → count x (flatten taken) ≡ (if ltb x (2 * 2) then 1 else 0)))
verify_iff_example = verify_iff sort 2 2 taken sort-Sorted count-sort (omega arith)

taken_passes : verify sort 2 2 taken ≡ Verdict.passed
unfolding sort insert Consumers.verify_order Consumers.verify_orders Consumers.flatten
    Consumers.equal Consumers.generate_items
taken_passes = refl
