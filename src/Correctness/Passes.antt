-- ===== src/Correctness/Passes.antt =====
-- The tests of src/correctness.cc with one thread do not fail on a linearizable queue.
use concurrent_queue_evaluat.Base.{
  ℕ, zero, suc, ◌+◌, ◌≤◌, ◌<◌, ◌≡◌, ◌≢◌, refl, ◌∙◌, sym, ap, subst, Bool, true, List, [], ◌∷◌, ◌++◌,
  ◌==◌, ==_self, update, update_self, update_ne, ℕ_discrete, arith,
}
use mathlib.Core.List.{append-nil, append_assoc}
use concurrent_queue_evaluat.Fifo.{Item, Op, Answer, Atomic, AtomicReach}
use concurrent_queue_evaluat.Machine.{Machine, System, Reach}
use concurrent_queue_evaluat.Correctness.{
  Program, failed, Ints, check, test_dequeue_empty_returns_false, test_single_enqueue_dequeue,
  push_items, enqueue_items, expect_items, test_queue_is_fifo, test_enqueue_after_empty,
}
use concurrent_queue_evaluat.Correctness.Single.{Ran, passes, atomic-passes}

passes-check :
    (q : List Item) (t : Program) {b : Bool} → b ≡ true → passes q (check b t) ≡ passes q t
passes-check q t e = ap (λ c. passes q (check c t)) e

module _ (items : ℕ) where
  push_items-before :
      (n i k : ℕ) (ints : Ints) → k < i → push_items items n i ints (items + k) ≡ ints (items + k)
  unfolding push_items
  push_items-before zero i k ints h = refl
  push_items-before (suc n) i k ints h =
      push_items-before n (i + 1) k _ (omega arith)
      ∙ update_ne ints (items + i) (items + k) i (λ e. omega arith)

  -- The vector's element `k` is `k`.
  push_items-at :
      (n i k : ℕ) (ints : Ints) → i ≤ k → k < i + n → push_items items n i ints (items + k) ≡ k
  unfolding push_items
  push_items-at zero i k ints lo h = absurd (omega arith)
  push_items-at (suc n) i k ints lo h = elim (ℕ_discrete i k) [
    | yes e ↦
        ap (λ j. push_items items n (i + 1) (update ints (items + i) i) (items + j)) (sym e)
        ∙ (push_items-before n (i + 1) i _ (omega arith) ∙ (update_self ints (items + i) i ∙ e))
    | no ne ↦ push_items-at n (i + 1) k _ (omega arith) (omega arith)
  ]

  -- The addresses of `n` elements from `i` on.
  addresses : ℕ → ℕ → List Item
  addresses zero i = []
  addresses (suc n) i = (items + i) ∷ addresses n (i + 1)

  passes-enqueue_items :
      (n i : ℕ) (q : List Item) (rest : Program)
      → passes q (enqueue_items items n i rest) ≡ passes (q ++ addresses n i) rest
  unfolding passes enqueue_items addresses
  passes-enqueue_items zero i q rest = ap (λ l. passes l rest) (sym (append-nil q))
  passes-enqueue_items (suc n) i q rest =
      passes-enqueue_items n (i + 1) (q ++ (items + i) ∷ []) rest
      ∙ ap (λ l. passes l rest) (append_assoc q ((items + i) ∷ []) (addresses n (i + 1)))

  passes-expect_items :
      (ints : Ints) (n i : ℕ)
      → ((k : ℕ) → i ≤ k → k < i + n → ints (items + k) ≡ k)
      → passes (addresses n i) (expect_items ints n i) ≡ true
  unfolding passes expect_items addresses
  passes-expect_items ints zero i h = refl
  passes-expect_items ints (suc n) i h =
      let here : (ints (items + i) == i) ≡ true =
        ap (λ z. z == i) (h i (omega arith) (omega arith)) ∙ ==_self i in
      passes-check (addresses n (i + 1)) (expect_items ints n (i + 1)) here
      ∙ passes-expect_items ints n (i + 1) λ k lo lt. h k (omega arith) (omega arith)

  fifo-passes : (n : ℕ) (ints : Ints) → passes [] (test_queue_is_fifo n items ints) ≡ true
  fifo-passes n ints =
      passes-enqueue_items n 0 [] _
      ∙ passes-expect_items (push_items items n 0 ints) n 0
          λ k lo lt. push_items-at n 0 k ints lo lt

dequeue_empty-passes : passes [] test_dequeue_empty_returns_false ≡ true
unfolding passes
dequeue_empty-passes = refl

single-passes : (a : Item) (ints : Ints) → passes [] (test_single_enqueue_dequeue a ints) ≡ true
unfolding passes
single-passes a ints = passes-check [] _ (==_self (update ints a 10 a))

after_empty-passes :
    (a b c : Item) (ints : Ints) → passes [] (test_enqueue_after_empty a b c ints) ≡ true
unfolding passes
after_empty-passes a b c ints =
    let v = update (update (update ints a 1) b 2) c 3 in
    passes-check (b ∷ []) _ (==_self (v a))
    ∙ (passes-check [] _ (==_self (v b)) ∙ passes-check [] _ (==_self (v c)))

-- The tests with one thread.
pub data SingleTest : Program → Type 0 where
  dequeue_empty : SingleTest test_dequeue_empty_returns_false
  single : (a : Item) (ints : Ints) → SingleTest (test_single_enqueue_dequeue a ints)
  is_fifo : (n items : ℕ) (ints : Ints) → SingleTest (test_queue_is_fifo n items ints)
  after_empty : (a b c : Item) (ints : Ints) → SingleTest (test_enqueue_after_empty a b c ints)

SingleTest-passes : {t : Program} → SingleTest t → passes [] t ≡ true
SingleTest-passes dequeue_empty = dequeue_empty-passes
SingleTest-passes (single a ints) = single-passes a ints
SingleTest-passes (is_fifo n items ints) = fifo-passes items n ints
SingleTest-passes (after_empty a b c ints) = after_empty-passes a b c ints

-- On a class whose histories are those of the atomic queue, no test with one thread fails an
-- assertion, for any addresses of its variables and any number of items.
pub single_tests-ne-failed :
    (q : Machine Op Answer) (m : q.Mem) (s : System q) {t u : Program}
    → ((s : System q) → Reach q m s → (a : Atomic) × AtomicReach a × (a.history ≡ s.history))
    → SingleTest t
    → Reach q m s
    → Ran t s.history u
    → u ≢ failed
single_tests-ne-failed q m s {t} {u} linearizable test r run =
    let (a, reach, same) = linearizable s r in
    atomic-passes (SingleTest-passes test) reach (subst (λ h. Ran t h u) (sym same) run)
