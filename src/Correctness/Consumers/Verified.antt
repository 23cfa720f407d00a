-- ===== src/Correctness/Consumers/Verified.antt =====
-- The check of src/correctness.cc and what it stands for.
use concurrent_queue_evaluat.Base.{
  ℕ, ◌*◌, ◌/◌, ◌<◌, ◌≡◌, refl, ◌∙◌, sym, ap, inl, inr, Bool-cases, true, none, List, [], ◌∷◌, ◌++◌,
  ltb, if◌then◌else◌, arith,
}
use mathlib.Core.Logic.{◌↔◌}
use native.Mathlib.Nat.{div-lt_iff_lt-mul}
use concurrent_queue_evaluat.Correctness.Consumers.{
  Verdict, passed, failed, undefined, and_then, verify, verify_orders, flatten, equal,
  generate_items,
}
use concurrent_queue_evaluat.Correctness.Consumers.Order.{
  All, Increasing, verify_order-holds, verify_order-passes,
}
use concurrent_queue_evaluat.Correctness.Consumers.Counts.{
  count, Sorted, All-of_count, count-generate_items, equal-eq, equal_self, Sorted-generate_items,
}

and_then-cases : (a b : Verdict) → and_then a b ≡ passed → (a ≡ passed) × (b ≡ passed)
and_then-cases passed b h = (refl, h)
and_then-cases failed b h = absurd (cc)
and_then-cases undefined b h = absurd (cc)

All-append : (P : ℕ → Type 0) (xs ys : List ℕ) → All P (xs ++ ys) → All P xs × All P ys
All-append P [] ys a = (tt, a)
All-append P (x ∷ xs) ys (p, a) = let (b, c) = All-append P xs ys a in ((p, b), c)

always : (P : ℕ → Type 0) (xs : List ℕ) → ((x : ℕ) → P x) → All P xs
always P [] f = tt
always P (x ∷ xs) f = (f x, always P xs f)

verify_orders-holds :
    (per n : ℕ) (consumed : List (List ℕ))
    → verify_orders per n consumed ≡ passed
    → All (λ v. Increasing per v) consumed
unfolding verify_orders
verify_orders-holds per n [] h = tt
verify_orders-holds per n (v ∷ consumed) h =
    let (first, rest) = and_then-cases _ _ h in
    ((verify_order-holds per n (λ _. none) v first).1, verify_orders-holds per n consumed rest)

verify_orders-passes :
    (per n : ℕ) (consumed : List (List ℕ))
    → All (λ x. x / per < n) (flatten consumed)
    → All (λ v. Increasing per v) consumed
    → verify_orders per n consumed ≡ passed
unfolding verify_orders flatten
verify_orders-passes per n [] r a = refl
verify_orders-passes per n (v ∷ consumed) r (i, a) =
    let (here, later) = All-append (λ x. x / per < n) v (flatten consumed) r in
    rw (verify_order-passes per n (λ _. none) v here (always _ v λ x. refl) i)
      (verify_orders-passes per n consumed later a)

module _ (sort : List ℕ → List ℕ) (per n : ℕ) (consumed : List (List ℕ)) where
  abbrev Once : Type 0
  Once = (x : ℕ) → count x (flatten consumed) ≡ (if ltb x (n * per) then 1 else 0)

  holds :
      ((x : ℕ) (xs : List ℕ) → count x (sort xs) ≡ count x xs)
      → verify sort per n consumed ≡ passed
      → All (λ v. Increasing per v) consumed × Once
  holds counts h =
      let (orders, same) = and_then-cases _ _ h in
      let equals : equal (sort (flatten consumed)) (generate_items (n * per) 0) ≡ true =
        elim (Bool-cases (equal (sort (flatten consumed)) (generate_items (n * per) 0))) [
          | inl e ↦ e
          | inr e ↦ absurd (cc (e, same))
        ] in
      (
        verify_orders-holds per n consumed orders,
        λ x.
            sym (counts x (flatten consumed))
            ∙ (ap (count x) (equal-eq (sort (flatten consumed)) (generate_items (n * per) 0) equals)
                ∙ (count-generate_items (n * per) 0 x ∙ ground arith)),
      )

  passes :
      ((xs : List ℕ) → Sorted (sort xs))
      → ((x : ℕ) (xs : List ℕ) → count x (sort xs) ≡ count x xs)
      → 0 < per
      → All (λ v. Increasing per v) consumed × Once
      → verify sort per n consumed ≡ passed
  passes sorted counts pos (orders, once) =
      let in_range : All (λ x. x / per < n) (flatten consumed) =
        All-of_count (flatten consumed) λ x h. (div-lt_iff_lt-mul pos).1 (ground (arith, once x)) in
      let all_there : sort (flatten consumed) ≡ generate_items (n * per) 0 =
        Sorted-generate_items (n * per) 0 (sort (flatten consumed)) (sorted (flatten consumed))
          λ x. counts x (flatten consumed) ∙ (once x ∙ ground arith) in
      rw
        (
          verify_orders-passes per n consumed in_range orders,
          all_there,
          equal_self (generate_items (n * per) 0),
        )
        refl

-- The check passes exactly where each consumer took the values of each producer in increasing order
-- and the consumers together took each item exactly once and nothing else, if `sort` returns a
-- sorted list with the same counts.
pub verify_iff :
    (sort : List ℕ → List ℕ) (per n : ℕ) (consumed : List (List ℕ))
    → ((xs : List ℕ) → Sorted (sort xs))
    → ((x : ℕ) (xs : List ℕ) → count x (sort xs) ≡ count x xs)
    → 0 < per
    → (verify sort per n consumed ≡ passed) ↔ (
        All (λ v. Increasing per v) consumed
        × ((x : ℕ) → count x (flatten consumed) ≡ (if ltb x (n * per) then 1 else 0)))
verify_iff sort per n consumed sorted counts pos =
    (holds sort per n consumed counts, passes sort per n consumed sorted counts pos)
