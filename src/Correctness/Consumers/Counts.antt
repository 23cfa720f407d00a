-- ===== src/Correctness/Consumers/Counts.antt =====
-- A sorted list that holds each number of a range once is the range.
use concurrent_queue_evaluat.Base.{
  ℕ, zero, suc, ◌+◌, ◌<◌, ◌≤◌, ◌≡◌, refl, subst, Bool-cases, true, ◌&&◌, inl, inr, List, [], ◌∷◌,
  ◌++◌, ltb, leb, ◌==◌, ==_eq, ==_self, ==_ne, if◌then◌else◌, ℕ_discrete, arith,
}
use concurrent_queue_evaluat.Correctness.Consumers.{generate_items, equal}
use concurrent_queue_evaluat.Correctness.Consumers.Order.{All}

unfoldable pub count : ℕ → List ℕ → ℕ
count x [] = 0
count x (y ∷ ys) = (if y == x then 1 else 0) + count x ys

unfoldable pub Sorted : List ℕ → Type 0
Sorted [] = Unit
Sorted (x ∷ xs) = All (λ y. x ≤ y) xs × Sorted xs

-- Whether `x` is one of `n` numbers from `i` on, as a number.
abbrev pub within : (n i x : ℕ) → ℕ
within n i x = if leb i x && ltb x (i + n) then 1 else 0

-- What holds of all that a list contains.
pub All-of_count : {P : ℕ → Type 0} (xs : List ℕ) → ((x : ℕ) → 0 < count x xs → P x) → All P xs
unfolding count
All-of_count [] f = tt
All-of_count (y ∷ ys) f =
    (f y (ground (arith, ==_self y)), All-of_count ys λ x h. f x (omega arith))

pub at_count : (P : ℕ → Type 0) (xs : List ℕ) → All P xs → (x : ℕ) → 0 < count x xs → P x
unfolding count
at_count P [] a x h = absurd (omega arith)
at_count P (y ∷ ys) (p, a) x h = elim (ℕ_discrete y x) [
  | yes e ↦ subst P e p
  | no ne ↦ at_count P ys a x (ground (arith, ==_ne y x ne))
]

pub count-append : (x : ℕ) (ys zs : List ℕ) → count x (ys ++ zs) ≡ count x ys + count x zs
unfolding count
count-append x [] zs = omega arith
count-append x (y ∷ ys) zs = ground (arith, count-append x ys zs)

pub count-generate_items : (n i x : ℕ) → count x (generate_items n i) ≡ within n i x
unfolding count generate_items
count-generate_items zero i x = ground arith
count-generate_items (suc n) i x = ground (arith, count-generate_items n (i + 1) x)

pub equal-eq : (xs ys : List ℕ) → equal xs ys ≡ true → xs ≡ ys
unfolding equal
equal-eq [] [] h = refl
equal-eq [] (y ∷ ys) h = absurd (cc)
equal-eq (x ∷ xs) [] h = absurd (cc)
equal-eq (x ∷ xs) (y ∷ ys) h = elim (Bool-cases (x == y)) [
  | inl e ↦ let rest = equal-eq xs ys (rw e at h) in rw (==_eq x y e, rest) refl
  | inr ne ↦ absurd (cc)
]

pub equal_self : (xs : List ℕ) → equal xs xs ≡ true
unfolding equal
equal_self [] = refl
equal_self (x ∷ xs) = rw (==_self x) (equal_self xs)

-- The first of a sorted list that holds a range is the range's first.
pub Sorted-generate_items :
    (n i : ℕ) (xs : List ℕ)
    → Sorted xs
    → ((x : ℕ) → count x xs ≡ within n i x)
    → xs ≡ generate_items n i
unfolding count Sorted generate_items
Sorted-generate_items zero i [] s h = refl
Sorted-generate_items zero i (y ∷ ys) s h = absurd (ground (arith, h y, ==_self y))
Sorted-generate_items (suc n) i [] s h = absurd (ground (arith, h i))
Sorted-generate_items (suc n) i (y ∷ ys) (le, s) h =
    let lo : i ≤ y = ground (arith, h y, ==_self y) in
    let hi : y ≤ i = elim (ℕ_discrete y i) [
      | yes e ↦ omega arith
      | no ne ↦ at_count (λ z. y ≤ z) ys le i (ground (arith, h i, ==_ne y i ne))
    ] in
    let first : y ≡ i = omega arith in
    let rest = Sorted-generate_items n (i + 1) ys s λ x. ground (arith, h x, first) in
    rw (first, rest) refl
