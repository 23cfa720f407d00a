-- ===== src/Benchmark/Sampling.antt =====
-- How many items are sampled.
use concurrent_queue_evaluat.Base.{
  ℕ, zero, suc, ◌+◌, ◌*◌, ◌/◌, ◌%◌, ◌≤◌, ◌<◌, ◌≡◌, ◌≢◌, refl, ap, ◌∙◌, Bool, List, [], ◌∷◌, ◌++◌,
  ◌==◌, ltb, arith, ◌&&◌, true, dec_lt, ==_eq, Bool-cases, inl, inr,
}
use native.Mathlib.Nat.{mul-le-mul_right}
use concurrent_queue_evaluat.Benchmark.{stride, should_sample, sampled}

sampled-append : (xs ys : List Bool) → sampled (xs ++ ys) ≡ sampled xs + sampled ys
unfolding sampled
sampled-append [] ys = omega arith
sampled-append (x ∷ xs) ys = omega (arith, sampled-append xs ys)

-- A multiple of the stride within one stride of another is the same one.
near_multiple : (d s q : ℕ) → q * d ≤ s * d → s * d < q * d + d → s ≡ q
near_multiple d s q lo hi = grind arith

next_multiple : (d s i : ℕ) → 0 < d → i ≤ s * d → s * d < i + d → i % d ≡ 0 → s * d ≡ i
next_multiple d s i pos lo hi e =
    let whole : i / d * d ≡ i = grind arith in
    let same = near_multiple d s (i / d) (omega arith) (omega arith) in ap (λ z. z * d) same ∙ whole

not_multiple : (d s i : ℕ) → 0 < d → i % d ≢ 0 → s * d ≢ i
not_multiple d s i pos ne e = grind arith

-- With a stride of `d`, not 0, the samples are a `d`-th of the items, rounded up.
pub sampled_bounds :
    (d count : ℕ)
    → 0 < d
    → (count ≤ sampled (should_sample d count) * d)
      × (sampled (should_sample d count) * d < count + d)
unfolding should_sample sampled
sampled_bounds d zero h = (omega arith, omega arith)
sampled_bounds d (suc i) h =
    let s = sampled (should_sample d i) in
    let (lo, hi) = sampled_bounds d i h in
    rw (sampled-append (should_sample d i) (((i % d) == 0) ∷ []))
      (elim (Bool-cases ((i % d) == 0)) [
        | inl z ↦
            let here : s * d ≡ i = next_multiple d s i h lo hi (==_eq _ _ z) in
            let more : (s + (1 + 0)) * d ≡ i + d = grind arith in
            rw z (omega (arith, more), omega (arith, more))
        | inr nz ↦
            let off : s * d ≢ i = not_multiple d s i h (λ e. absurd (ground arith)) in
            let same : (s + (0 + 0)) * d ≡ s * d = grind arith in
            rw nz (omega (arith, same, off), omega (arith, same))
      ])

range_below : (d count max s : ℕ) → 0 < max → d ≡ count / max → count ≤ s * d → 0 < d → max ≤ s
range_below d count max s pos e lo h = let under : max * d ≤ s * d = grind arith in grind arith

range_above :
    (d count max s : ℕ) → 0 < max → d ≡ count / max → s * d < count + d → 0 < d → s ≤ 2 * max
range_above d count max s pos e hi h =
    let over : count < d * max + max = grind arith in
    let least : max ≤ d * max = grind arith in
    elim (dec_lt (2 * max) s) [
      | no small ↦ omega arith
      | yes big ↦
          let far : (2 * max + 1) * d ≤ s * d = mul-le-mul_right d (omega (arith, big)) in
          let expand : (2 * max + 1) * d ≡ 2 * (d * max) + d = grind arith in
          absurd (omega (arith, far, expand))
    ]

-- Where `max_samples` is not 0 and there are more items than `max_samples`, at least `max_samples` items
-- are sampled and at most twice as many.
pub sampled_range :
    (count max_samples : ℕ)
    → 0 < max_samples
    → max_samples < count
    → (max_samples ≤ sampled (should_sample (stride count max_samples) count))
      × (sampled (should_sample (stride count max_samples) count) ≤ 2 * max_samples)
unfolding stride
sampled_range count max pos more =
    let d = count / max in
    let test : (ltb 0 max && ltb max count) ≡ true = ground arith in
    let some_stride : 0 < d = grind arith in
    let (lo, hi) = sampled_bounds d count some_stride in
    rw test (
      range_below d count max _ pos refl lo some_stride,
      range_above d count max _ pos refl hi some_stride,
    )
