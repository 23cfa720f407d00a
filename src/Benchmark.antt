-- ===== src/Benchmark.antt =====
-- src/benchmark.cc: which items `run_performance_test` marks for sampling.
pub mod Sampling
pub mod Workers
mod Tests
use concurrent_queue_evaluat.Base.{
  ℕ, zero, suc, ◌+◌, ◌*◌, ◌/◌, ◌%◌, Bool, true, false, ◌&&◌, List, [], ◌∷◌, ◌++◌, ◌==◌, ltb,
  if◌then◌else◌,
}

-- `stride`: every how many items one is sampled.
unfoldable pub stride : (count max_samples : ℕ) → ℕ
stride count max_samples =
    if ltb 0 max_samples && ltb max_samples count then count / max_samples else 1

-- `items[i].should_sample` for the first `count` items.
unfoldable pub should_sample : (stride count : ℕ) → List Bool
should_sample stride zero = []
should_sample stride (suc i) = should_sample stride i ++ ((i % stride) == 0) ∷ []

-- `sampled` of `test_summary`: the number of items whose mark is set.
unfoldable pub sampled : List Bool → ℕ
sampled [] = 0
sampled (b ∷ bs) = (if b then 1 else 0) + sampled bs
