-- ===== src/Benchmark/Tests.antt =====
-- The sampling of some runs.
use concurrent_queue_evaluat.Base.{◌*◌, ◌≤◌, ◌<◌, ◌+◌, ◌≡◌, refl, arith}
use concurrent_queue_evaluat.Benchmark.{stride, should_sample, sampled}
use concurrent_queue_evaluat.Benchmark.Sampling.{sampled_bounds, sampled_range}

-- With `max_samples` 10, all of 19 items are sampled.
over_the_limit : sampled (should_sample (stride 19 10) 19) ≡ 19
unfolding sampled should_sample stride
over_the_limit = refl

sampled_bounds_example :
    (10 ≤ sampled (should_sample 3 10) * 3) × (sampled (should_sample 3 10) * 3 < 10 + 3)
sampled_bounds_example = sampled_bounds 3 10 (omega arith)

sampled_range_example :
    (10 ≤ sampled (should_sample (stride 25 10) 25))
    × (sampled (should_sample (stride 25 10) 25) ≤ 2 * 10)
sampled_range_example = sampled_range 25 10 (omega arith) (omega arith)
