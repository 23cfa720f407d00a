-- ===== src/Work.antt =====
-- include/work.hpp: the busy work between queue operations and its calibration. The clock is a
-- parameter: the nanoseconds that a run of the loop takes, by its first state and its rounds.
pub mod Laws
mod Tests
use concurrent_queue_evaluat.Base.{
  ℕ, zero, suc, ◌+◌, ◌*◌, ◌/◌, ◌%◌, ◌^◌, Option, none, some, ◌==◌, if◌then◌else◌,
}

abbrev pub multiplier : ℕ
multiplier = 6364136223846793005

abbrev pub increment : ℕ
increment = 9754186451795953191

-- The body of the loop, in a `uint64_t`.
unfoldable pub work_step : ℕ → ℕ
work_step state = (state * multiplier + increment) % 2 ^ 64

unfoldable pub do_work : (state iters : ℕ) → ℕ
do_work state zero = state
do_work state (suc iters) = do_work (work_step state) iters

abbrev pub cal_iters : ℕ
cal_iters = 2_000_000

-- The state after the warm-up, from which the timed run starts.
abbrev pub warm_state : ℕ
warm_state = do_work 22 cal_iters

-- `none` is the division by zero, where the clock shows no time.
unfoldable pub calibrate_work_iters : (elapsed : (state iters : ℕ) → ℕ) (target_ns : ℕ) → Option ℕ
calibrate_work_iters elapsed target_ns =
    if target_ns == 0
    then some 0
    else (let ns = elapsed warm_state cal_iters in
        if ns == 0 then none else some ((cal_iters * target_ns) % 2 ^ 64 / ns))
