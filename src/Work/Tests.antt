-- ===== src/Work/Tests.antt =====
-- Runs of work.hpp, and its theorems at them.
use concurrent_queue_evaluat.Base.{ℕ, ◌+◌, ◌-◌, ◌*◌, ◌^◌, ◌≤◌, ◌<◌, ◌≡◌, refl, arith}
use concurrent_queue_evaluat.Work.{work_step, do_work, cal_iters, calibrate_work_iters}
use concurrent_queue_evaluat.Work.Laws.{do_work-injective, calibrate-fits}

first_state : do_work 22 1 ≡ (22 * 6364136223846793005 + 9754186451795953191) - 8 * 2 ^ 64
unfolding do_work work_step
first_state = refl

do_work-injective_example : ◌≡◌ {A = ℕ} 22 22
do_work-injective_example = do_work-injective 22 22 3 (omega arith) (omega arith) refl

calibrate-fits_example :
    (80 * 2_500_000 ≤ cal_iters * 100) × (cal_iters * 100 < (80 + 1) * 2_500_000)
unfolding calibrate_work_iters
calibrate-fits_example =
    calibrate-fits (λ state iters. 2_500_000) 100 80 (omega arith) (omega arith) refl
