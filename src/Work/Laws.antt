-- ===== src/Work/Laws.antt =====
-- The states of the busy work, and the rounds that the calibration chooses.
use concurrent_queue_evaluat.Base.{
  ℕ, zero, suc, ◌+◌, ◌-◌, ◌*◌, ◌/◌, ◌%◌, ◌^◌, ◌<◌, ◌≤◌, ◌≡◌, sym, ap, ◌∙◌, some, arith,
}
use concurrent_queue_evaluat.Work.{
  increment, work_step, do_work, cal_iters, calibrate_work_iters, warm_state,
}

-- The inverse of the multiplier modulo 2 ^ 64.
abbrev inverse : ℕ
inverse = 13877824140714322085

undo : ℕ → ℕ
undo x = ((x + 2 ^ 64 - increment) * inverse) % 2 ^ 64

undo-work_step : (s : ℕ) → s < 2 ^ 64 → undo (work_step s) ≡ s
unfolding undo work_step
undo-work_step s h = omega arith

work_step-lt : (s : ℕ) → work_step s < 2 ^ 64
unfolding work_step
work_step-lt s = omega arith

-- Different 64-bit seeds stay different: `do_work` loses none of the state.
pub do_work-injective :
    (s s' n : ℕ) → s < 2 ^ 64 → s' < 2 ^ 64 → do_work s n ≡ do_work s' n → s ≡ s'
unfolding do_work
do_work-injective s s' zero h h' e = e
do_work-injective s s' (suc n) h h' e =
    let steps : work_step s ≡ work_step s' =
      do_work-injective (work_step s) (work_step s') n (work_step-lt s) (work_step-lt s') e in
    sym (undo-work_step s h) ∙ ap undo steps ∙ undo-work_step s' h'

div_bounds : (a b : ℕ) → 0 < b → (a / b * b ≤ a) × (a < (a / b + 1) * b)
div_bounds a b h = (grind arith, grind arith)

-- Where the target is not 0 and the product fits into 64 bits, the calibrated number of rounds is the
-- largest whose time, at the speed measured in the run after the warm-up, is at most the target.
pub calibrate-fits :
    (elapsed : (state iters : ℕ) → ℕ) (target_ns iters : ℕ)
    → cal_iters * target_ns < 2 ^ 64
    → 0 < target_ns
    → calibrate_work_iters elapsed target_ns ≡ some iters
    → (iters * elapsed warm_state cal_iters ≤ cal_iters * target_ns)
      × (cal_iters * target_ns < (iters + 1) * elapsed warm_state cal_iters)
unfolding calibrate_work_iters
calibrate-fits elapsed target iters h pos e =
    let ns = elapsed warm_state cal_iters in ground (arith, div_bounds (cal_iters * target) ns)
