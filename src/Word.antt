-- ===== src/Word.antt =====
-- 64-bit words as numbers below 2 ^ 64, and the words of lcr_queue.hpp and lpr_queue.hpp that hold a
-- flag in their top bit: `w & (1ULL << 63)`, `w & ~(1ULL << 63)`, and the two joined by `|`.
use concurrent_queue_evaluat.Base.{
  ℕ, ◌+◌, ◌-◌, ◌/◌, ◌%◌, ◌^◌, ◌<◌, ◌≡◌, Bool, true, false, ◌==◌, if◌then◌else◌, arith,
}

-- `x + k` and `x - k` in a `uint64_t`
unfoldable pub add64 : ℕ → ℕ → ℕ
add64 x k = (x + k) % 2 ^ 64

unfoldable pub sub64 : ℕ → ℕ → ℕ
sub64 x k = (x + 2 ^ 64 - k) % 2 ^ 64

unfoldable pub flag : ℕ → Bool
flag w = (w / 2 ^ 63 % 2) == 1

unfoldable pub number : ℕ → ℕ
number w = w % 2 ^ 63

unfoldable pub join : Bool → ℕ → ℕ
join b n = (if b then 2 ^ 63 else 0) + n % 2 ^ 63

pub flag-join : (b : Bool) (n : ℕ) → flag (join b n) ≡ b
unfolding flag join
flag-join true n = ground arith
flag-join false n = ground arith

pub number-join : (b : Bool) (n : ℕ) → number (join b n) ≡ n % 2 ^ 63
unfolding number join
number-join true n = omega arith
number-join false n = omega arith

pub join-flag-number : (w : ℕ) → w < 2 ^ 64 → join (flag w) (number w) ≡ w
unfolding flag number join
join-flag-number w h = ground arith
