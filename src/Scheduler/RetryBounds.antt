-- ===== src/Scheduler/RetryBounds.antt =====
-- `retryDelay` of backend/internal/daemon/scheduler/scheduler.go is exponential backoff with a
-- ceiling.
use expensor.Prelude.{
  ℕ, zero, suc, ◌-◌, ◌*◌, ◌/◌, ◌%◌, ◌^◌, ◌≤◌, ◌<◌, ◌≡◌, false, min, arith, ltb, leb, if◌then◌else◌,
}
use native.Mathlib.Nat.{pow-suc}
use expensor.Scheduler.{Settings, retry_delay, double_delay}

pow_pos : (k : ℕ) → 1 ≤ 2 ^ k
pow_pos zero = omega arith
pow_pos (suc k) = grind (arith, pow-suc 2 k, pow_pos k)

grow : (d k : ℕ) → d * 2 ^ suc k ≡ d * 2 * 2 ^ k
grow d k = rw pow-suc (grind arith)

at_least : (a k : ℕ) → a ≤ a * 2 ^ k
at_least a k = grind (arith, pow_pos k)

-- A delay that is doubled is below half of the ceiling, so nothing wraps.
double_exact : (d m : ℕ) → m < 2 ^ 63 → leb (m / 2) d ≡ false → (d * 2) % 2 ^ 64 ≡ d * 2
double_exact d m h lt = ground arith

double_delay-le : (k d m : ℕ) → double_delay k d m ≤ m
unfolding double_delay
double_delay-le zero d m = ground arith
double_delay-le (suc k) d m = ground (arith, double_delay-le k ((d * 2) % 2 ^ 64) m)

double_delay-ge : (k d m : ℕ) → m < 2 ^ 63 → min m (d * 2 ^ k) ≤ double_delay k d m
unfolding double_delay
double_delay-ge zero d m b = ground arith
double_delay-ge (suc k) d m b =
    ground (arith, double_exact d m b, double_delay-ge k (d * 2) m b, grow d k, at_least d (suc k))

double_delay-even : (k d m h : ℕ) → m ≡ h * 2 → m < 2 ^ 63 → double_delay k d m ≡ min m (d * 2 ^ k)
unfolding double_delay
double_delay-even zero d m h e b = ground arith
double_delay-even (suc k) d m h e b = ground (
  arith,
  double_exact d m b,
  double_delay-even k (d * 2) m h e b,
  grow d k,
  at_least d (suc k),
  at_least (d * 2) k,
)

-- With a ceiling that an int64 can hold, the delay of the nth retry is at least base * 2^(n - 1)
-- or the ceiling, whichever is less, and never above the ceiling.
pub retry_delay_bounds :
    (s : Settings) (n : ℕ)
    → s.max_retry_delay < 2 ^ 63
    → (min s.max_retry_delay (s.base_retry_delay * 2 ^ (n - 1)) ≤ retry_delay s n)
      × (retry_delay s n ≤ s.max_retry_delay)
unfolding retry_delay
retry_delay_bounds s n b = (
  rw rounds_eq (double_delay-ge (n - 1) s.base_retry_delay s.max_retry_delay b),
  double_delay-le _ s.base_retry_delay s.max_retry_delay,
)
  where
    rounds_eq : (if ltb n 1 then 1 else n) - 1 ≡ n - 1
    rounds_eq = ground arith

-- With an even ceiling that an int64 can hold, the delay of the nth retry is exactly
-- base * 2^(n - 1), cut at the ceiling.
pub retry_delay_exact :
    (s : Settings) (n h : ℕ)
    → s.max_retry_delay ≡ h * 2
    → s.max_retry_delay < 2 ^ 63
    → retry_delay s n ≡ min s.max_retry_delay (s.base_retry_delay * 2 ^ (n - 1))
unfolding retry_delay
retry_delay_exact s n h e b =
    rw rounds_eq (double_delay-even (n - 1) s.base_retry_delay s.max_retry_delay h e b)
  where
    rounds_eq : (if ltb n 1 then 1 else n) - 1 ≡ n - 1
    rounds_eq = ground arith
