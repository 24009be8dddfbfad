-- ===== src/Scheduler.antt =====
-- backend/internal/daemon/scheduler/scheduler.go: the settings of a scheduler and its retry delay.
-- Its other operations, and scan_runner.go, are in the modules below.
pub mod Failure
pub mod Run
pub mod Reconcile
pub mod RetryBounds
pub mod Classes
pub mod Backoff
pub mod Capacity
pub mod Samples
use expensor.Prelude.{
  ℕ, zero, suc, ◌-◌, ◌*◌, ◌/◌, ◌%◌, ◌^◌, Option, none, some, List, [], ◌∷◌, ltb, leb, if◌then◌else◌,
}
use expensor.Prelude.Int.{ℤ, positive}
use expensor.ErrorKind
use expensor.Errors.{Err}
use expensor.Errors.Build.{e, text, kind}
use expensor.Result.{Result, ok, fail, ◌>>=◌}
use Prim.Native.String.{String}

-- Durations in nanoseconds.
pub record Settings : Type 0 where
  pub poll_interval : ℕ
  pub base_retry_delay : ℕ
  pub max_retry_delay : ℕ

abbrev pub invalid : String → Err
invalid message = e (kind ErrorKind.invalid_input ∷ text message ∷ [])

abbrev pub require_positive : Option ℕ → String → Result ℕ
require_positive none message = fail (invalid message)
require_positive (some n) message = ok n

unfoldable pub require_order : Settings → Result Settings
require_order s =
    if ltb s.max_retry_delay s.base_retry_delay
    then fail (invalid "scheduler base retry delay must not exceed maximum retry delay")
    else ok s

-- `New`: the checks of the configuration. Clock and logger have no effect on the state.
unfoldable pub new : ℤ → ℤ → ℤ → Result Settings
unfolding require_order
new poll base max_delay = do
  p ← require_positive (positive poll) "scheduler poll interval must be positive"
  b ← require_positive (positive base) "scheduler base retry delay must be positive"
  m ← require_positive (positive max_delay) "scheduler maximum retry delay must be positive"
  require_order (record { poll_interval = p; base_retry_delay = b; max_retry_delay = m })

-- The loop of `retryDelay` with the rounds that are left, and the clamp behind it. A duration is an
-- int64, so the doubled delay is taken modulo 2 ^ 64.
unfoldable pub double_delay : ℕ → ℕ → ℕ → ℕ
double_delay zero delay max_delay = if ltb max_delay delay then max_delay else delay
double_delay (suc rounds) delay max_delay =
    let rest = double_delay rounds ((delay * 2) % 2 ^ 64) max_delay in
    if ltb delay max_delay
    then (if leb (max_delay / 2) delay then max_delay else rest)
    else if ltb max_delay delay
    then max_delay
    else delay

-- `retryDelay`: a count below 1 counts as 1, so the loop runs at most `retry_count - 1` rounds.
unfoldable pub retry_delay : Settings → ℕ → ℕ
unfolding double_delay
retry_delay s retry_count =
    double_delay ((if ltb retry_count 1 then 1 else retry_count) - 1) s.base_retry_delay
      s.max_retry_delay
