-- ===== src/Scanning/Config.antt =====
-- The scheduler's configuration row: GetSchedulerConfig and PatchSchedulerConfig of
-- backend/internal/store/postgres/scanning_repository.go.
use expensor.Prelude.{ℕ, ◌||◌, Option, none, some, [], ◌∷◌, ltb, if◌then◌else◌}
use expensor.ErrorKind
use expensor.Errors.{Err}
use expensor.Errors.Build.{e, text, kind}
use expensor.Result.{Result, fail}
use expensor.Scanning.{exec}

pub record SchedulerConfig : Type 0 where
  pub max_concurrent_scans : ℕ
  pub updated_at : ℕ

-- GetSchedulerConfig and PatchSchedulerConfig, on the one row of `scheduler_config`.
unfoldable pub get_scheduler_config : Option Err → SchedulerConfig → Result SchedulerConfig
unfolding exec
get_scheduler_config fault cfg =
    exec fault "postgres.scanning.get_scheduler_config" "getting scheduler config" cfg

unfoldable pub patch_scheduler_config :
    Option Err → ℕ → Option ℕ → SchedulerConfig → Result SchedulerConfig
unfolding get_scheduler_config exec
patch_scheduler_config fault now none cfg = get_scheduler_config fault cfg
patch_scheduler_config fault now (some n) cfg =
    if ltb n 1 || ltb 64 n
    then fail (
        e (
          kind ErrorKind.invalid_input ∷ text "max concurrent scans must be between 1 and 64" ∷ []))
    else exec fault "postgres.scanning.patch_scheduler_config" "patching scheduler config"
        (record { max_concurrent_scans = n; updated_at = now })
