-- ===== src/Scheduler/Samples.antt =====
-- The scheduler on the two tenants of Scanning/Samples.antt.
use expensor.Prelude.{
  ℕ, suc, ◌+◌, ◌-◌, ◌*◌, ◌^◌, ◌≤◌, min, max, String, ◌≡◌, refl, Bool, true, false, not, ◌&&◌, none,
  some, List, [], ◌∷◌, arith, All, length, contains, str_eq, leb,
}
use expensor.Prelude.Text.{is_blank}
use expensor.Prelude.Int.{pos}
use expensor.Errors.{Err, foreign, no_cause, is_error, canceled, deadline_exceeded}
use expensor.Errors.Build.{e, text, kind}
use expensor.Oauth
use expensor.Result.{ok}
use expensor.Scanning.{TenantScanningState, find_row, require_tenant_id}
use expensor.Scanning.Config.{SchedulerConfig}
use expensor.Scanning.Runnable.{row_runnable}
use expensor.Scanning.Samples.{waiting, ready, two_tenants}
use expensor.Scheduler.{Settings, new, retry_delay}
use expensor.Scheduler.Failure.{scan_error, failure_state_update}
use expensor.Scheduler.Classes.{classify, update_of, failure_state_update-scan_error}
use expensor.Scheduler.Run.{Episode, World, run_tenant}
use expensor.Scheduler.Reconcile.{
  Look, Outside, reconcile, start_listed, available_capacity, looks_of,
}
use expensor.Scheduler.RetryBounds.{retry_delay_bounds, retry_delay_exact}
use expensor.Scheduler.Backoff.{IsUndisturbed, run_tenant-failed, startable}
use expensor.Scheduler.Capacity.{reconcile_limit, start_listed-serves, IsServed}

abbrev settings : Settings
settings = record { poll_interval = 5; base_retry_delay = 60; max_retry_delay = 1000 }

new_accepts : new (pos 5) (pos 60) (pos 1000) ≡ ok settings
unfolding new
new_accepts = refl

delays : retry_delay settings 3 ≡ 240
unfolding retry_delay
delays = refl

retry_delay_bounds_example :
    (min 1000 (60 * 2 ^ (9 - 1)) ≤ retry_delay settings 9) × (retry_delay settings 9 ≤ 1000)
retry_delay_bounds_example = retry_delay_bounds settings 9 (omega arith)

retry_delay_exact_example : retry_delay settings 3 ≡ min 1000 (60 * 2 ^ (3 - 1))
retry_delay_exact_example = retry_delay_exact settings 3 500 (omega arith) (omega arith)

abbrev timed_out : Err
timed_out =
    foreign
      (record {
        text = "dial tcp: i/o timeout";
        error_kind = none;
        status_code = none;
        oauth_code = none;
      })
      no_cause

abbrev no_token_yet : Err
no_token_yet = e (text "oauth.new" ∷ kind Oauth.token_missing ∷ text "reader token missing" ∷ [])

failure_state_update-scan_error_example :
    failure_state_update settings (scan_error no_token_yet) 2 100
    ≡ update_of settings (classify no_token_yet) 2 100
failure_state_update-scan_error_example =
    failure_state_update-scan_error settings no_token_yet 2 100

abbrev episode : Episode
episode = record {
  started_at = 100;
  marked_at = 101;
  finished_at = 130;
  written_at = 131;
  mark_fault = none;
  write_fault = none;
  canceled_before = false;
  canceled_after = false;
  outcome = some (scan_error timed_out);
}

abbrev world : World
world = record { rows = two_tenants; running_tenants = "t2" ∷ [] }

calm_episode : IsUndisturbed episode
calm_episode = record { mark = refl; write = refl; before = refl; after = refl }

canonical_t2 : require_tenant_id "t2" ≡ ok "t2"
unfolding require_tenant_id expensor.Prelude.Text.trim_space
canonical_t2 = refl

not_canceled : is_error canceled timed_out ≡ false
unfolding is_error
not_canceled = refl

not_timed : is_error deadline_exceeded timed_out ≡ false
unfolding is_error
not_timed = refl

found_t2 : find_row "t2" two_tenants ≡ some ready
unfolding find_row
found_t2 = refl

run_tenant-failed_example :
    (row_runnable 190 (find_row "t2" (run_tenant settings episode ready world).rows)
      ≡ startable settings episode ready world timed_out canonical_t2 calm_episode refl not_canceled
          not_timed
          (classify timed_out)
          ready
          190)
    × ((k : String)
        → str_eq "t2" k ≡ false
        → (find_row k (run_tenant settings episode ready world).rows ≡ find_row k two_tenants)
          × (contains k (run_tenant settings episode ready world).running_tenants
              ≡ contains k ("t2" ∷ [])))
    × (contains "t2" (run_tenant settings episode ready world).running_tenants ≡ false)
run_tenant-failed_example =
    run_tenant-failed settings episode ready world timed_out canonical_t2 calm_episode refl
      not_canceled not_timed ready 190 found_t2

abbrev no_trouble : TenantScanningState → Look
no_trouble st = record { st = st; finished = []; fault = none; now = 200 }

abbrev outside : Outside
outside = record {
  is_user = λ t. true;
  users = ok [];
  ensure_fault = none;
  config_fault = none;
  list_fault = none;
  now = 200;
  look_at = no_trouble;
}

abbrev two_at_once : SchedulerConfig
two_at_once = record { max_concurrent_scans = 2; updated_at = 0 }

-- One scan runs already, so one more is started.
starts_one : (reconcile outside two_at_once world).started ≡ "t1" ∷ []
unfolding reconcile expensor.Scheduler.Reconcile.ensure_tenant_states start_listed looks_of
    expensor.Prelude.Text.trim_space
starts_one = refl

reconcile_limit_example :
    (length (reconcile outside two_at_once world).world.running_tenants
      ≤ max (length world.running_tenants) (max 1 2))
    × (length (reconcile outside two_at_once world).started
        ≤ max 1 2 - length world.running_tenants)
reconcile_limit_example = reconcile_limit outside two_at_once world

abbrev looks : List Look
looks = no_trouble ready ∷ no_trouble waiting ∷ []

pass_ends : (start_listed (available_capacity 5 ("t2" ∷ [])) looks world).failure ≡ none
unfolding start_listed available_capacity expensor.Prelude.Text.trim_space
pass_ends = refl

pass_has_room :
    suc (length (start_listed (available_capacity 5 ("t2" ∷ [])) looks world).started)
    ≤ available_capacity 5 ("t2" ∷ [])
unfolding start_listed available_capacity expensor.Prelude.Text.trim_space
pass_has_room = omega arith

start_listed-serves_example :
    All
      (IsServed ("t2" ∷ []) (start_listed (available_capacity 5 ("t2" ∷ [])) looks world).started)
      looks
start_listed-serves_example = start_listed-serves 5 looks world pass_ends pass_has_room
