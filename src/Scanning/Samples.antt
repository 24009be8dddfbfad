-- ===== src/Scanning/Samples.antt =====
-- Two tenants, one of them in backoff.
use expensor.Prelude.{ℕ, ◌≡◌, refl, true, false, none, some, [], ◌∷◌}
use expensor.Result.{ok}
use expensor.Scanning.{
  TenantScanningState, ScanningStateUpdate, queued, backing_off, running, no_reason,
  temporary_failure, Table, written, find_row, require_tenant_id, update_scanning_state,
}
use expensor.Scanning.Writes.{set_scanning_enabled, set_active_scanning_reader}
use expensor.Scanning.Listing.{select_runnable}
use expensor.Scanning.Runnable.{
  row_runnable, set_scanning_enabled-paused, set_active_scanning_reader-runnable,
}

abbrev pub waiting : TenantScanningState
waiting = record {
  tenant_id = "t1";
  active_reader = "gmail";
  enabled = true;
  state = backing_off;
  reason_code = temporary_failure;
  public_message = "Scanning hit a temporary problem. We will retry automatically.";
  last_started_at = some 10;
  last_stopped_at = none;
  last_failed_at = some 12;
  next_retry_at = some 72;
  retry_count = 1;
  updated_at = 12;
}

abbrev pub ready : TenantScanningState
ready = record waiting {
  tenant_id = "t2";
  state = queued;
  next_retry_at = none;
  retry_count = 0;
  updated_at = 5;
}

abbrev pub two_tenants : Table
two_tenants = waiting ∷ ready ∷ []

abbrev mark_running : ScanningStateUpdate
mark_running = record {
  state = running;
  reason_code = no_reason;
  public_message = "";
  last_started_at = some 20;
  last_stopped_at = none;
  last_failed_at = none;
  next_retry_at = none;
  retry_count = none;
}

runnable_before_retry : select_runnable 71 two_tenants ≡ ready ∷ []
unfolding select_runnable
runnable_before_retry = refl

runnable_at_retry : select_runnable 72 two_tenants ≡ ready ∷ waiting ∷ []
unfolding select_runnable
runnable_at_retry = refl

canonical : require_tenant_id "t2" ≡ ok "t2"
unfolding require_tenant_id expensor.Prelude.Text.trim_space
canonical = refl

set_scanning_enabled-paused_example :
    let rows = written two_tenants (set_scanning_enabled none 20 "t2" false two_tenants) in
    (row_runnable 90 (find_row "t2" rows) ≡ false)
    × (row_runnable 90
          (find_row "t2" (written rows (update_scanning_state none 21 "t2" mark_running rows)))
        ≡ false)
set_scanning_enabled-paused_example =
    set_scanning_enabled-paused 20 21 90 "t2" mark_running two_tenants canonical

set_active_scanning_reader-runnable_example :
    row_runnable 13 (
      find_row "t2"
        (written two_tenants (set_active_scanning_reader none 13 "t2" " gmail " two_tenants)))
    ≡ true
unfolding expensor.Prelude.Text.trim_space
set_active_scanning_reader-runnable_example =
    set_active_scanning_reader-runnable 13 13 "t2" " gmail " two_tenants canonical refl
