-- ===== src/Scheduler/Run.antt =====
-- `runTenant` of backend/internal/daemon/scheduler/scheduler.go: one scan of a tenant, from the
-- mark `running` to the state that its outcome gives. What the outside decides is in `Episode`: the
-- clocks, the scan's outcome, the database's faults, and when the run's context was cancelled. A
-- database call under a cancelled context returns the context's error and changes nothing.
use expensor.Prelude.{
  ℕ, String, Bool, true, false, ◌||◌, Option, none, some, List, erase, if◌then◌else◌,
}
use expensor.Errors.{Err, context_canceled, is_error, canceled, deadline_exceeded}
use expensor.Result.{Result, ok, fail}
use expensor.Scanning.{
  TenantScanningState, ScanningStateUpdate, queued, running, no_reason, Table,
  update_scanning_state, written,
}
use expensor.Scheduler.{Settings}
use expensor.Scheduler.Failure.{failure_state_update}

pub record Episode : Type 0 where
  pub started_at : ℕ
  pub marked_at : ℕ
  pub finished_at : ℕ
  pub written_at : ℕ
  pub mark_fault : Option Err
  pub write_fault : Option Err
  pub canceled_before : Bool
  pub canceled_after : Bool
  pub outcome : Option Err

-- The scheduler's memory: the table, and the tenants whose scans run.
pub record World : Type 0 where
  pub rows : Table
  pub running_tenants : List String

abbrev pub under_context : Bool → Option Err → Option Err
under_context true fault = some context_canceled
under_context false fault = fault

abbrev pub running_update : ℕ → ScanningStateUpdate
running_update started_at = record {
  state = running;
  reason_code = no_reason;
  public_message = "";
  last_started_at = some started_at;
  last_stopped_at = none;
  last_failed_at = none;
  next_retry_at = none;
  retry_count = none;
}

abbrev pub complete_update : ℕ → ScanningStateUpdate
complete_update finished_at = record {
  state = queued;
  reason_code = no_reason;
  public_message = "";
  last_started_at = none;
  last_stopped_at = some finished_at;
  last_failed_at = none;
  next_retry_at = none;
  retry_count = some 0;
}

-- The write that follows the scan. A completed scan is written under the run's own context, a
-- failed one under a context that is not cancelled.
unfoldable pub write_outcome : Settings → Episode → TenantScanningState → Option Err → Table → Table
unfolding update_scanning_state failure_state_update
write_outcome s ep st none rows = written rows (
    update_scanning_state (under_context ep.canceled_after ep.write_fault) ep.written_at
      st.tenant_id (complete_update ep.finished_at) rows)
write_outcome s ep st (some err) rows =
    if is_error canceled err || is_error deadline_exceeded err
    then written rows (
        update_scanning_state (under_context ep.canceled_after ep.write_fault) ep.written_at
          st.tenant_id (complete_update ep.finished_at) rows)
    else written rows (
        update_scanning_state ep.write_fault ep.written_at st.tenant_id
          (failure_state_update s err st.retry_count ep.finished_at) rows)

-- The scan itself, behind the mark `running`; a mark that fails ends the run.
abbrev scan_and_write : Settings → Episode → TenantScanningState → Table → Result Table → Table
scan_and_write s ep st rows (fail err) = rows
scan_and_write s ep st rows (ok marked) = write_outcome s ep st ep.outcome marked

-- `runTenant`, with its deferred `clearRunning`.
unfoldable pub run_tenant : Settings → Episode → TenantScanningState → World → World
unfolding update_scanning_state write_outcome
run_tenant s ep st w = record {
  rows = scan_and_write s ep st w.rows (
      update_scanning_state (under_context ep.canceled_before ep.mark_fault) ep.marked_at
        st.tenant_id (running_update ep.started_at) w.rows);
  running_tenants = erase st.tenant_id w.running_tenants;
}
