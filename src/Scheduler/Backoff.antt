-- ===== src/Scheduler/Backoff.antt =====
-- A whole failed run (backend/internal/daemon/scheduler/scheduler.go over
-- backend/internal/store/postgres/scanning_repository.go): what the tenant's row says afterwards,
-- and when the scheduler may start the tenant again.
use mathlib.Core.Option
use expensor.Prelude.{
  ℕ, ◌+◌, String, ◌≡◌, refl, Bool, true, false, not, ◌&&◌, Option, none, some, arith, leb, contains,
  contains-erase, str_eq, eq_refl, if◌then◌else◌,
}
use expensor.Prelude.Text.{is_blank}
use expensor.Errors.{Err, Sentinel, is_error, canceled, deadline_exceeded}
use expensor.Errors.Build.{e}
use expensor.Scanning.Rows.{find_row-apply_update}
use expensor.Result.{ok}
use expensor.Scanning.{
  TenantScanningState, ScanningStateUpdate, apply_update, find_row, update_scanning_state,
  require_tenant_id, Table, update_where,
}
use expensor.Scanning.Listing.{is_runnable}
use expensor.Scanning.Runnable.{row_runnable}
use expensor.Scheduler.{Settings, retry_delay}
use expensor.Scheduler.Failure.{scan_error}
use expensor.Scheduler.Classes.{
  FailureClass, temporary, classify, update_of, failure_state_update-scan_error,
}
use expensor.Scheduler.Run.{Episode, World, run_tenant, write_outcome, running_update}

-- A run in which the database answers and nobody cancels.
pub record IsUndisturbed (ep : Episode) : Type 0 where
  pub mark : ep.mark_fault ≡ none
  pub write : ep.write_fault ≡ none
  pub before : ep.canceled_before ≡ false
  pub after : ep.canceled_after ≡ false

is_error-scan_error : (c : Sentinel) (err : Err) → is_error c (scan_error err) ≡ is_error c err
unfolding scan_error e is_error
is_error-scan_error c err = ground arith

update_ok :
    (now : ℕ) (tenant : String) (u : ScanningStateUpdate) (rows : Table)
    → require_tenant_id tenant ≡ ok tenant
    → update_scanning_state none now tenant u rows
      ≡ ok (update_where tenant (apply_update now u) rows)
unfolding update_scanning_state
update_ok now tenant u rows h = rw h

module _ (s : Settings) (ep : Episode) (st : TenantScanningState) (w : World) (err : Err)
    (tenant : require_tenant_id st.tenant_id ≡ ok st.tenant_id) (calm : IsUndisturbed ep)
    (failed : ep.outcome ≡ some (scan_error err)) (no_cancel : is_error canceled err ≡ false)
    (no_deadline : is_error deadline_exceeded err ≡ false) where
  -- The two updates that a failed run makes of the tenant's row.
  abbrev after_failure : TenantScanningState → TenantScanningState
  after_failure r =
      apply_update ep.written_at (update_of s (classify err) st.retry_count ep.finished_at)
        (apply_update ep.marked_at (running_update ep.started_at) r)

  failed_rows :
      (run_tenant s ep st w).rows
      ≡ update_where st.tenant_id
          (apply_update ep.written_at (update_of s (classify err) st.retry_count ep.finished_at))
          (update_where st.tenant_id
            (apply_update ep.marked_at (running_update ep.started_at))
            w.rows)
  unfolding run_tenant write_outcome
  failed_rows =
      simp
        (
          calm.before,
          calm.mark,
          update_ok ep.marked_at _ (running_update ep.started_at) w.rows tenant,
        )
        (simp failed (
          simp (
            is_error-scan_error canceled err,
            is_error-scan_error deadline_exceeded err,
            no_cancel,
            no_deadline,
            calm.write,
            failure_state_update-scan_error,
            update_ok ep.written_at _ (update_of s (classify err) st.retry_count ep.finished_at) _
                tenant,
          )))

  failed_row :
      (k : String)
      → find_row k (run_tenant s ep st w).rows ≡ (
          if str_eq st.tenant_id k
          then Option.map after_failure (find_row k w.rows)
          else find_row k w.rows)
  failed_row k = rw failed_rows (
      rw find_row-apply_update
        (rw find_row-apply_update (both (str_eq st.tenant_id k) (find_row k w.rows))))
    where
      both :
          (b : Bool) (o : Option TenantScanningState)
          → (if b
              then Option.map
                  (apply_update ep.written_at
                    (update_of s (classify err) st.retry_count ep.finished_at))
                  (if b
                    then Option.map (apply_update ep.marked_at (running_update ep.started_at)) o
                    else o)
              else (if b
                  then Option.map (apply_update ep.marked_at (running_update ep.started_at)) o
                  else o))
            ≡ (if b then Option.map after_failure o else o)
      both true none = refl
      both true (some r) = refl
      both false o = refl

  running_after :
      (k : String)
      → contains k (run_tenant s ep st w).running_tenants
        ≡ (if str_eq st.tenant_id k then false else contains k w.running_tenants)
  unfolding run_tenant
  running_after k = contains-erase st.tenant_id k w.running_tenants

  -- When a row may be started again after a failure of a class.
  abbrev pub startable : FailureClass → TenantScanningState → ℕ → Bool
  startable temporary r now =
      r.enabled
      && not (is_blank r.active_reader)
      && leb (ep.finished_at + retry_delay s (st.retry_count + 1)) now
  startable _ r now = false

  after_failure-startable :
      (c : FailureClass) (r : TenantScanningState) (now : ℕ)
      → is_runnable now (
          apply_update ep.written_at
            (update_of s c st.retry_count ep.finished_at)
            (apply_update ep.marked_at (running_update ep.started_at) r))
        ≡ startable c r now
  unfolding is_runnable apply_update update_of
  after_failure-startable temporary r now = ground arith
  after_failure-startable _ r now = ground arith

  -- A run of a tenant with a row, that neither a database fault nor a cancellation disturbs and whose
  -- scan fails with an error that is no cancellation and no deadline, leaves every other tenant's row
  -- alone and drops its own tenant, and no other, from the running ones. After a temporary failure the
  -- tenant may be started again exactly from the time of the failure plus the delay of its next retry
  -- on, if it is enabled and has a reader; after any other failure it may not be started at any time.
  pub run_tenant-failed :
      (r : TenantScanningState) (now : ℕ)
      → find_row st.tenant_id w.rows ≡ some r
      → (row_runnable now (find_row st.tenant_id (run_tenant s ep st w).rows)
          ≡ startable (classify err) r now)
        × ((k : String)
            → str_eq st.tenant_id k ≡ false
            → (find_row k (run_tenant s ep st w).rows ≡ find_row k w.rows)
              × (contains k (run_tenant s ep st w).running_tenants ≡ contains k w.running_tenants))
        × (contains st.tenant_id (run_tenant s ep st w).running_tenants ≡ false)
  run_tenant-failed r now found = (
    rw (failed_row st.tenant_id, eq_refl, found) (after_failure-startable (classify err) r now),
    λ k ne. (rw (failed_row k, ne), rw (running_after k, ne)),
    rw (running_after st.tenant_id, eq_refl),
  )
