-- ===== src/Scheduler/Reconcile.antt =====
-- `Reconcile`, `startTenant` and `Stop` of backend/internal/daemon/scheduler/scheduler.go. Scans
-- end on their own goroutines, so before each tenant that the loop looks at, the tenants in
-- `finished` have left the running ones.
use expensor.Prelude.{
  ℕ, zero, suc, ◌-◌, String, Bool, true, false, ◌||◌, Option, none, some, List, [], ◌∷◌, ◌++◌,
  length, contains, erase, ltb, if◌then◌else◌,
}
use expensor.Prelude.Text.{is_blank}
use expensor.Errors.{Err}
use expensor.Result.{Result, ok, fail}
use expensor.Scanning.{
  TenantScanningState, ScanningStateUpdate, starting, no_reason, Table, update_scanning_state,
}
use expensor.Scanning.Config.{SchedulerConfig, get_scheduler_config}
use expensor.Scanning.Listing.{list_runnable_scanning_states}
use expensor.Scanning.Writes.{ensure_scanning_state_for_tenant}
use expensor.Scheduler.Run.{World}

pub record User : Type 0 where
  pub tenant_id : String
  pub disabled : Bool

-- `ensureTenantStates`: a disabled user is passed over, and the first fault ends the loop.
unfoldable pub ensure_tenant_states :
    Option Err → ℕ → (String → Bool) → List User → Table → Result Table
unfolding ensure_scanning_state_for_tenant
ensure_tenant_states fault now is_user [] rows = ok rows
ensure_tenant_states fault now is_user (u ∷ users) rows =
    elim (if u.disabled
      then ok rows
      else ensure_scanning_state_for_tenant fault now is_user u.tenant_id rows) [
        | ok rows' ↦ ensure_tenant_states fault now is_user users rows'
        | fail err ↦ fail err
      ]

-- `availableCapacity`: the loop asks only whether the difference is above zero, and where it is
-- negative the subtraction on ℕ is zero.
unfoldable pub available_capacity : ℕ → List String → ℕ
available_capacity limit running = (if ltb limit 1 then 1 else limit) - length running

abbrev pub starting_update : ℕ → ScanningStateUpdate
starting_update now = record {
  state = starting;
  reason_code = no_reason;
  public_message = "";
  last_started_at = some now;
  last_stopped_at = none;
  last_failed_at = none;
  next_retry_at = none;
  retry_count = none;
}

-- One look of the loop: the listed row, the tenants whose scans have ended since the last look, and
-- what the write `starting` meets.
pub record Look : Type 0 where
  pub st : TenantScanningState
  pub finished : List String
  pub fault : Option Err
  pub now : ℕ

unfoldable pub leave : List String → List String → List String
unfolding erase
leave [] running = running
leave (k ∷ ks) running = leave ks (erase k running)

-- `s.running[tenantID] = cancel` on a map read as its keys.
unfoldable pub mark_running : String → List String → List String
unfolding contains
mark_running k running = if contains k running then running else running ++ k ∷ []

-- `startTenant` up to the start of the goroutine.
unfoldable pub start_tenant : Look → World → Result World
unfolding update_scanning_state mark_running
start_tenant look w =
    elim (update_scanning_state look.fault look.now look.st.tenant_id (starting_update look.now)
      w.rows) [
        | ok rows ↦ ok (record {
          rows = rows;
          running_tenants = mark_running look.st.tenant_id w.running_tenants;
        })
        | fail err ↦ fail err
      ]

-- A pass of the loop: the world after it, the tenants started in order, and the fault that ended it.
pub record Pass : Type 0 where
  pub world : World
  pub started : List String
  pub failure : Option Err

abbrev pub skips : Look → World → Bool
skips look w = is_blank look.st.active_reader || contains look.st.tenant_id w.running_tenants

abbrev pub started_first : String → Pass → Pass
started_first k p = record p { started = k ∷ p.started }

-- The loop of `Reconcile` over the listed rows.
unfoldable pub start_listed : ℕ → List Look → World → Pass
unfolding start_tenant leave
start_listed capacity [] w = record { world = w; started = []; failure = none }
start_listed zero (look ∷ looks) w = record {
  world = record w { running_tenants = leave look.finished w.running_tenants };
  started = [];
  failure = none;
}
start_listed (suc capacity) (look ∷ looks) w =
    let w' : World = record w { running_tenants = leave look.finished w.running_tenants } in
    elim (skips look w') [
      | true ↦ start_listed (suc capacity) looks w'
      | false ↦ elim (start_tenant look w') [
        | ok started ↦ started_first look.st.tenant_id (start_listed capacity looks started)
        | fail err ↦ record { world = w'; started = []; failure = some err }
      ]
    ]

-- `Stop`: every running scan is cancelled and forgotten.
unfoldable pub stop : World → World
stop w = record w { running_tenants = [] }

-- What a pass meets outside: faults, clocks, and for each listed row what its look finds.
pub record Outside : Type 0 where
  pub is_user : String → Bool
  pub users : Result (List User)
  pub ensure_fault : Option Err
  pub config_fault : Option Err
  pub list_fault : Option Err
  pub now : ℕ
  pub look_at : TenantScanningState → Look

unfoldable pub looks_of : (TenantScanningState → Look) → Table → List Look
looks_of look_at [] = []
looks_of look_at (r ∷ rows) = record (look_at r) { st = r } ∷ looks_of look_at rows

abbrev pub failed_pass : World → Err → Pass
failed_pass w err = record { world = w; started = []; failure = some err }

abbrev pub start_rows : Outside → SchedulerConfig → World → Result Table → Pass
start_rows o cfg w (fail err) = failed_pass w err
start_rows o cfg w (ok listed) =
    start_listed (available_capacity cfg.max_concurrent_scans w.running_tenants)
      (looks_of o.look_at listed) w

abbrev pub start_configured : Outside → World → Result SchedulerConfig → Pass
start_configured o w (fail err) = failed_pass w err
start_configured o w (ok cfg) =
    start_rows o cfg w (list_runnable_scanning_states o.list_fault o.now w.rows)

abbrev pub start_ensured : Outside → SchedulerConfig → World → Result Table → Pass
start_ensured o cfg w (fail err) = failed_pass w err
start_ensured o cfg w (ok rows) =
    start_configured o (record w { rows = rows }) (get_scheduler_config o.config_fault cfg)

abbrev pub ensured : Outside → World → Result (List User) → Result Table
ensured o w (fail err) = fail err
ensured o w (ok users) = ensure_tenant_states o.ensure_fault o.now o.is_user users w.rows

-- `Reconcile`.
unfoldable pub reconcile : Outside → SchedulerConfig → World → Pass
unfolding get_scheduler_config list_runnable_scanning_states available_capacity
reconcile o cfg w = start_ensured o cfg w (ensured o w o.users)
