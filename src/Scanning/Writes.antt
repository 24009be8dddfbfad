-- ===== src/Scanning/Writes.antt =====
-- The writes of backend/internal/store/postgres/scanning_repository.go that a user's request makes.
use expensor.Prelude.{
  ℕ, String, Bool, true, false, not, Option, none, some, [], ◌∷◌, str_eq, if◌then◌else◌,
}
use expensor.Prelude.Text.{is_blank, trim_space}
use expensor.Errors.{Err}
use expensor.Result.{Result, ◌>>=◌}
use expensor.Scanning.{
  TenantScanningState, queued, paused, stopped, no_reason, Table, require_tenant_id, exec,
  update_where,
}

-- `INSERT ... ON CONFLICT (tenant_id) DO UPDATE`.
unfoldable pub upsert :
    TenantScanningState → (TenantScanningState → TenantScanningState) → Table → Table
upsert new f [] = new ∷ []
upsert new f (r ∷ rows) =
    if str_eq r.tenant_id new.tenant_id then f r ∷ rows else r ∷ upsert new f rows

abbrev pub new_row : ℕ → String → TenantScanningState
new_row now tenant_id = record {
  tenant_id = tenant_id;
  active_reader = "";
  enabled = true;
  state = stopped;
  reason_code = no_reason;
  public_message = "";
  last_started_at = none;
  last_stopped_at = none;
  last_failed_at = none;
  next_retry_at = none;
  retry_count = 0;
  updated_at = now;
}

-- `SELECT ... FROM users u WHERE u.id = $1`, then `ON CONFLICT DO NOTHING`.
abbrev insert_if : Bool → ℕ → String → Table → Table
insert_if true now tenant_id rows = upsert (new_row now tenant_id) (λ r. r) rows
insert_if false now tenant_id rows = rows

unfoldable pub ensure_scanning_state_for_tenant :
    Option Err → ℕ → (String → Bool) → String → Table → Result Table
unfolding require_tenant_id exec upsert
ensure_scanning_state_for_tenant fault now is_user tenant rows = do
  tenant_id ← require_tenant_id tenant
  exec fault "postgres.scanning.ensure_scanning_state_for_tenant"
      "ensuring scanning state for tenant" (insert_if (is_user tenant_id) now tenant_id rows)

abbrev pub with_reader : ℕ → String → TenantScanningState → TenantScanningState
with_reader now reader r = record r {
  active_reader = reader;
  enabled = true;
  state = if is_blank reader then stopped else queued;
  reason_code = no_reason;
  public_message = "";
  next_retry_at = none;
  retry_count = 0;
  updated_at = now;
}

unfoldable pub set_active_scanning_reader : Option Err → ℕ → String → String → Table → Result Table
unfolding require_tenant_id exec upsert
set_active_scanning_reader fault now tenant reader rows = do
  tenant_id ← require_tenant_id tenant
  let name = trim_space reader
  exec fault "postgres.scanning.set_active_scanning_reader" "setting active scanning reader"
      (upsert (with_reader now name (new_row now tenant_id)) (with_reader now name) rows)

abbrev pub without_reader : ℕ → TenantScanningState → TenantScanningState
without_reader now r = record r {
  active_reader = "";
  enabled = false;
  state = stopped;
  reason_code = no_reason;
  public_message = "";
  next_retry_at = none;
  retry_count = 0;
  last_stopped_at = some now;
  updated_at = now;
}

unfoldable pub clear_active_scanning_reader : Option Err → ℕ → String → Table → Result Table
unfolding require_tenant_id exec upsert
clear_active_scanning_reader fault now tenant rows = do
  tenant_id ← require_tenant_id tenant
  exec fault "postgres.scanning.clear_active_scanning_reader" "clearing active scanning reader"
      (upsert (without_reader now (new_row now tenant_id)) (without_reader now) rows)

abbrev pub with_enabled : ℕ → Bool → TenantScanningState → TenantScanningState
with_enabled now on r = record r {
  enabled = on;
  state = if not on then paused else if is_blank r.active_reader then stopped else queued;
  reason_code = no_reason;
  public_message = "";
  next_retry_at = none;
  updated_at = now;
}

unfoldable pub set_scanning_enabled : Option Err → ℕ → String → Bool → Table → Result Table
unfolding require_tenant_id exec update_where
set_scanning_enabled fault now tenant on rows = do
  tenant_id ← require_tenant_id tenant
  exec fault "postgres.scanning.set_scanning_enabled" "setting scanning enabled"
      (update_where tenant_id (with_enabled now on) rows)
