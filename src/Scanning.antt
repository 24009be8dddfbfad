-- ===== src/Scanning.antt =====
-- The scanning state of a tenant and the writes to it: the scanning types of
-- backend/internal/store/models.go and backend/internal/store/postgres/scanning_repository.go. The
-- table `tenant_scanning_state` is a list of rows, one to a tenant, and each SQL statement is the
-- function on that list that it stands for. `fault` is what the database returned instead of
-- running the statement, and `now` is the database's clock; times are counted in nanoseconds.
pub mod Writes
pub mod Listing
pub mod Config
pub mod Rows
pub mod Runnable
pub mod Samples
use expensor.Prelude.{ℕ, String, Bool, Option, none, some, List, [], ◌∷◌, str_eq, if◌then◌else◌}
use expensor.Prelude.Text.{is_blank, trim_space}
use expensor.ErrorKind
use expensor.Errors.{Err}
use expensor.Errors.Build.{e, text, kind, error}
use expensor.Result.{Result, ok, fail, ◌>>=◌}

pub data ScanningState : Type 0 where
  queued starting running backing_off needs_auth reader_not_configured paused stopped :
      ScanningState

pub data ReasonCode : Type 0 where
  no_reason missing_credentials missing_token invalid_grant not_configured temporary_failure :
      ReasonCode

pub record TenantScanningState : Type 0 where
  pub tenant_id : String
  pub active_reader : String
  pub enabled : Bool
  pub state : ScanningState
  pub reason_code : ReasonCode
  pub public_message : String
  pub last_started_at : Option ℕ
  pub last_stopped_at : Option ℕ
  pub last_failed_at : Option ℕ
  pub next_retry_at : Option ℕ
  pub retry_count : ℕ
  pub updated_at : ℕ

pub record ScanningStateUpdate : Type 0 where
  pub state : ScanningState
  pub reason_code : ReasonCode
  pub public_message : String
  pub last_started_at : Option ℕ
  pub last_stopped_at : Option ℕ
  pub last_failed_at : Option ℕ
  pub next_retry_at : Option ℕ
  pub retry_count : Option ℕ

abbrev pub Table : Type 0
Table = List TenantScanningState

-- `requireTenantID`.
unfoldable pub require_tenant_id : String → Result String
require_tenant_id tenant =
    let tenant_id = trim_space tenant in
    if is_blank tenant_id
    then fail (e (kind ErrorKind.invalid_input ∷ text "tenant id is required" ∷ []))
    else ok tenant_id

-- `pool.Exec` and `QueryRow(...).Scan`: the database's fault, wrapped, or the statement's result.
unfoldable pub exec {ℓ} : {A : Type ℓ} → Option Err → String → String → A → Result A
exec none op message result = ok result
exec (some err) op message result = fail (e (text op ∷ text message ∷ error err ∷ []))

abbrev pub coalesce {ℓ} : {A : Type ℓ} → Option A → Option A → Option A
coalesce none old = old
coalesce (some new) old = some new

abbrev pub coalesce_or {ℓ} : {A : Type ℓ} → Option A → A → A
coalesce_or none old = old
coalesce_or (some new) old = new

-- `UPDATE ... WHERE tenant_id = $1`.
unfoldable pub update_where : String → (TenantScanningState → TenantScanningState) → Table → Table
update_where tenant_id f [] = []
update_where tenant_id f (r ∷ rows) =
    (if str_eq r.tenant_id tenant_id then f r else r) ∷ update_where tenant_id f rows

-- The row of a tenant.
unfoldable pub find_row : String → Table → Option TenantScanningState
find_row tenant_id [] = none
find_row tenant_id (r ∷ rows) =
    if str_eq r.tenant_id tenant_id then some r else find_row tenant_id rows

-- The SET list of UpdateScanningState.
unfoldable pub apply_update : ℕ → ScanningStateUpdate → TenantScanningState → TenantScanningState
apply_update now u r = record r {
  state = u.state;
  reason_code = u.reason_code;
  public_message = u.public_message;
  last_started_at = coalesce u.last_started_at r.last_started_at;
  last_stopped_at = coalesce u.last_stopped_at r.last_stopped_at;
  last_failed_at = coalesce u.last_failed_at r.last_failed_at;
  next_retry_at = u.next_retry_at;
  retry_count = coalesce_or u.retry_count r.retry_count;
  updated_at = now;
}

unfoldable pub update_scanning_state :
    Option Err → ℕ → String → ScanningStateUpdate → Table → Result Table
unfolding require_tenant_id exec
update_scanning_state fault now tenant u rows = do
  tenant_id ← require_tenant_id tenant
  exec fault "postgres.scanning.update_scanning_state" "updating scanning state"
      (update_where tenant_id (apply_update now u) rows)

-- What a caller goes on with that only logs a failed write: the table as it was.
abbrev pub written : Table → Result Table → Table
written rows (ok new) = new
written rows (fail err) = rows
