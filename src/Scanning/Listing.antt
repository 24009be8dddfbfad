-- ===== src/Scanning/Listing.antt =====
-- ListRunnableScanningStates of backend/internal/store/postgres/scanning_repository.go.
use expensor.Prelude.{
  ℕ, Bool, true, false, not, ◌&&◌, ◌||◌, Option, none, some, [], ◌∷◌, ltb, leb, ◌==◌, if◌then◌else◌,
}
use expensor.Prelude.Text.{is_blank, text_le}
use expensor.Errors.{Err}
use expensor.Result.{Result}
use expensor.Scanning.{
  TenantScanningState, ScanningState, needs_auth, reader_not_configured, paused, Table, exec,
}

-- The WHERE clause of ListRunnableScanningStates.
abbrev pub blocks_scan : ScanningState → Bool
blocks_scan needs_auth = true
blocks_scan reader_not_configured = true
blocks_scan paused = true
blocks_scan _ = false

abbrev pub is_due : Option ℕ → ℕ → Bool
is_due none now = true
is_due (some t) now = leb t now

unfoldable pub is_runnable : ℕ → TenantScanningState → Bool
is_runnable now r =
    r.enabled
    && not (is_blank r.active_reader)
    && not (blocks_scan r.state)
    && is_due r.next_retry_at now

-- `ORDER BY updated_at, tenant_id`.
unfoldable pub row_le : TenantScanningState → TenantScanningState → Bool
row_le r s =
    ltb r.updated_at s.updated_at
    || (r.updated_at == s.updated_at && text_le r.tenant_id s.tenant_id)

unfoldable pub insert_row : TenantScanningState → Table → Table
unfolding row_le
insert_row r [] = r ∷ []
insert_row r (s ∷ rows) = if row_le r s then r ∷ s ∷ rows else s ∷ insert_row r rows

unfoldable pub select_runnable : ℕ → Table → Table
unfolding is_runnable insert_row
select_runnable now [] = []
select_runnable now (r ∷ rows) =
    let rest = select_runnable now rows in if is_runnable now r then insert_row r rest else rest

unfoldable pub list_runnable_scanning_states : Option Err → ℕ → Table → Result Table
unfolding exec select_runnable
list_runnable_scanning_states fault now rows =
    exec fault "postgres.scanning.list_runnable_scanning_states" "listing runnable scanning states"
      (select_runnable now rows)
