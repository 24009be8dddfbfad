-- ===== src/Scanning/Runnable.antt =====
-- Which tenants the scheduler may start, after the writes of
-- backend/internal/store/postgres/scanning_repository.go.
use expensor.Prelude.{
  ℕ, String, ◌≡◌, refl, Bool, true, false, Option, none, some, arith, str_eq, eq_refl,
  if◌then◌else◌,
}
use mathlib.Core.Option
use expensor.Prelude.Text.{is_blank, trim_space}
use expensor.Result.{ok}
use expensor.Scanning.{
  TenantScanningState, ScanningStateUpdate, Table, apply_update, find_row, update_scanning_state,
  require_tenant_id, written,
}
use expensor.Scanning.Rows.{find_row-update_where, find_row-upsert_self}
use expensor.Scanning.Listing.{is_runnable}
use expensor.Scanning.Writes.{
  with_enabled, with_reader, new_row, set_scanning_enabled, set_active_scanning_reader,
}

-- No update of the scheduler, whatever it writes, makes a disabled tenant runnable.
pub apply_update-disabled :
    (now later : ℕ) (u : ScanningStateUpdate) (r : TenantScanningState)
    → r.enabled ≡ false
    → is_runnable later (apply_update now u r) ≡ false
unfolding is_runnable apply_update
apply_update-disabled now later u r h = ground arith

-- Whether the row of a tenant is one that the scheduler may start.
abbrev pub row_runnable : ℕ → Option TenantScanningState → Bool
row_runnable now none = false
row_runnable now (some r) = is_runnable now r

-- With no fault, an update for a tenant changes that tenant's row by its SET list, and no other.
pub update_scanning_state-row :
    (now : ℕ) (tenant k : String) (u : ScanningStateUpdate) (rows : Table)
    → require_tenant_id tenant ≡ ok tenant
    → find_row k (written rows (update_scanning_state none now tenant u rows)) ≡ (
        if str_eq tenant k
        then Option.map (apply_update now u) (find_row k rows)
        else find_row k rows)
unfolding update_scanning_state
update_scanning_state-row now tenant k u rows h =
    rw h
      (find_row-update_where (apply_update now u) (λ r. unfold apply_update in refl) tenant k rows)

paused_row :
    (now later : ℕ) (o : Option TenantScanningState)
    → row_runnable later (Option.map (with_enabled now false) o) ≡ false
unfolding is_runnable
paused_row now later none = refl
paused_row now later (some r) = refl

paused_row-update :
    (now at later : ℕ) (u : ScanningStateUpdate) (o : Option TenantScanningState)
    → row_runnable later (Option.map (apply_update at u) (Option.map (with_enabled now false) o))
      ≡ false
paused_row-update now at later u none = refl
paused_row-update now at later u (some r) =
    apply_update-disabled at later u (with_enabled now false r) refl

set_scanning_enabled-row :
    (now : ℕ) (tenant k : String) (on : Bool) (rows : Table)
    → require_tenant_id tenant ≡ ok tenant
    → find_row k (written rows (set_scanning_enabled none now tenant on rows)) ≡ (
        if str_eq tenant k
        then Option.map (with_enabled now on) (find_row k rows)
        else find_row k rows)
unfolding set_scanning_enabled
set_scanning_enabled-row now tenant k on rows h =
    rw h (find_row-update_where (with_enabled now on) (λ r. refl) tenant k rows)

-- With a trimmed tenant id and a database that answers, a tenant that is paused is not runnable at any
-- time, and is not runnable at any time either after an update of the scheduler's, whichever it is.
pub set_scanning_enabled-paused :
    (now at later : ℕ) (tenant : String) (u : ScanningStateUpdate) (rows : Table)
    → require_tenant_id tenant ≡ ok tenant
    → let rows' = written rows (set_scanning_enabled none now tenant false rows) in
      (row_runnable later (find_row tenant rows') ≡ false)
      × (row_runnable later
            (find_row tenant (written rows' (update_scanning_state none at tenant u rows')))
          ≡ false)
set_scanning_enabled-paused now at later tenant u rows h =
    let rows' = written rows (set_scanning_enabled none now tenant false rows) in
    let row = set_scanning_enabled-row now tenant tenant false rows h in
    (
      rw (row, eq_refl) (paused_row now later (find_row tenant rows)),
      rw (update_scanning_state-row at tenant tenant u rows' h, eq_refl, row, eq_refl)
          (paused_row-update now at later u (find_row tenant rows)),
    )

with_reader_runnable :
    (now later : ℕ) (reader : String) (o : Option TenantScanningState) (new : TenantScanningState)
    → is_blank reader ≡ false
    → row_runnable later
        (some (elim o [ none ↦ with_reader now reader new | some r ↦ with_reader now reader r ]))
      ≡ true
unfolding is_runnable
with_reader_runnable now later reader none new h = rw h
with_reader_runnable now later reader (some r) new h = rw h

-- With a trimmed tenant id, a reader name that is not blank and a database that answers, choosing the
-- reader makes a tenant runnable at every time, whatever its row was and also if it had none.
pub set_active_scanning_reader-runnable :
    (now later : ℕ) (tenant reader : String) (rows : Table)
    → require_tenant_id tenant ≡ ok tenant
    → is_blank (trim_space reader) ≡ false
    → row_runnable later
        (find_row tenant (written rows (set_active_scanning_reader none now tenant reader rows)))
      ≡ true
unfolding set_active_scanning_reader
set_active_scanning_reader-runnable now later tenant reader rows h b = rw h (
    rw
      (find_row-upsert_self (with_reader now (trim_space reader) (new_row now tenant))
        (with_reader now (trim_space reader)) (λ r. refl) rows)
      (with_reader_runnable now later (trim_space reader) (find_row tenant rows)
        (new_row now tenant) b))
