-- ===== src/Scanning/Rows.antt =====
-- Looking a tenant up after a write to the table.
use expensor.Prelude.{
  ℕ, String, ◌≡◌, refl, none, some, [], ◌∷◌, arith, str_eq, eq_iff, if◌then◌else◌,
}
use mathlib.Core.Option
use expensor.Scanning.{
  TenantScanningState, Table, update_where, find_row, apply_update, ScanningStateUpdate,
}
use expensor.Scanning.Writes.{upsert}

-- After `UPDATE ... WHERE tenant_id = $1` the tenant's row is the changed one, and every other
-- tenant's row is as before.
pub find_row-update_where :
    (f : TenantScanningState → TenantScanningState)
    → ((r : TenantScanningState) → (f r).tenant_id ≡ r.tenant_id)
    → (tenant k : String) (rows : Table)
    → find_row k (update_where tenant f rows)
      ≡ (if str_eq tenant k then Option.map f (find_row k rows) else find_row k rows)
unfolding find_row update_where
find_row-update_where f keeps tenant k [] = ground arith
find_row-update_where f keeps tenant k (r ∷ rows) = ground (
  arith,
  keeps r,
  find_row-update_where f keeps tenant k rows,
  eq_iff r.tenant_id tenant,
  eq_iff r.tenant_id k,
  eq_iff tenant k,
)

-- After an upsert the tenant's row is the changed one, or the new one if there was none.
pub find_row-upsert_self :
    (new : TenantScanningState) (f : TenantScanningState → TenantScanningState)
    → ((r : TenantScanningState) → (f r).tenant_id ≡ r.tenant_id)
    → (rows : Table)
    → find_row new.tenant_id (upsert new f rows)
      ≡ some (elim (find_row new.tenant_id rows) [ none ↦ new | some r ↦ f r ])
unfolding find_row upsert
find_row-upsert_self new f keeps [] = ground (arith, eq_iff new.tenant_id new.tenant_id)
find_row-upsert_self new f keeps (r ∷ rows) =
    ground (arith, keeps r, find_row-upsert_self new f keeps rows, eq_iff r.tenant_id new.tenant_id)

pub find_row-apply_update :
    (now : ℕ) (u : ScanningStateUpdate) (tenant k : String) (rows : Table)
    → find_row k (update_where tenant (apply_update now u) rows) ≡ (
        if str_eq tenant k
        then Option.map (apply_update now u) (find_row k rows)
        else find_row k rows)
unfolding apply_update
find_row-apply_update now u = find_row-update_where (apply_update now u) (λ r. refl)
