-- ===== src/Ledger/Edits.antt =====
-- UpdateDescription and UpdateTransaction of backend/internal/store/postgres/transactions_repository.go.
use expensor.Prelude.{ℕ, String, Bool, true, false, ◌&&◌, Option, none, some, if◌then◌else◌}
use expensor.Prelude.Tables.{change_where}
use expensor.Result.{Result, ok, ◌>>=◌}
use expensor.Scanning.{exec, coalesce_or}
use expensor.Ledger.{Transaction, Db, Faults, is_own, owns, not_found, require_affected}

module _ {M : Type 0} where
  -- The trigger on the table sets `updated_at`.
  abbrev pub with_description : ℕ → String → Transaction M → Transaction M
  with_description now description t = record t { description = description; updated_at = now }

  -- `UpdateDescription`.
  unfoldable pub update_description : Faults → ℕ → String → String → String → Db M → Result (Db M)
  unfolding exec change_where owns
  update_description faults now tenant id description db = do
    db' ←
        exec (faults 0) "postgres.transactions.update_description" "updating description"
          (record db {
            transactions =
                change_where (is_own tenant id) (with_description now description) db.transactions;
          })
    require_affected (owns tenant db.transactions id)
        (not_found "store.transactions.update_description" "transaction not found") db'

-- A nil field of `TransactionUpdate` leaves its column alone.
pub record TransactionUpdate : Type 0 where
  pub description : Option String
  pub category : Option String
  pub bucket : Option String

abbrev is_nil {ℓ} : {A : Type ℓ} → Option A → Bool
is_nil none = true
is_nil (some a) = false

abbrev pub is_no_update : TransactionUpdate → Bool
is_no_update u = is_nil u.description && is_nil u.category && is_nil u.bucket

module _ {M : Type 0} where
  abbrev pub edited : ℕ → TransactionUpdate → Transaction M → Transaction M
  edited now u t = record t {
    description = coalesce_or u.description t.description;
    category = coalesce_or u.category t.category;
    bucket = coalesce_or u.bucket t.bucket;
    updated_at = now;
  }

  -- `UpdateTransaction` with something to set.
  unfoldable pub set_fields :
      Faults → ℕ → String → String → TransactionUpdate → Db M → Result (Db M)
  unfolding exec change_where owns
  set_fields faults now tenant id u db = do
    db' ←
        exec (faults 0) "postgres.transactions.update_transaction" "updating transaction"
          (record db {
            transactions = change_where (is_own tenant id) (edited now u) db.transactions;
          })
    require_affected (owns tenant db.transactions id)
        (not_found "store.transactions.update" "transaction not found") db'

  -- `UpdateTransaction`.
  unfoldable pub update_transaction :
      Faults → ℕ → String → String → TransactionUpdate → Db M → Result (Db M)
  unfolding set_fields
  update_transaction faults now tenant id u db =
      if is_no_update u then ok db else set_fields faults now tenant id u db
