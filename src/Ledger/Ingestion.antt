-- ===== src/Ledger/Ingestion.antt =====
-- backend/internal/store/postgres/ingestion.go: a batch of extracted transactions is written in one
-- database transaction, and the tenant's mappings are applied to it.
use expensor.Prelude.{ℕ, String, Option, none, some, List, [], ◌∷◌, is_empty, if◌then◌else◌}
use expensor.ErrorKind
use expensor.Errors.{Err}
use expensor.Errors.Build.{e, kind, text, error}
use expensor.Result.{Result, ok, fail, ◌>>=◌}
use expensor.Ledger.{Transaction, Db, Like, Faults}
use expensor.Ledger.Upserts.{Incoming, upsert_all, insert_batch_labels}
use expensor.Ledger.Mappings.{
  apply_merchant_labels, apply_merchant_categories, apply_muted_merchants,
}

module _ {M : Type 0} where
  -- The rows after the statements of the batch, and the ids.
  abbrev pub with_rows : Db M → List (Transaction M) × List String → Db M × List String
  with_rows db (rows, ids) = (record db { transactions = rows }, ids)

-- An error of a call, as an internal one.
abbrev pub within {ℓ} : {A : Type ℓ} → Option Err → String → A → Result A
within none message a = ok a
within (some err) message a =
    fail (
      e (text "postgres.ingestion.write" ∷ kind ErrorKind.internal ∷ text message ∷ error err ∷ []))

module _ {M : Type 0} where
  -- What the database transaction of `Write` does when no call of it fails.
  unfoldable pub write_rows : Like → ℕ → String → List (Incoming M) → Db M → Db M
  unfolding upsert_all insert_batch_labels apply_merchant_labels apply_merchant_categories
      apply_muted_merchants
  write_rows like now tenant batch db =
      let (upserted, ids) = with_rows db (upsert_all now tenant batch db.transactions) in
      apply_muted_merchants like now ids (
        apply_merchant_categories like now ids
          (apply_merchant_labels like ids (insert_batch_labels batch ids upserted)))

  -- `Write`. The faults are those of: the begin, the batch, its close, the labels, the three mappings
  -- and the commit. The numbers and ids in two of the messages are left out.
  unfoldable pub write : Like → Faults → ℕ → String → List (Incoming M) → Db M → Result (Db M)
  unfolding write_rows
  write like faults now tenant batch db = if is_empty batch then ok db else do
    begun ← within (faults 0) "beginning transaction" db
    inserted ← within (faults 1) "inserting transaction" begun
    closed ← within (faults 2) "closing batch results" inserted
    labelled ← within (faults 3) "inserting labels for transaction" closed
    mapped ← within (faults 4) "auto-applying merchant labels" labelled
    categorized_db ← within (faults 5) "auto-applying merchant categories" mapped
    muted ← within (faults 6) "auto-muting transactions" categorized_db
    within (faults 7) "committing transaction" (write_rows like now tenant batch muted)
