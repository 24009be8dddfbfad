-- ===== src/Ledger/Once.antt =====
-- How often a message is stored, for the batches of backend/internal/store/postgres/ingestion.go.
use mathlib.Core.Path.{subst}
use expensor.Prelude.{
  ℕ, ◌≤◌, String, Bool, true, false, ◌||◌, Option, none, some, List, [], ◌∷◌, str_eq, ◌≡◌, refl,
  arith, sym, ◌∙◌, ap, eq_iff, eq_refl, Bool-cases, inl, inr,
}
use expensor.Prelude.Tables.{first_where}
use expensor.Prelude.Counts.{
  count_where, count_where-append, count_where-change_where, count_where-none, count_where-some,
}
use expensor.Result.{ok}
use expensor.Ledger.{Transaction, MutedMerchant, Db, Like}
use expensor.Ledger.Upserts.{
  Incoming, is_message, new_row, refreshed, upsert_transaction, upsert_all, insert_batch_labels,
}
use expensor.Ledger.Mappings.{
  apply_merchant_labels, apply_merchant_categories, apply_muted_merchants, in_batch, categorized,
  best_match, muted_with, is_muted_by, Match,
}
use expensor.Ledger.Ingestion.{write, write_rows}
use expensor.Ledger.Isolation.{batch_labels-rows}

-- The messages of the batch have one row, and the rows of any other message are as they were.
abbrev pub rows_after : Bool → ℕ → ℕ
rows_after true n = 1
rows_after false n = n

module _ {M : Type 0} where
  -- The rows of a tenant's message.
  unfoldable pub rows_of : String → String → List (Transaction M) → ℕ
  unfolding count_where
  rows_of tenant message_id ts = count_where (is_message tenant message_id) ts

  unfoldable pub has_message : String → List (Incoming M) → Bool
  has_message message_id [] = false
  has_message message_id (i ∷ batch) =
      str_eq i.message_id message_id || has_message message_id batch

  module _ (now : ℕ) (tenant : String) where
    rows_of_same :
        (i : Incoming M) (ts : List (Transaction M))
        → rows_of tenant i.message_id ts ≤ 1
        → rows_of tenant i.message_id (upsert_transaction now tenant i ts) ≡ 1
    unfolding rows_of upsert_transaction count_where
    rows_of_same i ts h = ground (
      arith,
      eq_refl tenant,
      eq_refl i.message_id,
      count_where-change_where (is_message tenant i.message_id) (is_message tenant i.message_id)
          (refreshed now i) (λ t. refl) ts,
      count_where-append (is_message tenant i.message_id) ts (new_row now tenant i ∷ []),
      count_where-none (is_message tenant i.message_id) ts,
      count_where-some (is_message tenant i.message_id) ts,
    )

    rows_of_other :
        (i : Incoming M) (ts : List (Transaction M)) (k : String)
        → str_eq i.message_id k ≡ false
        → rows_of tenant k (upsert_transaction now tenant i ts) ≡ rows_of tenant k ts
    unfolding rows_of upsert_transaction count_where
    rows_of_other i ts k other = ground (
      arith,
      count_where-change_where (is_message tenant k) (is_message tenant i.message_id)
          (refreshed now i) (λ t. refl) ts,
      count_where-append (is_message tenant k) ts (new_row now tenant i ∷ []),
    )

    rows_of-upsert_transaction :
        (i : Incoming M) (ts : List (Transaction M)) (k : String)
        → rows_of tenant k ts ≤ 1
        → rows_of tenant k (upsert_transaction now tenant i ts)
          ≡ rows_after (str_eq i.message_id k) (rows_of tenant k ts)
    rows_of-upsert_transaction i ts k h = elim (Bool-cases (str_eq i.message_id k)) [
      | inl e ↦
          let same : i.message_id ≡ k = ground (arith, eq_iff i.message_id k) in
          rw e (
            subst (λ m. rows_of tenant m (upsert_transaction now tenant i ts) ≡ 1) same
              (rows_of_same i ts (subst (λ m. rows_of tenant m ts ≤ 1) (sym same) h)))
      | inr e ↦ rw e (rows_of_other i ts k e)
    ]

    rows_of-upsert_all :
        (batch : List (Incoming M)) (ts : List (Transaction M)) (k : String)
        → rows_of tenant k ts ≤ 1
        → rows_of tenant k (upsert_all now tenant batch ts).0
          ≡ rows_after (has_message k batch) (rows_of tenant k ts)
    unfolding upsert_all has_message
    rows_of-upsert_all [] ts k h = refl
    rows_of-upsert_all (i ∷ batch) ts k h = ground (
      arith,
      rows_of-upsert_transaction i ts k h,
      rows_of-upsert_all batch (upsert_transaction now tenant i ts) k,
    )

  categorized-message :
      (now : ℕ) (tenant k : String) (m : Option Match) (t : Transaction M)
      → is_message tenant k (categorized now m t) ≡ is_message tenant k t
  categorized-message now tenant k none t = refl
  categorized-message now tenant k (some m) t = refl

  muted_with-message :
      (now : ℕ) (tenant k : String) (m : Option MutedMerchant) (t : Transaction M)
      → is_message tenant k (muted_with now m t) ≡ is_message tenant k t
  muted_with-message now tenant k none t = refl
  muted_with-message now tenant k (some m) t = refl

  rows_of-write_rows :
      (like : Like) (now : ℕ) (tenant : String) (batch : List (Incoming M)) (db : Db M) (k : String)
      → rows_of tenant k db.transactions ≤ 1
      → rows_of tenant k (write_rows like now tenant batch db).transactions
        ≡ rows_after (has_message k batch) (rows_of tenant k db.transactions)
  unfolding write_rows apply_merchant_labels apply_merchant_categories apply_muted_merchants rows_of
  rows_of-write_rows like now tenant batch db k h =
      let ids = (upsert_all now tenant batch db.transactions).1 in
      let upserted : Db M = record db {
        transactions = (upsert_all now tenant batch db.transactions).0;
      } in
      let mapped = apply_merchant_labels like ids (insert_batch_labels batch ids upserted) in
      let filed = apply_merchant_categories like now ids mapped in
      count_where-change_where (is_message tenant k) (in_batch ids)
        (λ (t : Transaction M).
          muted_with now (first_where (is_muted_by like t) filed.muted_merchants) t)
        (λ t.
          muted_with-message now tenant k (first_where (is_muted_by like t) filed.muted_merchants)
            t)
        filed.transactions
      ∙ count_where-change_where (is_message tenant k) (in_batch ids)
          (λ (t : Transaction M).
            categorized now (best_match like mapped.mcc_codes mapped.merchant_categories t) t)
          (λ t.
            categorized-message now tenant k
              (best_match like mapped.mcc_codes mapped.merchant_categories t) t)
          mapped.transactions
      ∙ ap (rows_of tenant k) (batch_labels-rows batch ids upserted)
      ∙ rows_of-upsert_all now tenant batch db.transactions k h

  -- A batch that is written without a fault succeeds, and stores each of its messages in exactly one
  -- row, however often the batch holds it and whether or not it was stored before; the number of rows
  -- of any other message does not change. No message had two rows before.
  pub write-once :
      (like : Like) (now : ℕ) (tenant : String) (batch : List (Incoming M)) (db : Db M) (k : String)
      → rows_of tenant k db.transactions ≤ 1
      → (db' : Db M) × (write like (λ n. none) now tenant batch db ≡ ok db')
        × (rows_of tenant k db'.transactions
            ≡ rows_after (has_message k batch) (rows_of tenant k db.transactions))
  unfolding write write_rows has_message
  write-once like now tenant [] db k h = (db, refl, refl)
  write-once like now tenant (i ∷ batch) db k h = (
    write_rows like now tenant (i ∷ batch) db,
    refl,
    rows_of-write_rows like now tenant (i ∷ batch) db k h,
  )
