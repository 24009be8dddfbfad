-- ===== src/Ledger/Upserts.antt =====
-- The upserts of a batch of extracted transactions, in backend/internal/store/postgres/ingestion.go,
-- and the labels that the batch brings along.
use expensor.Prelude.{
  ℕ, String, Bool, false, ◌&&◌, Option, none, some, List, [], ◌∷◌, ◌++◌, str_eq, if◌then◌else◌,
}
use expensor.Prelude.Tables.{change_where, exists_where, first_where}
use expensor.Prelude.Text.{is_blank}
use expensor.Ledger.{Details, Transaction, Db}
use expensor.Ledger.Labels.{insert_labels}

-- A transaction of the batch. `time` is what `time.Parse` makes of its timestamp, and `fresh_id` is
-- the id that the database generates if it inserts a row for it.
pub record Incoming (M : Type 0) : Type 0 where
  pub message_id : String
  pub details : Details M
  pub time : Option ℕ
  pub category : String
  pub bucket : String
  pub description : String
  pub labels : List String
  pub fresh_id : String

abbrev pub default_transaction_currency : String
default_transaction_currency = "INR"

abbrev time_or_now : ℕ → Option ℕ → ℕ
time_or_now now none = now
time_or_now now (some t) = t

-- `COALESCE(NULLIF(old, ''), new)`
abbrev pub unless_blank : String → String → String
unless_blank old new = if is_blank old then new else old

module _ {M : Type 0} where
  -- `normalizeWriteInput`.
  unfoldable pub normalize_write_input : ℕ → Incoming M → Details M
  normalize_write_input now i = record i.details {
    currency =
        if is_blank i.details.currency then default_transaction_currency else i.details.currency;
    timestamp = time_or_now now i.time;
  }

  -- The row of the tenant with this message, which the conflict clause looks for.
  abbrev pub is_message : String → String → Transaction M → Bool
  is_message tenant message_id t = str_eq t.tenant_id tenant && str_eq t.message_id message_id

  abbrev pub new_row : ℕ → String → Incoming M → Transaction M
  new_row now tenant i = record {
    id = i.fresh_id;
    tenant_id = tenant;
    message_id = i.message_id;
    details = normalize_write_input now i;
    category = i.category;
    bucket = i.bucket;
    description = i.description;
    muted = false;
    muted_by_merchant = false;
    mute_reason = "";
    updated_at = now;
  }

  -- `DO UPDATE SET`: the user's category, bucket and description stay.
  abbrev pub refreshed : ℕ → Incoming M → Transaction M → Transaction M
  refreshed now i t = record t {
    details = normalize_write_input now i;
    category = unless_blank t.category i.category;
    bucket = unless_blank t.bucket i.bucket;
    updated_at = now;
  }

  abbrev pub id_of : String → Option (Transaction M) → String
  id_of fresh none = fresh
  id_of fresh (some t) = t.id

  -- One statement of the batch.
  unfoldable pub upsert_transaction :
      ℕ → String → Incoming M → List (Transaction M) → List (Transaction M)
  unfolding normalize_write_input change_where exists_where
  upsert_transaction now tenant i ts =
      if exists_where (is_message tenant i.message_id) ts
      then change_where (is_message tenant i.message_id) (refreshed now i) ts
      else ts ++ new_row now tenant i ∷ []

  -- The statements of the batch in order, and the ids that they return.
  unfoldable pub upsert_all :
      ℕ → String → List (Incoming M) → List (Transaction M) → List (Transaction M) × List String
  unfolding upsert_transaction first_where
  upsert_all now tenant [] ts = (ts, [])
  upsert_all now tenant (i ∷ batch) ts =
      let id = id_of i.fresh_id (first_where (is_message tenant i.message_id) ts) in
      let (ts', ids) = upsert_all now tenant batch (upsert_transaction now tenant i ts) in
      (ts', id ∷ ids)

  -- The loop over `insertLabels`.
  unfoldable pub insert_batch_labels : List (Incoming M) → List String → Db M → Db M
  unfolding insert_labels
  insert_batch_labels [] ids db = db
  insert_batch_labels (i ∷ batch) [] db = db
  insert_batch_labels (i ∷ batch) (id ∷ ids) db =
      insert_batch_labels batch ids (insert_labels id i.labels db)
