-- ===== src/Ledger/Operations.antt =====
-- What a tenant can ask of the repositories above, as one type, and what each operation does to the
-- tables where it returns no error.
use expensor.Prelude.{ℕ, String, Bool, List, [], ◌∷◌}
use expensor.Errors.{Err}
use expensor.Result.{Result, ok, fail}
use expensor.Ledger.{Db, Like, Faults}
use expensor.Ledger.Edits.{update_description, TransactionUpdate, update_transaction}
use expensor.Ledger.Labels.{
  add_labels, add_label, remove_label, create_label, update_label, delete_label,
}
use expensor.Ledger.Merchants.{apply_label_by_merchant, remove_label_by_merchant}
use expensor.Ledger.Mutes.{
  mute_transaction, update_mute_reason, update_merchant_reason, mute_by_merchant,
  delete_muted_merchant, unmute_by_pattern, delete_muted_merchant_and_unmute,
}
use expensor.Ledger.Taxonomy.{Kind, create_item, delete_named_taxonomy}
use expensor.Ledger.Upserts.{Incoming}
use expensor.Ledger.Ingestion.{write}

pub data Op (M : Type 0) : Type 0 where
  describe : String → String → Op M
  edit : String → TransactionUpdate → Op M
  mute : String → Bool → String → Op M
  explain_mute : String → String → Op M
  explain_merchant : String → String → Op M
  mute_merchant : String → String → String → Op M
  forget_merchant : String → Op M
  unmute_pattern : String → Op M
  forget_and_unmute : String → Op M
  tag_all : String → List String → Op M
  tag : String → String → Op M
  untag : String → String → Op M
  new_label : String → String → Op M
  recolor : String → String → Op M
  drop_label : String → Bool → Op M
  tag_merchant : String → String → Op M
  untag_merchant : String → String → Op M
  new_item : Kind → String → String → Op M
  drop_item : Kind → String → Bool → Op M
  ingest : List (Incoming M) → Op M

-- What the caller finds in the tables afterwards: a failed operation was rolled back.
abbrev pub after : {M : Type 0} → Db M → Result (Db M) → Db M
after db (ok db') = db'
after db (fail err) = db

module _ {M : Type 0} (like : Like) (quote : String → String) (no_rows : Err) where
  -- The repository method that an operation calls.
  abbrev pub run_op : Faults → ℕ → String → Op M → Db M → Result (Db M)
  run_op faults now tenant (describe id description) =
      update_description faults now tenant id description
  run_op faults now tenant (edit id u) = update_transaction faults now tenant id u
  run_op faults now tenant (mute id muted reason) =
      mute_transaction faults now tenant id muted reason
  run_op faults now tenant (explain_mute id reason) = update_mute_reason faults now tenant id reason
  run_op faults now tenant (explain_merchant id reason) =
      update_merchant_reason faults tenant id reason
  run_op faults now tenant (mute_merchant id pattern reason) =
      mute_by_merchant like faults now id tenant pattern reason
  run_op faults now tenant (forget_merchant id) = delete_muted_merchant faults tenant id
  run_op faults now tenant (unmute_pattern pattern) =
      unmute_by_pattern like faults now tenant pattern
  run_op faults now tenant (forget_and_unmute id) =
      delete_muted_merchant_and_unmute like faults now tenant id
  run_op faults now tenant (tag_all id labels) = add_labels faults tenant id labels
  run_op faults now tenant (tag id label) = add_label faults tenant id label
  run_op faults now tenant (untag id label) = remove_label faults tenant id label
  run_op faults now tenant (new_label name color) = create_label faults tenant name color
  run_op faults now tenant (recolor name color) = update_label faults tenant name color
  run_op faults now tenant (drop_label name remove) = delete_label faults tenant name remove
  run_op faults now tenant (tag_merchant label pattern) =
      apply_label_by_merchant like faults tenant label pattern
  run_op faults now tenant (untag_merchant label pattern) =
      remove_label_by_merchant faults tenant label pattern
  run_op faults now tenant (new_item k name description) =
      create_item k faults tenant name description
  run_op faults now tenant (drop_item k name remove) =
      delete_named_taxonomy k quote no_rows faults now tenant name remove
  run_op faults now tenant (ingest batch) = write like faults now tenant batch

-- An operation with its tenant, its time and the faults that it meets.
pub record Request (M : Type 0) : Type 0 where
  pub tenant : String
  pub now : ℕ
  pub faults : Faults
  pub op : Op M

module _ {M : Type 0} (like : Like) (quote : String → String) (no_rows : Err) where
  abbrev pub serve_one : Request M → Db M → Db M
  serve_one r db = after db (run_op like quote no_rows r.faults r.now r.tenant r.op db)

  -- Requests of any tenants, one after the other.
  unfoldable pub serve : List (Request M) → Db M → Db M
  serve [] db = db
  serve (r ∷ requests) db = serve requests (serve_one r db)

abbrev pub empty_db : {M : Type 0} → Db M
empty_db = record {
  transactions = [];
  transaction_labels = [];
  label_sources = [];
  label_merchants = [];
  muted_merchants = [];
  merchant_categories = [];
  mcc_codes = [];
  labels = [];
  categories = [];
  buckets = [];
}
