-- ===== src/Ledger/Effects.antt =====
-- What the operations do to the tables where no error is returned, with the calls to the database left
-- out. The invariants are shown of these effects and carried to the operations by `serve_one-keeps`.
use mathlib.Core.Path.{subst}
use expensor.Prelude.{
  sym, ℕ, String, true, false, ◌&&◌, Option, none, some, List, [], ◌∷◌, is_empty, str_eq,
  if◌then◌else◌, ◌≡◌, refl, arith,
}
use expensor.Prelude.Tables.{change_where, delete_where, first_where, insert_unless}
use expensor.Errors.{Err}
use expensor.Result.{Result, ok, fail}
use expensor.Scanning.{exec}
use expensor.Ledger.{Transaction, MutedMerchant, Label, Db, Like, Faults, is_own, owns}
use expensor.Ledger.Edits.{
  update_description, with_description, is_no_update, update_transaction, set_fields, edited,
}
use expensor.Ledger.Labels.{
  insert_labels, insert_own_labels, add_labels, add_label, is_the, delete_labels, remove_label,
  create_label, update_label, delete_label, forget_label, removed_if, is_named,
}
use expensor.Ledger.Merchants.{
  apply_label_by_merchant, map_merchant, remove_label_by_merchant, unmap_merchant,
}
use expensor.Ledger.Mutes.{
  mute_transaction, mute_change, update_mute_reason, is_own_muted, with_reason,
  update_merchant_reason, is_merchant_of, mute_by_merchant, upsert_muted, is_matched, muted_as,
  delete_muted_merchant, unmute_by_pattern, unmute_matched, delete_muted_merchant_and_unmute,
}
use expensor.Ledger.Taxonomy.{
  create_item, delete_item, delete_named_taxonomy, items, with_items, new_item_row, same_item,
}
use expensor.Ledger.Ingestion.{write, write_rows}
use expensor.Ledger.Operations.{
  Op, describe, edit, mute, explain_mute, explain_merchant, mute_merchant, forget_merchant,
  unmute_pattern, forget_and_unmute, tag_all, tag, untag, new_label, recolor, drop_label,
  tag_merchant, untag_merchant, new_item, drop_item, ingest, run_op, after, Request, serve_one,
}

module _ {M : Type 0} where
  abbrev pub with_transactions : List (Transaction M) → Db M → Db M
  with_transactions rows db = record db { transactions = rows }

  abbrev pub with_muted : List MutedMerchant → Db M → Db M
  with_muted rows db = record db { muted_merchants = rows }

  abbrev pub unmute_for : Like → ℕ → String → Option MutedMerchant → Db M → Db M
  unmute_for like now tenant none db = db
  unmute_for like now tenant (some m) db = unmute_matched like now tenant m.pattern db

  module _ (like : Like) where
    unfoldable pub effect : ℕ → String → Op M → Db M → Db M
    unfolding change_where delete_where first_where insert_unless unmute_matched upsert_muted
        delete_labels map_merchant unmap_merchant delete_item write_rows owns insert_labels
    effect now tenant (describe id description) db =
        with_transactions
          (change_where (is_own tenant id) (with_description now description) db.transactions) db
    effect now tenant (edit id u) db =
        if is_no_update u
        then db
        else with_transactions (change_where (is_own tenant id) (edited now u) db.transactions) db
    effect now tenant (mute id muted reason) db =
        with_transactions
          (change_where (is_own tenant id) (mute_change now muted reason) db.transactions) db
    effect now tenant (explain_mute id reason) db =
        with_transactions
          (change_where (is_own_muted tenant id) (with_reason now reason) db.transactions) db
    effect now tenant (explain_merchant id reason) db =
        with_muted
          (change_where (is_merchant_of tenant id)
            (λ (m : MutedMerchant). record m { reason = reason }) db.muted_merchants)
          db
    effect now tenant (mute_merchant id pattern reason) db =
        with_transactions
          (change_where (is_matched like tenant pattern) (muted_as now reason) db.transactions)
          (with_muted (upsert_muted id tenant pattern reason db.muted_merchants) db)
    effect now tenant (forget_merchant id) db =
        with_muted (delete_where (is_merchant_of tenant id) db.muted_merchants) db
    effect now tenant (unmute_pattern pattern) db = unmute_matched like now tenant pattern db
    effect now tenant (forget_and_unmute id) db =
        unmute_for like now tenant (first_where (is_merchant_of tenant id) db.muted_merchants)
          (with_muted (delete_where (is_merchant_of tenant id) db.muted_merchants) db)
    effect now tenant (tag_all id labels) db =
        if is_empty labels then db else insert_own_labels tenant id labels db
    effect now tenant (tag id label) db = insert_own_labels tenant id (label ∷ []) db
    effect now tenant (untag id label) db =
        delete_labels (is_the tenant id db.transactions) label db
    effect now tenant (new_label name color) db = record db {
      labels =
          insert_unless (λ (a b : Label). str_eq b.tenant_id a.tenant_id && str_eq b.name a.name)
            (record { tenant_id = tenant; name = name; color = color }) db.labels;
    }
    effect now tenant (recolor name color) db = record db {
      labels =
          change_where (is_named tenant name) (λ (l : Label). record l { color = color }) db.labels;
    }
    effect now tenant (drop_label name remove) db =
        forget_label tenant name (removed_if remove tenant name db)
    effect now tenant (tag_merchant label pattern) db = map_merchant like tenant label pattern db
    effect now tenant (untag_merchant label pattern) db = unmap_merchant tenant label pattern db
    effect now tenant (new_item k name description) db =
        with_items k (insert_unless same_item (new_item_row tenant name description) (items k db))
          db
    effect now tenant (drop_item k name remove) db = delete_item k now tenant name remove db
    effect now tenant (ingest batch) db =
        if is_empty batch then db else write_rows like now tenant batch db

  -- What is returned, if anything is.
  abbrev pub Yields : Result (Db M) → Db M → Type 0
  Yields (ok db') db = db' ≡ db
  Yields (fail err) db = Unit

  module _ (like : Like) (quote : String → String) (no_rows : Err) where
    run_op-Yields :
        (faults : Faults) (now : ℕ) (tenant : String) (o : Op M) (db : Db M)
        → Yields (run_op like quote no_rows faults now tenant o db) (effect like now tenant o db)
    unfolding effect exec update_description update_transaction set_fields mute_transaction
        update_mute_reason update_merchant_reason mute_by_merchant delete_muted_merchant
        unmute_by_pattern delete_muted_merchant_and_unmute add_labels add_label remove_label
        create_label update_label delete_label apply_label_by_merchant remove_label_by_merchant
        create_item delete_named_taxonomy write
    run_op-Yields faults now tenant (describe id description) db = ground arith
    run_op-Yields faults now tenant (edit id u) db = ground arith
    run_op-Yields faults now tenant (mute id muted reason) db = ground arith
    run_op-Yields faults now tenant (explain_mute id reason) db = ground arith
    run_op-Yields faults now tenant (explain_merchant id reason) db = ground arith
    run_op-Yields faults now tenant (mute_merchant id pattern reason) db = ground arith
    run_op-Yields faults now tenant (forget_merchant id) db = ground arith
    run_op-Yields faults now tenant (unmute_pattern pattern) db = ground arith
    run_op-Yields faults now tenant (forget_and_unmute id) db = ground arith
    run_op-Yields faults now tenant (tag_all id []) db = refl
    run_op-Yields faults now tenant (tag_all id (l ∷ labels)) db = ground arith
    run_op-Yields faults now tenant (tag id label) db = ground arith
    run_op-Yields faults now tenant (untag id label) db = ground arith
    run_op-Yields faults now tenant (new_label name color) db = ground arith
    run_op-Yields faults now tenant (recolor name color) db = ground arith
    run_op-Yields faults now tenant (drop_label name true) db = ground arith
    run_op-Yields faults now tenant (drop_label name false) db = ground arith
    run_op-Yields faults now tenant (tag_merchant label pattern) db = ground arith
    run_op-Yields faults now tenant (untag_merchant label pattern) db = ground arith
    run_op-Yields faults now tenant (new_item k name description) db = ground arith
    run_op-Yields faults now tenant (drop_item k name remove) db = ground arith
    run_op-Yields faults now tenant (ingest []) db = refl
    run_op-Yields faults now tenant (ingest (i ∷ batch)) db = ground arith

    settle :
        (P : Db M → Type 0) (db new : Db M) (r : Result (Db M))
        → Yields r new
        → P db
        → P new
        → P (after db r)
    settle P db new (ok db') e h hn = subst P (sym e) hn
    settle P db new (fail err) e h hn = h

    -- What one request leaves: the effect of its operation, or the tables as they were.
    pub serve_one-keeps :
        (P : Db M → Type 0) (r : Request M) (db : Db M)
        → P db
        → P (effect like r.now r.tenant r.op db)
        → P (serve_one like quote no_rows r db)
    serve_one-keeps P r db =
        settle P db (effect like r.now r.tenant r.op db)
          (run_op like quote no_rows r.faults r.now r.tenant r.op db)
          (run_op-Yields r.faults r.now r.tenant r.op db)
