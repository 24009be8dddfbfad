-- ===== src/Ledger/Projection.antt =====
-- The labels of transactions against the reasons for them, for every operation of
-- backend/internal/store/postgres.
use expensor.Prelude.{
  ℕ, String, true, false, ◌&&◌, Option, none, some, List, [], ◌∷◌, contains, ◌≡◌, arith, eq_iff,
  Bool-cases, inl, inr,
}
use expensor.Prelude.Tables.{exists_where, insert_all_unless, exists_where-append}
use expensor.Prelude.Rows.{exists_where-insert_all_unless}
use expensor.Errors.{Err}
use expensor.Ledger.{Transaction, LabelSource, LabelMerchant, MutedMerchant, Db, Like, owns}
use expensor.Ledger.Labels.{
  same_label, same_source, has_source, has_label, insert_labels, insert_own_labels,
}
use expensor.Ledger.Mutes.{unmute_matched}
use expensor.Ledger.Taxonomy.{category, bucket, delete_item}
use expensor.Ledger.Upserts.{Incoming, upsert_all, insert_batch_labels}
use expensor.Ledger.Mappings.{
  mapped_sources, batch_sources, sourced_labels, apply_merchant_labels, apply_merchant_categories,
  apply_muted_merchants,
}
use expensor.Ledger.Ingestion.{write_rows}
use expensor.Ledger.Operations.{
  Op, describe, edit, mute, explain_mute, explain_merchant, mute_merchant, forget_merchant,
  unmute_pattern, forget_and_unmute, tag_all, tag, untag, new_label, recolor, drop_label,
  tag_merchant, untag_merchant, new_item, drop_item, ingest, Request, serve, serve_one,
}
use expensor.Ledger.Effects.{effect, unmute_for, serve_one-keeps}
use expensor.Ledger.Sourced.{
  IsSourced, alike_labels, alike_sources, insert_labels-IsSourced, map_merchant-IsSourced,
  delete_labels-IsSourced, unmap_merchant-IsSourced,
}

exists_where-sourced_labels :
    (ids : List String) (id label : String) (sources : List LabelSource)
    → exists_where (has_label id label) (sourced_labels ids sources)
      ≡ (contains id ids && exists_where (has_source id label) sources)
unfolding exists_where sourced_labels
exists_where-sourced_labels ids id label [] = ground arith
exists_where-sourced_labels ids id label (s ∷ sources) =
    ground (arith, exists_where-sourced_labels ids id label sources, eq_iff s.transaction_id id)

module _ {M : Type 0} where
  mapped_sources-id :
      (like : Like) (ms : List LabelMerchant) (t : Transaction M) (id label : String)
      → exists_where (has_source id label) (mapped_sources like ms t) ≡ true
      → t.id ≡ id
  unfolding exists_where mapped_sources
  mapped_sources-id like [] t id label h = ground arith
  mapped_sources-id like (m ∷ ms) t id label h =
      ground (arith, mapped_sources-id like ms t id label, eq_iff t.id id)

  batch_sources-id :
      (like : Like) (ms : List LabelMerchant) (ids : List String) (ts : List (Transaction M))
      (id label : String)
      → exists_where (has_source id label) (batch_sources like ms ids ts) ≡ true
      → contains id ids ≡ true
  unfolding exists_where batch_sources
  batch_sources-id like ms ids [] id label h = ground arith
  batch_sources-id like ms ids (t ∷ ts) id label h = ground (
    arith,
    batch_sources-id like ms ids ts id label,
    mapped_sources-id like ms t id label,
    exists_where-append (has_source id label) (mapped_sources like ms t)
        (batch_sources like ms ids ts),
  )

  apply_merchant_labels-IsSourced :
      (like : Like) (ids : List String) (db : Db M)
      → IsSourced db
      → IsSourced (apply_merchant_labels like ids db)
  unfolding apply_merchant_labels
  apply_merchant_labels-IsSourced like ids db h id label =
      let new = batch_sources like db.label_merchants ids db.transactions in
      let sources = insert_all_unless same_source new db.label_sources in
      ground (
        arith,
        h id label,
        exists_where-insert_all_unless (has_label id label) same_label (alike_labels id label)
            (sourced_labels ids sources) db.transaction_labels,
        exists_where-insert_all_unless (has_source id label) same_source (alike_sources id label)
            new db.label_sources,
        exists_where-sourced_labels ids id label sources,
        batch_sources-id like db.label_merchants ids db.transactions id label,
      )

  insert_batch_labels-IsSourced :
      (batch : List (Incoming M)) (ids : List String) (db : Db M)
      → IsSourced db
      → IsSourced (insert_batch_labels batch ids db)
  unfolding insert_batch_labels
  insert_batch_labels-IsSourced [] ids db h = h
  insert_batch_labels-IsSourced (i ∷ batch) [] db h = h
  insert_batch_labels-IsSourced (i ∷ batch) (id ∷ ids) db h =
      insert_batch_labels-IsSourced batch ids (insert_labels id i.labels db)
        (insert_labels-IsSourced id i.labels db h)

  write_rows-IsSourced :
      (like : Like) (now : ℕ) (tenant : String) (batch : List (Incoming M)) (db : Db M)
      → IsSourced db
      → IsSourced (write_rows like now tenant batch db)
  unfolding write_rows apply_merchant_categories apply_muted_merchants
  write_rows-IsSourced like now tenant batch db h =
      let (rows, ids) = upsert_all now tenant batch db.transactions in
      apply_merchant_labels-IsSourced like ids
        (insert_batch_labels batch ids (record db { transactions = rows }))
        (insert_batch_labels-IsSourced batch ids (record db { transactions = rows }) h)

  insert_own_labels-IsSourced :
      (tenant id : String) (labels : List String) (db : Db M)
      → IsSourced db
      → IsSourced (insert_own_labels tenant id labels db)
  insert_own_labels-IsSourced tenant id labels db h =
      elim (Bool-cases (owns tenant db.transactions id)) [
        | inl e ↦ rw e (insert_labels-IsSourced id labels db h)
        | inr e ↦ rw e h
      ]

  unmute_for-IsSourced :
      (like : Like) (now : ℕ) (tenant : String) (m : Option MutedMerchant) (db : Db M)
      → IsSourced db
      → IsSourced (unmute_for like now tenant m db)
  unfolding unmute_matched
  unmute_for-IsSourced like now tenant none db h = h
  unmute_for-IsSourced like now tenant (some m) db h = h

  effect-IsSourced :
      (like : Like) (now : ℕ) (tenant : String) (o : Op M) (db : Db M)
      → IsSourced db
      → IsSourced (effect like now tenant o db)
  unfolding effect unmute_matched delete_item
  effect-IsSourced like now tenant (describe id description) db h = h
  effect-IsSourced like now tenant (edit id u) db h = ground arith
  effect-IsSourced like now tenant (mute id muted reason) db h = h
  effect-IsSourced like now tenant (explain_mute id reason) db h = h
  effect-IsSourced like now tenant (explain_merchant id reason) db h = h
  effect-IsSourced like now tenant (mute_merchant id pattern reason) db h = h
  effect-IsSourced like now tenant (forget_merchant id) db h = h
  effect-IsSourced like now tenant (unmute_pattern pattern) db h = h
  effect-IsSourced like now tenant (forget_and_unmute id) db h =
      unmute_for-IsSourced like now tenant _ _ h
  effect-IsSourced like now tenant (tag_all id []) db h = h
  effect-IsSourced like now tenant (tag_all id (l ∷ labels)) db h =
      insert_own_labels-IsSourced tenant id (l ∷ labels) db h
  effect-IsSourced like now tenant (tag id label) db h =
      insert_own_labels-IsSourced tenant id (label ∷ []) db h
  effect-IsSourced like now tenant (untag id label) db h = delete_labels-IsSourced _ label db h
  effect-IsSourced like now tenant (new_label name color) db h = h
  effect-IsSourced like now tenant (recolor name color) db h = h
  effect-IsSourced like now tenant (drop_label name true) db h = delete_labels-IsSourced _ name db h
  effect-IsSourced like now tenant (drop_label name false) db h = h
  effect-IsSourced like now tenant (tag_merchant label pattern) db h =
      map_merchant-IsSourced like tenant label pattern db h
  effect-IsSourced like now tenant (untag_merchant label pattern) db h =
      unmap_merchant-IsSourced tenant label pattern db h
  effect-IsSourced like now tenant (new_item category name description) db h = h
  effect-IsSourced like now tenant (new_item bucket name description) db h = h
  effect-IsSourced like now tenant (drop_item category name remove) db h = h
  effect-IsSourced like now tenant (drop_item bucket name remove) db h = h
  effect-IsSourced like now tenant (ingest []) db h = h
  effect-IsSourced like now tenant (ingest (i ∷ batch)) db h =
      write_rows-IsSourced like now tenant (i ∷ batch) db h

  -- Served one after the other, whatever their tenants and whatever faults they meet, requests keep
  -- the labels of transactions and the reasons for them in step: in the end a transaction has a label
  -- exactly if it has a source of that label, provided that this held at first.
  pub serve-IsSourced :
      (like : Like) (quote : String → String) (no_rows : Err) (requests : List (Request M))
      (db : Db M)
      → IsSourced db
      → IsSourced (serve like quote no_rows requests db)
  unfolding serve
  serve-IsSourced like quote no_rows [] db h = h
  serve-IsSourced like quote no_rows (r ∷ requests) db h =
      serve-IsSourced like quote no_rows requests (serve_one like quote no_rows r db) (
        serve_one-keeps like quote no_rows IsSourced r db h
          (effect-IsSourced like r.now r.tenant r.op db h))
