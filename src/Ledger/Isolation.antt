-- ===== src/Ledger/Isolation.antt =====
-- What the other tenants see of a request, for the repositories of backend/internal/store/postgres.
use expensor.Prelude.{
  ℕ, String, Bool, true, false, ◌&&◌, Option, none, some, List, [], ◌∷◌, str_eq, contains, ◌≡◌,
  refl, arith, ◌∙◌, ap, eq_refl,
}
use expensor.Prelude.Tables.{delete_where, exists_where, first_where}
use expensor.Prelude.Rows.{select_where-changed_others, exists_where-change_where}
use expensor.Errors.{Err}
use expensor.Ledger.{Transaction, MutedMerchant, Db, Like, owns, is_own}
use expensor.Ledger.Edits.{with_description, edited}
use expensor.Ledger.Labels.{insert_labels, is_the, removed_if}
use expensor.Ledger.Mutes.{mute_change, is_own_muted, with_reason, is_merchant_of}
use expensor.Ledger.Upserts.{Incoming, upsert_all, insert_batch_labels}
use expensor.Ledger.Mappings.{
  apply_merchant_labels, apply_merchant_categories, apply_muted_merchants, in_batch, categorized,
  best_match, muted_with, is_muted_by, Match,
}
use expensor.Ledger.Ingestion.{write_rows}
use expensor.Ledger.Operations.{
  Op, describe, edit, mute, explain_mute, explain_merchant, mute_merchant, forget_merchant,
  unmute_pattern, forget_and_unmute, tag_all, tag, untag, new_label, recolor, drop_label,
  tag_merchant, untag_merchant, new_item, drop_item, ingest, Request, serve_one,
}
use expensor.Ledger.Effects.{effect, with_muted, serve_one-keeps}
use expensor.Ledger.Upserted.{
  AreApart, fresh_for, is_row_of, upsert_all-owns, upsert_all-apart, select_where-upsert_all,
}
use expensor.Ledger.Views.{
  view, own_rows, is_own-tenant, unmute_matched-view, unmute_for-view, deleted_muted-view,
  edited-stays,
}
use expensor.Ledger.Unseen.{
  mute_merchant-view, forget_label-view, new_label-view, recolor-view, explain_merchant-view,
  new_item-view, delete_item-view,
}
use expensor.Ledger.Carried.{
  insert_own_labels-view, map_merchant-view, unmap_merchant-view, delete_labels-view,
  batch_labels-view, apply_labels-view,
}

module _ {M : Type 0} where
  -- No row of the other tenant has one of these ids.
  no_rows_in :
      (other : String) (ids : List String) (ts : List (Transaction M))
      → ((k : String) → contains k ids ≡ true → owns other ts k ≡ false)
      → exists_where (λ (t : Transaction M). in_batch ids t && is_row_of other t) ts ≡ false
  unfolding exists_where owns
  no_rows_in other ids [] h = refl
  no_rows_in other ids (t ∷ ts) h =
      ground (arith, h t.id, eq_refl t.id, no_rows_in other ids ts (λ k c. ground (arith, h k c)))

  categorized-tenant :
      (now : ℕ) (m : Option Match) (t : Transaction M)
      → (categorized now m t).tenant_id ≡ t.tenant_id
  categorized-tenant now none t = refl
  categorized-tenant now (some m) t = refl

  muted_with-tenant :
      (now : ℕ) (m : Option MutedMerchant) (t : Transaction M)
      → (muted_with now m t).tenant_id ≡ t.tenant_id
  muted_with-tenant now none t = refl
  muted_with-tenant now (some m) t = refl

  categorized-id :
      (now : ℕ) (m : Option Match) (t : Transaction M) → (categorized now m t).id ≡ t.id
  categorized-id now none t = refl
  categorized-id now (some m) t = refl

  categories-owns :
      (like : Like) (now : ℕ) (ids : List String) (db : Db M) (other k : String)
      → owns other (apply_merchant_categories like now ids db).transactions k
        ≡ owns other db.transactions k
  unfolding owns apply_merchant_categories
  categories-owns like now ids db other k =
      exists_where-change_where (is_own other k) (in_batch ids)
        (λ (t : Transaction M).
          categorized now (best_match like db.mcc_codes db.merchant_categories t) t)
        (λ t.
          rw
            (
              categorized-tenant now (best_match like db.mcc_codes db.merchant_categories t) t,
              categorized-id now (best_match like db.mcc_codes db.merchant_categories t) t,
            )
            refl)
        db.transactions

  module _ (other : String) (ids : List String) where
    categories-view :
        (like : Like) (now : ℕ) (db : Db M)
        → ((k : String) → contains k ids ≡ true → owns other db.transactions k ≡ false)
        → view other (apply_merchant_categories like now ids db) ≡ view other db
    unfolding view apply_merchant_categories
    categories-view like now db h =
        rw
          (select_where-changed_others (is_row_of other) (in_batch ids)
            (λ (t : Transaction M).
              categorized now (best_match like db.mcc_codes db.merchant_categories t) t)
            (λ t.
              rw (categorized-tenant now (best_match like db.mcc_codes db.merchant_categories t) t)
                refl)
            db.transactions (no_rows_in other ids db.transactions h))
          refl

    mutes-view :
        (like : Like) (now : ℕ) (db : Db M)
        → ((k : String) → contains k ids ≡ true → owns other db.transactions k ≡ false)
        → view other (apply_muted_merchants like now ids db) ≡ view other db
    unfolding view apply_muted_merchants
    mutes-view like now db h =
        rw
          (select_where-changed_others (is_row_of other) (in_batch ids)
            (λ (t : Transaction M).
              muted_with now (first_where (is_muted_by like t) db.muted_merchants) t)
            (λ t.
              rw (muted_with-tenant now (first_where (is_muted_by like t) db.muted_merchants) t)
                refl)
            db.transactions (no_rows_in other ids db.transactions h))
          refl

  pub batch_labels-rows :
      (batch : List (Incoming M)) (ids : List String) (db : Db M)
      → (insert_batch_labels batch ids db).transactions ≡ db.transactions
  unfolding insert_batch_labels insert_labels
  batch_labels-rows [] ids db = refl
  batch_labels-rows (i ∷ batch) [] db = refl
  batch_labels-rows (i ∷ batch) (id ∷ ids) db =
      batch_labels-rows batch ids (insert_labels id i.labels db)

module _ {M : Type 0} where
  -- The ids that the database generates for an operation are none of the other tenant's.
  unfoldable pub is_fresh_for : String → Op M → List (Transaction M) → Bool
  unfolding fresh_for
  is_fresh_for other (ingest batch) ts = fresh_for other ts batch
  is_fresh_for other o ts = true

module _ {M : Type 0} (tenant other : String) (differ : str_eq tenant other ≡ false) where
  write_rows-view :
      (like : Like) (now : ℕ) (batch : List (Incoming M)) (db : Db M)
      → AreApart tenant other db.transactions
      → fresh_for other db.transactions batch ≡ true
      → view other (write_rows like now tenant batch db) ≡ view other db
  unfolding write_rows view apply_merchant_labels
  write_rows-view like now batch db apart fresh =
      let ids = (upsert_all now tenant batch db.transactions).1 in
      let upserted : Db M = record db {
        transactions = (upsert_all now tenant batch db.transactions).0;
      } in
      let labelled = insert_batch_labels batch ids upserted in
      let mapped = apply_merchant_labels like ids labelled in
      let none_theirs : (k : String)
          → contains k ids ≡ true
          → owns other mapped.transactions k ≡ false =
        λ k c.
          ap (λ ts. owns other ts k) (batch_labels-rows batch ids upserted)
          ∙ upsert_all-owns now tenant other differ batch db.transactions k
          ∙ upsert_all-apart now tenant other differ batch db.transactions apart fresh k c in
      let new : (k : String) → contains k ids ≡ true → owns other upserted.transactions k ≡ false =
        λ k c.
          upsert_all-owns now tenant other differ batch db.transactions k
          ∙ upsert_all-apart now tenant other differ batch db.transactions apart fresh k c in
      mutes-view other ids like now (apply_merchant_categories like now ids mapped)
        (λ k c. categories-owns like now ids mapped other k ∙ none_theirs k c)
      ∙ categories-view other ids like now mapped none_theirs
      ∙ apply_labels-view like other ids labelled none_theirs
      ∙ batch_labels-view other batch ids upserted new
      ∙ rw (select_where-upsert_all now tenant other differ batch db.transactions) refl

  effect-view :
      (like : Like) (now : ℕ) (o : Op M) (db : Db M)
      → AreApart tenant other db.transactions
      → is_fresh_for other o db.transactions ≡ true
      → view other (effect like now tenant o db) ≡ view other db
  unfolding effect is_fresh_for
  effect-view like now (describe id description) db apart fresh =
      own_rows tenant other differ (is_own tenant id) (with_description now description) db
        (is_own-tenant tenant other differ id) (λ t. refl)
  effect-view like now (edit id u) db apart fresh = ground (
    arith,
    own_rows tenant other differ (is_own tenant id) (edited now u) db
        (is_own-tenant tenant other differ id) (λ t. refl),
  )
  effect-view like now (mute id muted reason) db apart fresh =
      own_rows tenant other differ (is_own tenant id) (mute_change now muted reason) db
        (is_own-tenant tenant other differ id) (edited-stays tenant other differ now muted reason)
  effect-view like now (explain_mute id reason) db apart fresh =
      own_rows tenant other differ (is_own_muted tenant id) (with_reason now reason) db
        (λ t h. ground arith) (λ t. refl)
  effect-view like now (explain_merchant id reason) db apart fresh =
      explain_merchant-view tenant other differ id reason db
  effect-view like now (mute_merchant id pattern reason) db apart fresh =
      mute_merchant-view tenant other differ like now id pattern reason db
  effect-view like now (forget_merchant id) db apart fresh =
      deleted_muted-view tenant other differ id db
  effect-view like now (unmute_pattern pattern) db apart fresh =
      unmute_matched-view tenant other differ like now pattern db
  effect-view like now (forget_and_unmute id) db apart fresh =
      unmute_for-view tenant other differ like now
        (first_where (is_merchant_of tenant id) db.muted_merchants)
        (with_muted (delete_where (is_merchant_of tenant id) db.muted_merchants) db)
      ∙ deleted_muted-view tenant other differ id db
  effect-view like now (tag_all id []) db apart fresh = refl
  effect-view like now (tag_all id (l ∷ labels)) db apart fresh =
      insert_own_labels-view tenant other differ id (l ∷ labels) db apart
  effect-view like now (tag id label) db apart fresh =
      insert_own_labels-view tenant other differ id (label ∷ []) db apart
  effect-view like now (untag id label) db apart fresh =
      delete_labels-view other (is_the tenant id db.transactions) label db
        (λ k h. apart k (ground arith))
  effect-view like now (new_label name color) db apart fresh =
      new_label-view tenant other differ like now name color db
  effect-view like now (recolor name color) db apart fresh =
      recolor-view tenant other differ like now name color db
  effect-view like now (drop_label name true) db apart fresh =
      forget_label-view tenant other differ name (removed_if true tenant name db)
      ∙ delete_labels-view other (owns tenant db.transactions) name db apart
  effect-view like now (drop_label name false) db apart fresh =
      forget_label-view tenant other differ name db
  effect-view like now (tag_merchant label pattern) db apart fresh =
      map_merchant-view tenant other differ like label pattern db apart
  effect-view like now (untag_merchant label pattern) db apart fresh =
      unmap_merchant-view tenant other differ label pattern db apart
  effect-view like now (new_item k name description) db apart fresh =
      new_item-view tenant other differ k name description db
  effect-view like now (drop_item k name remove) db apart fresh =
      delete_item-view tenant other differ k now name remove db
  effect-view like now (ingest []) db apart fresh = refl
  effect-view like now (ingest (i ∷ batch)) db apart fresh =
      write_rows-view like now (i ∷ batch) db apart fresh

-- A request of another tenant changes nothing of what a tenant sees: its own transactions, the labels
-- that they carry with the sources of these labels, its mappings, mutes, label names, categories and
-- buckets. No two transactions of the two tenants have one id, and the ids generated for the request
-- are none of the tenant's.
pub serve_one-view :
    {M : Type 0} (like : Like) (quote : String → String) (no_rows : Err) (other : String)
    (r : Request M) (db : Db M)
    → str_eq r.tenant other ≡ false
    → AreApart r.tenant other db.transactions
    → is_fresh_for other r.op db.transactions ≡ true
    → view other (serve_one like quote no_rows r db) ≡ view other db
serve_one-view like quote no_rows other r db differ apart fresh =
    serve_one-keeps like quote no_rows (λ (d : Db _). view other d ≡ view other db) r db refl
      (effect-view r.tenant other differ like r.now r.op db apart fresh)
