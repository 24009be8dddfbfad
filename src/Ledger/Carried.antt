-- ===== src/Ledger/Carried.antt =====
-- Which labels the transactions of the other tenants carry, for the statements of
-- backend/internal/store/postgres that write labels and their sources.
use expensor.Prelude.{
  String, Bool, true, false, ◌&&◌, List, [], ◌∷◌, str_eq, contains, ◌≡◌, refl, arith, ◌∙◌, ap,
  eq_iff, eq_refl, Bool-cases, inl, inr,
}
use expensor.Prelude.Tables.{
  exists_where, select_where, select_where-insert_unless, select_where-insert_all_unless,
  select_where-delete_where,
}
use expensor.Ledger.{Transaction, TransactionLabel, LabelSource, LabelMerchant, Db, Like, owns}
use expensor.Ledger.Labels.{
  insert_labels, insert_own_labels, delete_labels, labels_of, manual_sources, same_label,
  same_source,
}
use expensor.Ledger.Merchants.{
  same_mapping, matching, merchant_sources, labelled_all, map_merchant, unmap_merchant, is_affected,
  is_orphaned,
}
use expensor.Ledger.Mappings.{batch_sources, apply_merchant_labels}
use expensor.Ledger.Upserts.{Incoming, insert_batch_labels}
use expensor.Ledger.Upserted.{AreApart, is_row_of}
use expensor.Ledger.Views.{view, not_of}
use expensor.Ledger.Inserted.{
  no_labels_of, no_manual_sources, rest_none, first_none, no_labelled_all, no_merchant_sources,
  no_sourced_labels, no_batch_sources,
}

module _ {M : Type 0} where
  -- A tenant's transactions own the same ids apart from the rest.
  pub theirs-owns :
      (other k : String) (ts : List (Transaction M))
      → owns other (select_where (is_row_of other) ts) k ≡ owns other ts k
  unfolding owns exists_where select_where
  theirs-owns other k [] = refl
  theirs-owns other k (t ∷ ts) = ground (arith, theirs-owns other k ts)

  insert_labels-view :
      (other id : String) (labels : List String) (db : Db M)
      → owns other db.transactions id ≡ false
      → view other (insert_labels id labels db) ≡ view other db
  unfolding insert_labels view
  insert_labels-view other id labels db h =
      let p = owns other (select_where (is_row_of other) db.transactions) in
      let off : p id ≡ false = theirs-owns other id db.transactions ∙ h in
      rw
        (
          select_where-insert_all_unless (λ (l : TransactionLabel). p l.transaction_id) same_label
              (labels_of id labels) db.transaction_labels (no_labels_of p id labels off),
          select_where-insert_all_unless (λ (s : LabelSource). p s.transaction_id) same_source
              (manual_sources id labels) db.label_sources (no_manual_sources p id labels off),
        )
        refl

  -- Labels that are deleted from transactions of which none is the other tenant's.
  pub delete_labels-view :
      (other : String) (q : String → Bool) (label : String) (db : Db M)
      → ((k : String) → q k ≡ true → owns other db.transactions k ≡ false)
      → view other (delete_labels q label db) ≡ view other db
  unfolding delete_labels view
  delete_labels-view other q label db apart =
      let p = owns other (select_where (is_row_of other) db.transactions) in
      let off : (k : String) → q k ≡ true → p k ≡ false =
        λ k h. theirs-owns other k db.transactions ∙ apart k h in
      rw
        (
          select_where-delete_where (λ (l : TransactionLabel). p l.transaction_id)
              (λ (l : TransactionLabel). q l.transaction_id && str_eq l.label label)
              (λ l h. off l.transaction_id (ground arith)) db.transaction_labels,
          select_where-delete_where (λ (s : LabelSource). p s.transaction_id)
              (λ (s : LabelSource). q s.transaction_id && str_eq s.label label)
              (λ s h. off s.transaction_id (ground arith)) db.label_sources,
        )
        refl

  kept :
      (id : String) (labels : List String) (db : Db M)
      → (insert_labels id labels db).transactions ≡ db.transactions
  unfolding insert_labels
  kept id labels db = refl

  pub batch_labels-view :
      (other : String) (batch : List (Incoming M)) (ids : List String) (db : Db M)
      → ((k : String) → contains k ids ≡ true → owns other db.transactions k ≡ false)
      → view other (insert_batch_labels batch ids db) ≡ view other db
  unfolding insert_batch_labels
  batch_labels-view other [] ids db h = refl
  batch_labels-view other (i ∷ batch) [] db h = refl
  batch_labels-view other (i ∷ batch) (id ∷ ids) db h =
      batch_labels-view other batch ids (insert_labels id i.labels db) (λ k c.
        ap (λ ts. owns other ts k) (kept id i.labels db)
        ∙ rest_none (owns other db.transactions) id ids h k c)
      ∙ insert_labels-view other id i.labels db (first_none (owns other db.transactions) id ids h)

  pub apply_labels-view :
      (like : Like) (other : String) (ids : List String) (db : Db M)
      → ((k : String) → contains k ids ≡ true → owns other db.transactions k ≡ false)
      → view other (apply_merchant_labels like ids db) ≡ view other db
  unfolding apply_merchant_labels view
  apply_labels-view like other ids db h =
      let p = owns other (select_where (is_row_of other) db.transactions) in
      let off : (k : String) → contains k ids ≡ true → p k ≡ false =
        λ k c. theirs-owns other k db.transactions ∙ h k c in
      rw
        (
          select_where-insert_all_unless (λ (l : TransactionLabel). p l.transaction_id) same_label _
              db.transaction_labels (no_sourced_labels p ids _ off),
          select_where-insert_all_unless (λ (s : LabelSource). p s.transaction_id) same_source
              (batch_sources like db.label_merchants ids db.transactions) db.label_sources
              (no_batch_sources p like db.label_merchants ids db.transactions off),
        )
        refl

  -- The ids that a pattern matches are the tenant's.
  matching-owns :
      (like : Like) (tenant pattern k : String) (ts : List (Transaction M))
      → contains k (matching like tenant pattern ts) ≡ true
      → owns tenant ts k ≡ true
  unfolding matching owns exists_where contains
  matching-owns like tenant pattern k [] h = ground arith
  matching-owns like tenant pattern k (t ∷ ts) h =
      ground (arith, eq_iff t.id k, eq_refl k, matching-owns like tenant pattern k ts)

  -- A label that loses its last source is of a transaction that the sources are of.
  affected-owns :
      (tenant label pattern k : String) (ts : List (Transaction M)) (sources : List LabelSource)
      → exists_where
          (λ (s : LabelSource). is_affected tenant label pattern ts s && str_eq s.transaction_id k)
          sources
        ≡ true
      → owns tenant ts k ≡ true
  unfolding exists_where
  affected-owns tenant label pattern k ts [] h = ground arith
  affected-owns tenant label pattern k ts (s ∷ sources) h =
      ground (arith, eq_iff s.transaction_id k, affected-owns tenant label pattern k ts sources)

module _ {M : Type 0} (tenant other : String) (differ : str_eq tenant other ≡ false) where
  pub insert_own_labels-view :
      (id : String) (labels : List String) (db : Db M)
      → AreApart tenant other db.transactions
      → view other (insert_own_labels tenant id labels db) ≡ view other db
  insert_own_labels-view id labels db apart = elim (Bool-cases (owns tenant db.transactions id)) [
    | inl e ↦ rw e (insert_labels-view other id labels db (apart id e))
    | inr e ↦ rw e refl
  ]

  pub map_merchant-view :
      (like : Like) (label pattern : String) (db : Db M)
      → AreApart tenant other db.transactions
      → view other (map_merchant like tenant label pattern db) ≡ view other db
  unfolding map_merchant view
  map_merchant-view like label pattern db apart =
      let p = owns other (select_where (is_row_of other) db.transactions) in
      let ids = matching like tenant pattern db.transactions in
      let off : (k : String) → contains k ids ≡ true → p k ≡ false = λ k c.
        theirs-owns other k db.transactions
        ∙ apart k (matching-owns like tenant pattern k db.transactions c) in
      rw
        (
          select_where-insert_unless (λ (m : LabelMerchant). str_eq m.tenant_id other) same_mapping
              (record { tenant_id = tenant; label = label; merchant_pattern = pattern })
              db.label_merchants differ,
          select_where-insert_all_unless (λ (l : TransactionLabel). p l.transaction_id) same_label
              (labelled_all label ids) db.transaction_labels (no_labelled_all p label ids off),
          select_where-insert_all_unless (λ (s : LabelSource). p s.transaction_id) same_source
              (merchant_sources label pattern ids) db.label_sources
              (no_merchant_sources p label pattern ids off),
        )
        refl

  pub unmap_merchant-view :
      (label pattern : String) (db : Db M)
      → AreApart tenant other db.transactions
      → view other (unmap_merchant tenant label pattern db) ≡ view other db
  unfolding unmap_merchant view
  unmap_merchant-view label pattern db apart =
      let p = owns other (select_where (is_row_of other) db.transactions) in
      let affected = is_affected tenant label pattern db.transactions in
      let off : (k : String) → owns tenant db.transactions k ≡ true → p k ≡ false =
        λ k h. theirs-owns other k db.transactions ∙ apart k h in
      rw
        (
          select_where-delete_where (λ (m : LabelMerchant). str_eq m.tenant_id other)
              (λ (m : LabelMerchant).
                str_eq m.label label
                && str_eq m.merchant_pattern pattern
                && str_eq m.tenant_id tenant)
              (λ m h. not_of tenant other m.tenant_id differ (ground arith)) db.label_merchants,
          select_where-delete_where (λ (s : LabelSource). p s.transaction_id) affected
              (λ s h. off s.transaction_id (ground arith)) db.label_sources,
          select_where-delete_where (λ (l : TransactionLabel). p l.transaction_id)
              (is_orphaned affected db.label_sources label)
              (λ l h. off l.transaction_id (
                affected-owns tenant label pattern l.transaction_id db.transactions db.label_sources
                  (ground arith)))
              db.transaction_labels,
        )
        refl
