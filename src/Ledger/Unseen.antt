-- ===== src/Ledger/Unseen.antt =====
-- What the other tenants see of the changes to mutes, labels and taxonomy in
-- backend/internal/store/postgres.
use expensor.Prelude.{ℕ, String, Bool, true, false, ◌&&◌, List, str_eq, ◌≡◌, refl, arith, ◌∙◌}
use expensor.Prelude.Tables.{
  change_where, delete_where, select_where, select_where-change_where, select_where-delete_where,
  select_where-insert_unless, insert_unless,
}
use expensor.Ledger.{
  Transaction, LabelMerchant, MutedMerchant, MerchantCategory, Label, TaxonomyItem, Db, Like,
}
use expensor.Ledger.Labels.{is_named, forget_label}
use expensor.Ledger.Mutes.{is_merchant_of, is_matched, muted_as}
use expensor.Ledger.Taxonomy.{
  Kind, category, bucket, is_of, is_item, same_item, new_item_row, maps_to, maps_only_to, without,
  has_value, cleared, delete_item, items, with_items,
}
use expensor.Ledger.Operations.{mute_merchant, new_label, recolor}
use expensor.Ledger.Effects.{effect, with_muted}
use expensor.Ledger.Upserted.{is_row_of}
use expensor.Ledger.Views.{view, muted_rows, not_of, not_of_item, own_rows, upsert_muted-rows}

module _ (tenant other : String) (differ : str_eq tenant other ≡ false) where
  new_item-rows :
      (name description : String) (rows : List TaxonomyItem)
      → select_where
          (λ (i : TaxonomyItem). is_of other i.tenant_id)
          (insert_unless same_item (new_item_row tenant name description) rows)
        ≡ select_where (λ (i : TaxonomyItem). is_of other i.tenant_id) rows
  new_item-rows name description rows =
      select_where-insert_unless (λ (i : TaxonomyItem). is_of other i.tenant_id) same_item
        (new_item_row tenant name description) rows differ

  delete_item-rows :
      (name : String) (rows : List TaxonomyItem)
      → select_where
          (λ (i : TaxonomyItem). is_of other i.tenant_id)
          (delete_where (is_item tenant name) rows)
        ≡ select_where (λ (i : TaxonomyItem). is_of other i.tenant_id) rows
  delete_item-rows name rows =
      select_where-delete_where (λ (i : TaxonomyItem). is_of other i.tenant_id)
        (is_item tenant name) (λ i h. not_of_item tenant other i.tenant_id differ (ground arith))
        rows

  mapped-rows :
      (k : Kind) (name : String) (ms : List MerchantCategory)
      → select_where
          (λ (m : MerchantCategory). str_eq m.tenant_id other)
          (change_where
            (maps_to k tenant name)
            (without k)
            (delete_where (maps_only_to k tenant name) ms))
        ≡ select_where (λ (m : MerchantCategory). str_eq m.tenant_id other) ms
  mapped-rows k name ms =
      select_where-change_where (λ (m : MerchantCategory). str_eq m.tenant_id other)
        (maps_to k tenant name) (without k)
        (λ m h. not_of tenant other m.tenant_id differ (mapped k m h)) (stays k)
        (delete_where (maps_only_to k tenant name) ms)
      ∙ select_where-delete_where (λ (m : MerchantCategory). str_eq m.tenant_id other)
          (maps_only_to k tenant name)
          (λ m h. not_of tenant other m.tenant_id differ (only_mapped k m h)) ms
    where
      mapped :
          (k : Kind) (m : MerchantCategory)
          → maps_to k tenant name m ≡ true
          → str_eq m.tenant_id tenant ≡ true
      mapped category m h = ground arith
      mapped bucket m h = ground arith

      only_mapped :
          (k : Kind) (m : MerchantCategory)
          → maps_only_to k tenant name m ≡ true
          → str_eq m.tenant_id tenant ≡ true
      only_mapped category m h = ground arith
      only_mapped bucket m h = ground arith

      stays :
          (k : Kind) (m : MerchantCategory)
          → str_eq (without k m).tenant_id other ≡ str_eq m.tenant_id other
      stays category m = refl
      stays bucket m = refl

module _ {M : Type 0} (tenant other : String) (differ : str_eq tenant other ≡ false) where
  pub mute_merchant-view :
      (like : Like) (now : ℕ) (id pattern reason : String) (db : Db M)
      → view other (effect like now tenant (mute_merchant id pattern reason) db) ≡ view other db
  unfolding effect view
  mute_merchant-view like now id pattern reason db =
      rw (upsert_muted-rows tenant other differ id pattern reason db.muted_merchants) (
        own_rows tenant other differ (is_matched like tenant pattern) (muted_as now reason) db
          (λ t h. ground arith) (λ t. refl))

  pub explain_merchant-view :
      (id reason : String) (db : Db M)
      → view other (
          with_muted
            (change_where
              (is_merchant_of tenant id)
              (λ (m : MutedMerchant). record m { reason = reason })
              db.muted_merchants)
            db)
        ≡ view other db
  unfolding view
  explain_merchant-view id reason db =
      rw
        (muted_rows tenant other differ (is_merchant_of tenant id)
          (λ (m : MutedMerchant). record m { reason = reason }) db.muted_merchants
          (λ m h. ground arith) (λ m. refl))
        refl

  pub forget_label-view :
      (name : String) (db : Db M) → view other (forget_label tenant name db) ≡ view other db
  unfolding view
  forget_label-view name db =
      rw
        (
          select_where-delete_where (λ (m : LabelMerchant). str_eq m.tenant_id other)
              (λ (m : LabelMerchant). str_eq m.label name && str_eq m.tenant_id tenant)
              (λ m h. not_of tenant other m.tenant_id differ (ground arith)) db.label_merchants,
          select_where-delete_where (λ (l : Label). str_eq l.tenant_id other) (is_named tenant name)
              (λ l h. not_of tenant other l.tenant_id differ (ground arith)) db.labels,
        )
        refl

  pub new_label-view :
      (like : Like) (now : ℕ) (name color : String) (db : Db M)
      → view other (effect like now tenant (new_label name color) db) ≡ view other db
  unfolding effect view
  new_label-view like now name color db =
      rw
        (select_where-insert_unless (λ (l : Label). str_eq l.tenant_id other)
          (λ (a b : Label). str_eq b.tenant_id a.tenant_id && str_eq b.name a.name)
          (record { tenant_id = tenant; name = name; color = color }) db.labels differ)
        refl

  pub recolor-view :
      (like : Like) (now : ℕ) (name color : String) (db : Db M)
      → view other (effect like now tenant (recolor name color) db) ≡ view other db
  unfolding effect view
  recolor-view like now name color db =
      rw
        (select_where-change_where (λ (l : Label). str_eq l.tenant_id other) (is_named tenant name)
          (λ (l : Label). record l { color = color })
          (λ l h. not_of tenant other l.tenant_id differ (ground arith)) (λ l. refl) db.labels)
        refl

  pub new_item-view :
      (k : Kind) (name description : String) (db : Db M)
      → view other (
          with_items k
            (insert_unless same_item (new_item_row tenant name description) (items k db))
            db)
        ≡ view other db
  unfolding view
  new_item-view category name description db =
      rw (new_item-rows tenant other differ name description db.categories) refl
  new_item-view bucket name description db =
      rw (new_item-rows tenant other differ name description db.buckets) refl

  clear_rows :
      (k : Kind) (now : ℕ) (name : String) (ts : List (Transaction M))
      → select_where (is_row_of other) (change_where (has_value k tenant name) (cleared k now) ts)
        ≡ select_where (is_row_of other) ts
  clear_rows category now name ts =
      select_where-change_where (is_row_of other) (has_value category tenant name)
        (cleared category now) (λ t h. not_of tenant other t.tenant_id differ (ground arith))
        (λ t. refl) ts
  clear_rows bucket now name ts =
      select_where-change_where (is_row_of other) (has_value bucket tenant name)
        (cleared bucket now) (λ t h. not_of tenant other t.tenant_id differ (ground arith))
        (λ t. refl) ts

  pub delete_item-view :
      (k : Kind) (now : ℕ) (name : String) (remove : Bool) (db : Db M)
      → view other (delete_item k now tenant name remove db) ≡ view other db
  unfolding delete_item view
  delete_item-view category now name true db =
      rw
        (
          clear_rows category now name db.transactions,
          mapped-rows tenant other differ category name db.merchant_categories,
          delete_item-rows tenant other differ name db.categories,
        )
        refl
  delete_item-view category now name false db =
      rw
        (
          mapped-rows tenant other differ category name db.merchant_categories,
          delete_item-rows tenant other differ name db.categories,
        )
        refl
  delete_item-view bucket now name true db =
      rw
        (
          clear_rows bucket now name db.transactions,
          mapped-rows tenant other differ bucket name db.merchant_categories,
          delete_item-rows tenant other differ name db.buckets,
        )
        refl
  delete_item-view bucket now name false db =
      rw
        (
          mapped-rows tenant other differ bucket name db.merchant_categories,
          delete_item-rows tenant other differ name db.buckets,
        )
        refl
