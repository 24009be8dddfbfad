-- ===== src/Ledger/Views.antt =====
-- What the other tenants see of a request, for the repositories of backend/internal/store/postgres.
use expensor.Prelude.{
  ℕ, String, Bool, true, false, Option, none, some, List, str_eq, ◌≡◌, refl, arith, eq_iff,
}
use expensor.Prelude.Tables.{
  change_where, delete_where, select_where, select_where-change_where, select_where-delete_where,
  select_where-snoc,
}
use expensor.Ledger.{
  Transaction, LabelMerchant, MutedMerchant, MerchantCategory, Label, TaxonomyItem, Db, Like,
  is_own, owns, TransactionLabel, LabelSource,
}
use expensor.Ledger.Mutes.{
  mute_change, is_merchant_of, is_pattern_of, upsert_muted, is_matched, unmuted, unmute_matched,
}
use expensor.Ledger.Taxonomy.{is_of}
use expensor.Ledger.Effects.{unmute_for, with_transactions, with_muted}
use expensor.Ledger.Upserted.{is_row_of}

-- What a tenant sees.
pub record View (M : Type 0) : Type 0 where
  pub transactions : List (Transaction M)
  pub label_merchants : List LabelMerchant
  pub muted_merchants : List MutedMerchant
  pub merchant_categories : List MerchantCategory
  pub labels : List Label
  pub categories : List TaxonomyItem
  pub buckets : List TaxonomyItem
  pub transaction_labels : List TransactionLabel
  pub label_sources : List LabelSource

module _ {M : Type 0} where
  -- Labels and their sources are those of the tenant's own transactions.
  unfoldable pub view : String → Db M → View M
  unfolding select_where owns
  view tenant db = record {
    transactions = select_where (is_row_of tenant) db.transactions;
    label_merchants =
        select_where (λ (m : LabelMerchant). str_eq m.tenant_id tenant) db.label_merchants;
    muted_merchants =
        select_where (λ (m : MutedMerchant). str_eq m.tenant_id tenant) db.muted_merchants;
    merchant_categories =
        select_where (λ (m : MerchantCategory). str_eq m.tenant_id tenant) db.merchant_categories;
    labels = select_where (λ (l : Label). str_eq l.tenant_id tenant) db.labels;
    categories = select_where (λ (i : TaxonomyItem). is_of tenant i.tenant_id) db.categories;
    buckets = select_where (λ (i : TaxonomyItem). is_of tenant i.tenant_id) db.buckets;
    transaction_labels =
        select_where
          (λ (l : TransactionLabel).
            owns tenant (select_where (is_row_of tenant) db.transactions) l.transaction_id)
          db.transaction_labels;
    label_sources =
        select_where
          (λ (s : LabelSource).
            owns tenant (select_where (is_row_of tenant) db.transactions) s.transaction_id)
          db.label_sources;
  }

-- A row of one tenant is none of another's.
pub not_of :
    (tenant other owner : String)
    → str_eq tenant other ≡ false
    → str_eq owner tenant ≡ true
    → str_eq owner other ≡ false
not_of tenant other owner differ h =
    ground (arith, eq_iff owner tenant, eq_iff owner other, eq_iff tenant other)

pub not_of_item :
    (tenant other : String) (owner : Option String)
    → str_eq tenant other ≡ false
    → is_of tenant owner ≡ true
    → is_of other owner ≡ false
not_of_item tenant other none differ h = refl
not_of_item tenant other (some t) differ h = not_of tenant other t differ h

module _ (tenant other : String) (differ : str_eq tenant other ≡ false) where
  pub muted_rows :
      (p : MutedMerchant → Bool) (f : MutedMerchant → MutedMerchant) (ms : List MutedMerchant)
      → ((m : MutedMerchant) → p m ≡ true → str_eq m.tenant_id tenant ≡ true)
      → ((m : MutedMerchant) → str_eq (f m).tenant_id other ≡ str_eq m.tenant_id other)
      → select_where (λ (m : MutedMerchant). str_eq m.tenant_id other) (change_where p f ms)
        ≡ select_where (λ (m : MutedMerchant). str_eq m.tenant_id other) ms
  muted_rows p f ms own stays =
      select_where-change_where (λ (m : MutedMerchant). str_eq m.tenant_id other) p f
        (λ m h. not_of tenant other m.tenant_id differ (own m h)) stays ms

  pub upsert_muted-rows :
      (id pattern reason : String) (ms : List MutedMerchant)
      → select_where
          (λ (m : MutedMerchant). str_eq m.tenant_id other)
          (upsert_muted id tenant pattern reason ms)
        ≡ select_where (λ (m : MutedMerchant). str_eq m.tenant_id other) ms
  unfolding upsert_muted
  upsert_muted-rows id pattern reason ms = ground (
    arith,
    muted_rows (is_pattern_of tenant pattern) (λ (m : MutedMerchant). record m { reason = reason })
        ms (λ m h. ground arith) (λ m. refl),
    select_where-snoc (λ (m : MutedMerchant). str_eq m.tenant_id other)
        (record { id = id; tenant_id = tenant; pattern = pattern; reason = reason }) ms,
  )

module _ {M : Type 0} (tenant other : String) (differ : str_eq tenant other ≡ false) where
  -- A change of the tenant's transactions.
  pub own_rows :
      (p : Transaction M → Bool) (f : Transaction M → Transaction M) (db : Db M)
      → ((t : Transaction M) → p t ≡ true → str_eq t.tenant_id tenant ≡ true)
      → ((t : Transaction M) → is_row_of other (f t) ≡ is_row_of other t)
      → view other (with_transactions (change_where p f db.transactions) db) ≡ view other db
  unfolding view
  own_rows p f db own stays =
      rw
        (select_where-change_where (is_row_of other) p f
          (λ t h. not_of tenant other t.tenant_id differ (own t h)) stays db.transactions)
        refl

  pub is_own-tenant :
      (id : String) (t : Transaction M)
      → is_own tenant id t ≡ true
      → str_eq t.tenant_id tenant ≡ true
  is_own-tenant id t h = ground arith

  pub unmute_matched-view :
      (like : Like) (now : ℕ) (pattern : String) (db : Db M)
      → view other (unmute_matched like now tenant pattern db) ≡ view other db
  unfolding unmute_matched
  unmute_matched-view like now pattern db =
      own_rows (is_matched like tenant pattern) (unmuted now) db (λ t h. ground arith) (λ t. refl)

  pub unmute_for-view :
      (like : Like) (now : ℕ) (m : Option MutedMerchant) (db : Db M)
      → view other (unmute_for like now tenant m db) ≡ view other db
  unmute_for-view like now none db = refl
  unmute_for-view like now (some m) db = unmute_matched-view like now m.pattern db

  pub deleted_muted-view :
      (id : String) (db : Db M)
      → view other (with_muted (delete_where (is_merchant_of tenant id) db.muted_merchants) db)
        ≡ view other db
  unfolding view
  deleted_muted-view id db =
      rw
        (select_where-delete_where (λ (m : MutedMerchant). str_eq m.tenant_id other)
          (is_merchant_of tenant id) (λ m h. not_of tenant other m.tenant_id differ (ground arith))
          db.muted_merchants)
        refl

  pub edited-stays :
      (now : ℕ) (muted : Bool) (reason : String) (t : Transaction M)
      → is_row_of other (mute_change now muted reason t) ≡ is_row_of other t
  edited-stays now true reason t = refl
  edited-stays now false reason t = refl
