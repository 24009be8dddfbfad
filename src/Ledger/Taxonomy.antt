-- ===== src/Ledger/Taxonomy.antt =====
-- Categories and buckets: their creation and deletion in
-- backend/internal/store/postgres/label_repository.go.
use expensor.Prelude.{
  ℕ, String, Bool, true, false, ◌&&◌, Option, none, some, List, [], ◌∷◌, str_eq, if◌then◌else◌,
}
use expensor.Prelude.Tables.{change_where, delete_where, first_where, insert_unless}
use expensor.Prelude.Text.{append}
use expensor.ErrorKind
use expensor.Errors.{Err}
use expensor.Errors.Build.{e, kind, user, text, error}
use expensor.Result.{Result, ok, fail, ◌>>=◌}
use expensor.Scanning.{exec}
use expensor.Ledger.{Transaction, MerchantCategory, TaxonomyItem, Db, Faults}

pub data Kind : Type 0 where
  category bucket : Kind

abbrev pub kind_name : Kind → String
kind_name category = "category"
kind_name bucket = "bucket"

abbrev pub is_of : String → Option String → Bool
is_of tenant none = false
is_of tenant (some t) = str_eq t tenant

abbrev pub is_item : String → String → TaxonomyItem → Bool
is_item tenant name i = str_eq i.name name && is_of tenant i.tenant_id

abbrev same_owner : Option String → Option String → Bool
same_owner none none = true
same_owner none (some t) = false
same_owner (some t) none = false
same_owner (some t) (some u) = str_eq u t

abbrev pub same_item : TaxonomyItem → TaxonomyItem → Bool
same_item a b = str_eq b.name a.name && same_owner a.tenant_id b.tenant_id

abbrev pub new_item_row : String → String → String → TaxonomyItem
new_item_row tenant name description = record {
  tenant_id = some tenant;
  name = name;
  description = description;
  is_default = false;
}

abbrev pub is_value : String → Option String → Bool
is_value name none = false
is_value name (some v) = str_eq v name

abbrev pub is_null {ℓ} : {A : Type ℓ} → Option A → Bool
is_null none = true
is_null (some a) = false

-- A mapping of the tenant to this category or bucket, and one that says nothing else.
abbrev pub maps_to : Kind → String → String → MerchantCategory → Bool
maps_to category tenant name m = is_value name m.category && str_eq m.tenant_id tenant
maps_to bucket tenant name m = is_value name m.bucket && str_eq m.tenant_id tenant

abbrev pub maps_only_to : Kind → String → String → MerchantCategory → Bool
maps_only_to category tenant name m =
    maps_to category tenant name m && is_null m.bucket && is_null m.mcc_code
maps_only_to bucket tenant name m =
    maps_to bucket tenant name m && is_null m.category && is_null m.mcc_code

abbrev pub without : Kind → MerchantCategory → MerchantCategory
without category m = record m { category = none }
without bucket m = record m { bucket = none }

module _ {M : Type 0} where
  abbrev pub items : Kind → Db M → List TaxonomyItem
  items category db = db.categories
  items bucket db = db.buckets

  abbrev pub with_items : Kind → List TaxonomyItem → Db M → Db M
  with_items category rows db = record db { categories = rows }
  with_items bucket rows db = record db { buckets = rows }

  abbrev pub has_value : Kind → String → String → Transaction M → Bool
  has_value category tenant name t = str_eq t.category name && str_eq t.tenant_id tenant
  has_value bucket tenant name t = str_eq t.bucket name && str_eq t.tenant_id tenant

  abbrev pub cleared : Kind → ℕ → Transaction M → Transaction M
  cleared category now t = record t { category = ""; updated_at = now }
  cleared bucket now t = record t { bucket = ""; updated_at = now }

  -- `CreateCategory` and `CreateBucket`.
  unfoldable pub create_item : Kind → Faults → String → String → String → Db M → Result (Db M)
  unfolding exec insert_unless append
  create_item k faults tenant name description db =
      exec (faults 0) (append "postgres.label.create_" (kind_name k))
        (append "creating " (kind_name k))
        (with_items k (insert_unless same_item (new_item_row tenant name description) (items k db))
          db)

  -- The four statements of `execTaxonomyDelete`.
  unfoldable pub delete_item : Kind → ℕ → String → String → Bool → Db M → Db M
  unfolding change_where delete_where
  delete_item k now tenant name remove_from_transactions db =
      let kept : Db M = record db {
        merchant_categories =
            change_where (maps_to k tenant name) (without k)
              (delete_where (maps_only_to k tenant name) db.merchant_categories);
        transactions =
            if remove_from_transactions
            then change_where (has_value k tenant name) (cleared k now) db.transactions
            else db.transactions;
      } in
      with_items k (delete_where (is_item tenant name) (items k db)) kept

-- `ensureTaxonomyCanBeDeleted`, by the row that its query found; `no_rows` is the driver's error where
-- it found none.
abbrev pub deletable : Kind → (String → String) → Err → String → Option TaxonomyItem → Result Bool
deletable k quote no_rows name none = fail (
    e (
      text (append "store.taxonomy.delete_" (kind_name k))
      ∷ kind ErrorKind.not_found
      ∷ user (append (kind_name k) " not found")
      ∷ error no_rows
      ∷ []))
deletable k quote no_rows name (some i) =
    if i.is_default
    then fail (
        e (
          text (append "store.taxonomy.delete_" (kind_name k))
          ∷ kind ErrorKind.conflict
          ∷ user (append "The default " (append (kind_name k) " cannot be deleted."))
          ∷ text (append "cannot delete default " (append (kind_name k) (append " " (quote name))))
          ∷ []))
    else ok true

-- The query for the row: every error of it is answered like a missing row.
abbrev pub ask_deletable :
    Kind → (String → String) → Err → Option Err → String → Option TaxonomyItem → Result Bool
ask_deletable k quote no_rows none name row = deletable k quote no_rows name row
ask_deletable k quote no_rows (some err) name row = deletable k quote err name none

module _ {M : Type 0} where
  -- `deleteNamedTaxonomy` with `DeleteCategory` and `DeleteBucket`.
  unfoldable pub delete_named_taxonomy :
      Kind → (String → String) → Err → Faults → ℕ → String → String → Bool → Db M → Result (Db M)
  unfolding exec first_where delete_item append
  delete_named_taxonomy k quote no_rows faults now tenant name remove_from_transactions db = do
    begun ←
        exec (faults 0) "postgres.label.delete_named_taxonomy"
          (append "beginning delete " (append (kind_name k) " transaction")) db
    asked ←
        ask_deletable k quote no_rows (faults 1) name
          (first_where (is_item tenant name) (items k begun))
    emptied ←
        exec (faults 2) "postgres.label.exec_taxonomy_delete"
          (append "deleting " (append (kind_name k) " merchant mappings")) begun
    mapped ←
        exec (faults 3) "postgres.label.exec_taxonomy_delete"
          (append "clearing " (append (kind_name k) " merchant mappings")) emptied
    untagged ←
        exec (if remove_from_transactions then faults 4 else none)
          "postgres.label.exec_taxonomy_delete"
          (append "clearing " (append (kind_name k) " from transactions")) mapped
    deleted ←
        exec (faults 5) "postgres.label.exec_taxonomy_delete" (append "deleting " (kind_name k))
          (delete_item k now tenant name remove_from_transactions untagged)
    exec (faults 6) "postgres.label.delete_named_taxonomy"
        (append "committing delete " (append (kind_name k) " transaction")) deleted
