-- ===== src/Ledger/Merchants.antt =====
-- Labels by merchant: ApplyLabelByMerchant and RemoveLabelByMerchant of
-- backend/internal/store/postgres/label_repository.go.
use expensor.Prelude.{String, Bool, true, false, not, ◌&&◌, List, [], ◌∷◌, str_eq, if◌then◌else◌}
use expensor.Prelude.Tables.{delete_where, exists_where, insert_unless, insert_all_unless}
use expensor.Result.{Result, ◌>>=◌}
use expensor.Scanning.{exec}
use expensor.Ledger.{
  Transaction, TransactionLabel, SourceType, manual, merchant, LabelSource, LabelMerchant, Db, Like,
  Faults, owns,
}
use expensor.Ledger.Labels.{same_label, same_source, label_of, merchant_source, has_source}

abbrev pub same_mapping : LabelMerchant → LabelMerchant → Bool
same_mapping a b =
    str_eq b.tenant_id a.tenant_id
    && str_eq b.label a.label
    && str_eq b.merchant_pattern a.merchant_pattern

abbrev is_merchant : SourceType → Bool
is_merchant merchant = true
is_merchant manual = false

-- A source that the tenant's mapping of a pattern to a label gave.
abbrev pub is_mapped : String → String → LabelSource → Bool
is_mapped label pattern s =
    str_eq s.label label && is_merchant s.source_type && str_eq s.merchant_pattern pattern

module _ {M : Type 0} (like : Like) where
  -- The ids of the tenant's transactions whose merchant fits the pattern.
  unfoldable pub matching : String → String → List (Transaction M) → List String
  matching tenant pattern [] = []
  matching tenant pattern (t ∷ ts) =
      let rest = matching tenant pattern ts in
      if str_eq t.tenant_id tenant && like t.details.merchant_info pattern
      then t.id ∷ rest
      else rest

-- What the two inserts add for these transactions.
unfoldable pub merchant_sources : String → String → List String → List LabelSource
merchant_sources label pattern [] = []
merchant_sources label pattern (id ∷ ids) =
    merchant_source label pattern id ∷ merchant_sources label pattern ids

unfoldable pub labelled_all : String → List String → List TransactionLabel
labelled_all label [] = []
labelled_all label (id ∷ ids) = label_of id label ∷ labelled_all label ids

-- `removeOrphanedTransactionLabels` over the transactions that `loadMerchantLabelTransactionIDs`
-- found before the deletion: a label of one of them goes if no source is left for it.
abbrev pub is_orphaned : (LabelSource → Bool) → List LabelSource → String → TransactionLabel → Bool
is_orphaned affected sources label l =
    str_eq l.label label
    && exists_where (λ (s : LabelSource). affected s && str_eq s.transaction_id l.transaction_id)
        sources
    && not (exists_where (has_source l.transaction_id label) (delete_where affected sources))

module _ {M : Type 0} where
  -- The three inserts of ApplyLabelByMerchant.
  unfoldable pub map_merchant : Like → String → String → String → Db M → Db M
  unfolding insert_unless insert_all_unless matching merchant_sources labelled_all
  map_merchant like tenant label pattern db =
      let ids = matching like tenant pattern db.transactions in
      record db {
        label_merchants =
            insert_unless same_mapping
              (record { tenant_id = tenant; label = label; merchant_pattern = pattern })
              db.label_merchants;
        label_sources =
            insert_all_unless same_source (merchant_sources label pattern ids) db.label_sources;
        transaction_labels =
            insert_all_unless same_label (labelled_all label ids) db.transaction_labels;
      }

  -- `ApplyLabelByMerchant`, without the count that it returns.
  unfoldable pub apply_label_by_merchant :
      Like → Faults → String → String → String → Db M → Result (Db M)
  unfolding exec map_merchant
  apply_label_by_merchant like faults tenant label pattern db = do
    begun ←
        exec (faults 0) "postgres.label.apply_label_by_merchant"
          "beginning apply-label-by-merchant transaction" db
    mapped ←
        exec (faults 1) "postgres.label.apply_label_by_merchant" "storing label merchant mapping"
          begun
    sourced ←
        exec (faults 2) "postgres.label.apply_label_by_merchant" "storing merchant label sources"
          mapped
    labelled ←
        exec (faults 3) "postgres.label.apply_label_by_merchant" "applying label by merchant"
          (map_merchant like tenant label pattern sourced)
    exec (faults 4) "postgres.label.apply_label_by_merchant"
        "committing apply-label-by-merchant transaction" labelled

  -- The sources of the tenant's transactions that the mapping gave.
  abbrev pub is_affected : String → String → String → List (Transaction M) → LabelSource → Bool
  is_affected tenant label pattern transactions s =
      owns tenant transactions s.transaction_id && is_mapped label pattern s

  -- The deletions of RemoveLabelByMerchant.
  unfoldable pub unmap_merchant : String → String → String → Db M → Db M
  unfolding delete_where owns exists_where
  unmap_merchant tenant label pattern db =
      let affected = is_affected tenant label pattern db.transactions in
      record db {
        label_merchants =
            delete_where
              (λ (m : LabelMerchant).
                str_eq m.label label
                && str_eq m.merchant_pattern pattern
                && str_eq m.tenant_id tenant)
              db.label_merchants;
        label_sources = delete_where affected db.label_sources;
        transaction_labels =
            delete_where (is_orphaned affected db.label_sources label) db.transaction_labels;
      }

  -- `RemoveLabelByMerchant`, without the count that it returns. The counts and deletions of the loop
  -- over the affected transactions have the one fault `faults 4`.
  unfoldable pub remove_label_by_merchant : Faults → String → String → String → Db M → Result (Db M)
  unfolding exec unmap_merchant
  remove_label_by_merchant faults tenant label pattern db = do
    begun ←
        exec (faults 0) "postgres.label.remove_label_by_merchant"
          "beginning remove-label-by-merchant transaction" db
    unmapped ←
        exec (faults 1) "postgres.label.remove_label_by_merchant" "removing merchant label mapping"
          begun
    loaded ←
        exec (faults 2) "postgres.label.load_merchant_label_transaction_i_ds"
          "loading affected transactions" unmapped
    unsourced ←
        exec (faults 3) "postgres.label.remove_label_by_merchant" "removing merchant label sources"
          loaded
    removed ←
        exec (faults 4) "postgres.label.remove_orphaned_transaction_labels"
          "removing orphaned transaction label" (unmap_merchant tenant label pattern unsourced)
    exec (faults 5) "postgres.label.remove_label_by_merchant"
        "committing remove-label-by-merchant transaction" removed
