-- ===== src/Ledger/Labels.antt =====
-- The labels of transactions: AddLabel, AddLabels and RemoveLabel of
-- backend/internal/store/postgres/transactions_repository.go, and the labels of label_repository.go.
use expensor.Prelude.{
  String, Bool, true, false, ◌&&◌, none, List, [], ◌∷◌, is_empty, str_eq, if◌then◌else◌,
}
use expensor.Prelude.Tables.{
  change_where, delete_where, exists_where, insert_unless, insert_all_unless,
}
use expensor.Result.{Result, ok, ◌>>=◌}
use expensor.Scanning.{exec}
use expensor.Ledger.{
  Transaction, TransactionLabel, SourceType, manual, merchant, LabelSource, LabelMerchant, Label,
  Db, Faults, owns, not_found, require_affected,
}

abbrev same_type : SourceType → SourceType → Bool
same_type manual manual = true
same_type merchant merchant = true
same_type manual merchant = false
same_type merchant manual = false

-- The keys of the two tables.
abbrev pub same_label : TransactionLabel → TransactionLabel → Bool
same_label a b = str_eq b.transaction_id a.transaction_id && str_eq b.label a.label

abbrev pub same_source : LabelSource → LabelSource → Bool
same_source a b =
    str_eq b.transaction_id a.transaction_id
    && str_eq b.label a.label
    && same_type b.source_type a.source_type
    && str_eq b.merchant_pattern a.merchant_pattern

abbrev pub label_of : String → String → TransactionLabel
label_of id label = record { transaction_id = id; label = label }

abbrev pub manual_source : String → String → LabelSource
manual_source id label = record {
  transaction_id = id;
  label = label;
  source_type = manual;
  merchant_pattern = "";
}

abbrev pub merchant_source : String → String → String → LabelSource
merchant_source label pattern id = record {
  transaction_id = id;
  label = label;
  source_type = merchant;
  merchant_pattern = pattern;
}

-- The rows of a table of sources, and of labels, for labels of one transaction.
unfoldable pub manual_sources : String → List String → List LabelSource
manual_sources id [] = []
manual_sources id (l ∷ labels) = manual_source id l ∷ manual_sources id labels

unfoldable pub labels_of : String → List String → List TransactionLabel
labels_of id [] = []
labels_of id (l ∷ labels) = label_of id l ∷ labels_of id labels

abbrev pub has_source : String → String → LabelSource → Bool
has_source id label s = str_eq s.transaction_id id && str_eq s.label label

abbrev pub has_label : String → String → TransactionLabel → Bool
has_label id label l = str_eq l.transaction_id id && str_eq l.label label

-- A label of the tenant, by its name.
abbrev pub is_named : String → String → Label → Bool
is_named tenant name l = str_eq l.name name && str_eq l.tenant_id tenant

-- Where an operation runs several statements whose effects no later one of it reads, they are put
-- together at the last of them; a fault of an earlier one still ends the operation.
module _ {M : Type 0} where
  -- The two inserts of AddLabels, for a transaction that the tenant owns.
  unfoldable pub insert_labels : String → List String → Db M → Db M
  unfolding manual_sources labels_of insert_all_unless
  insert_labels id labels db = record db {
    label_sources = insert_all_unless same_source (manual_sources id labels) db.label_sources;
    transaction_labels = insert_all_unless same_label (labels_of id labels) db.transaction_labels;
  }

  abbrev pub insert_own_labels : String → String → List String → Db M → Db M
  insert_own_labels tenant id labels db =
      if owns tenant db.transactions id then insert_labels id labels db else db

  -- `AddLabels`: a database transaction of two inserts.
  unfoldable pub add_labels : Faults → String → String → List String → Db M → Result (Db M)
  unfolding exec owns insert_labels
  add_labels faults tenant id labels db = if is_empty labels then ok db else do
    begun ← exec (faults 0) "postgres.transactions.add_labels" "beginning add-labels transaction" db
    sourced ← exec (faults 1) "postgres.transactions.add_labels" "adding label sources" begun
    labelled ←
        exec (faults 2) "postgres.transactions.add_labels" "adding labels"
          (insert_own_labels tenant id labels sourced)
    exec (faults 3) "postgres.transactions.add_labels" "committing add-labels transaction" labelled

  -- `AddLabel`.
  unfoldable pub add_label : Faults → String → String → String → Db M → Result (Db M)
  unfolding exec owns insert_labels
  add_label faults tenant id label db = do
    begun ← exec (faults 0) "postgres.transactions.add_label" "beginning add-label transaction" db
    sourced ← exec (faults 1) "postgres.transactions.add_label" "adding label source" begun
    labelled ←
        exec (faults 2) "postgres.transactions.add_label" "adding label"
          (insert_own_labels tenant id (label ∷ []) sourced)
    exec (faults 3) "postgres.transactions.add_label" "committing add-label transaction" labelled

  -- The sources and the labels of that name of a tenant's transactions are deleted; `p` chooses the
  -- transactions.
  unfoldable pub delete_labels : (String → Bool) → String → Db M → Db M
  unfolding delete_where
  delete_labels p label db = record db {
    label_sources = delete_where (λ s. p s.transaction_id && str_eq s.label label) db.label_sources;
    transaction_labels =
        delete_where (λ l. p l.transaction_id && str_eq l.label label) db.transaction_labels;
  }

  abbrev pub is_the : String → String → List (Transaction M) → String → Bool
  is_the tenant id transactions k = str_eq k id && owns tenant transactions k

  -- `RemoveLabel`: deleting no label is an error, and rolls the deleted sources back.
  unfoldable pub remove_label : Faults → String → String → String → Db M → Result (Db M)
  unfolding exec owns delete_labels exists_where
  remove_label faults tenant id label db = do
    begun ←
        exec (faults 0) "postgres.transactions.remove_label" "beginning remove-label transaction" db
    unsourced ← exec (faults 1) "postgres.transactions.remove_label" "removing label sources" begun
    removed ←
        exec (faults 2) "postgres.transactions.remove_label" "removing label"
          (delete_labels (is_the tenant id unsourced.transactions) label unsourced)
    affected ←
        require_affected
          (exists_where
            (λ (l : TransactionLabel).
              is_the tenant id begun.transactions l.transaction_id && str_eq l.label label)
            begun.transaction_labels)
          (not_found "store.transactions.remove_label" "label not found on transaction") removed
    exec (faults 3) "postgres.transactions.remove_label" "committing remove-label transaction"
        affected

  -- `CreateLabel`: an existing label keeps its color.
  unfoldable pub create_label : Faults → String → String → String → Db M → Result (Db M)
  unfolding exec insert_unless
  create_label faults tenant name color db =
      exec (faults 0) "postgres.label.create_label" "creating label: executing label insert"
        (record db {
          labels =
              insert_unless
                (λ (a b : Label). str_eq b.tenant_id a.tenant_id && str_eq b.name a.name)
                (record { tenant_id = tenant; name = name; color = color }) db.labels;
        })

  -- `UpdateLabel`.
  unfoldable pub update_label : Faults → String → String → String → Db M → Result (Db M)
  unfolding exec change_where exists_where
  update_label faults tenant name color db = do
    db' ←
        exec (faults 0) "postgres.label.update_label" "updating label: executing label update"
          (record db {
            labels =
                change_where (is_named tenant name) (λ (l : Label). record l { color = color })
                  db.labels;
          })
    require_affected (exists_where (is_named tenant name) db.labels)
        (not_found "store.taxonomy.update_label" "label not found") db'

  -- The last two deletions of DeleteLabel.
  abbrev pub forget_label : String → String → Db M → Db M
  forget_label tenant name db = record db {
    label_merchants =
        delete_where (λ (m : LabelMerchant). str_eq m.label name && str_eq m.tenant_id tenant)
          db.label_merchants;
    labels = delete_where (is_named tenant name) db.labels;
  }

  abbrev pub removed_if : Bool → String → String → Db M → Db M
  removed_if remove tenant name db =
      if remove then delete_labels (owns tenant db.transactions) name db else db

  -- `DeleteLabel`; calls 1 and 2 are made only where the label is removed from transactions.
  unfoldable pub delete_label : Faults → String → String → Bool → Db M → Result (Db M)
  unfolding exec delete_where delete_labels owns
  delete_label faults tenant name remove_from_transactions db = do
    begun ←
        exec (faults 0) "postgres.label.delete_label"
          "deleting label: beginning delete-label transaction" db
    unsourced ←
        exec (if remove_from_transactions then faults 1 else none) "postgres.label.delete_label"
          "deleting label: deleting label sources" begun
    unlabelled ←
        exec (if remove_from_transactions then faults 2 else none) "postgres.label.delete_label"
          "deleting label: deleting transaction labels"
          (removed_if remove_from_transactions tenant name unsourced)
    unmapped ←
        exec (faults 3) "postgres.label.delete_label" "deleting label: deleting merchant mappings"
          unlabelled
    deleted ←
        exec (faults 4) "postgres.label.delete_label" "deleting label: executing label delete"
          (forget_label tenant name unmapped)
    exec (faults 5) "postgres.label.delete_label"
        "deleting label: committing delete-label transaction" deleted
