-- ===== src/Ledger/Sourced.antt =====
-- Labels and their sources, for backend/internal/store/postgres: what the statements of
-- transactions_repository.go, label_repository.go and ingestion.go do to the two tables.
use mathlib.Core.Path.{subst}
use expensor.Prelude.{
  String, Bool, true, false, not, ◌&&◌, List, [], ◌∷◌, str_eq, ◌≡◌, refl, arith, sym, ◌∙◌, ap,
  eq_iff, eq_refl, Bool-cases, inl, inr,
}
use expensor.Prelude.Tables.{delete_where, exists_where, insert_all_unless}
use expensor.Prelude.Rows.{
  exists_where-insert_all_unless, exists_where-delete_where, exists_where-delete_where-implies,
  exists_where-deleted,
}
use expensor.Ledger.{TransactionLabel, LabelSource, Db, Like}
use expensor.Ledger.Labels.{
  same_label, same_source, label_of, manual_sources, labels_of, has_source, has_label,
  insert_labels, delete_labels,
}
use expensor.Ledger.Merchants.{
  merchant_sources, labelled_all, matching, map_merchant, unmap_merchant, is_affected, is_orphaned,
}

-- In these tables a transaction has a label exactly if it has a source of it.
abbrev pub AreSourced : List TransactionLabel → List LabelSource → Type 0
AreSourced labels sources =
    (id label : String)
    → exists_where (has_label id label) labels ≡ exists_where (has_source id label) sources

pub alike_labels :
    (id label : String) (x y : TransactionLabel)
    → same_label x y ≡ true
    → has_label id label y ≡ has_label id label x
alike_labels id label x y h =
    ground (arith, eq_iff y.transaction_id x.transaction_id, eq_iff y.label x.label)

pub alike_sources :
    (id label : String) (x y : LabelSource)
    → same_source x y ≡ true
    → has_source id label y ≡ has_source id label x
alike_sources id label x y h =
    ground (arith, eq_iff y.transaction_id x.transaction_id, eq_iff y.label x.label)

-- Insertions of the same labels on both sides.
insert_all_unless-AreSourced :
    (labels new_labels : List TransactionLabel) (sources new_sources : List LabelSource)
    → AreSourced labels sources
    → AreSourced new_labels new_sources
    → AreSourced
        (insert_all_unless same_label new_labels labels)
        (insert_all_unless same_source new_sources sources)
insert_all_unless-AreSourced labels new_labels sources new_sources old new id label =
    rw
      (
        exists_where-insert_all_unless (has_label id label) same_label (alike_labels id label)
            new_labels labels,
        exists_where-insert_all_unless (has_source id label) same_source (alike_sources id label)
            new_sources sources,
        old id label,
        new id label,
      )
      refl

manual_sources-AreSourced :
    (k : String) (ls : List String) → AreSourced (labels_of k ls) (manual_sources k ls)
unfolding labels_of manual_sources exists_where
manual_sources-AreSourced k [] id label = refl
manual_sources-AreSourced k (l ∷ ls) id label =
    ground (arith, manual_sources-AreSourced k ls id label)

merchant_sources-AreSourced :
    (l pattern : String) (ids : List String)
    → AreSourced (labelled_all l ids) (merchant_sources l pattern ids)
unfolding labelled_all merchant_sources exists_where
merchant_sources-AreSourced l pattern [] id label = refl
merchant_sources-AreSourced l pattern (k ∷ ids) id label =
    ground (arith, merchant_sources-AreSourced l pattern ids id label)

-- A deletion of sources of one label, and of the labels that it orphans.
module _ (affected : LabelSource → Bool) (name : String)
    (named : (s : LabelSource) → affected s ≡ true → str_eq s.label name ≡ true)
    (labels : List TransactionLabel) (sources : List LabelSource) where
  orphaned : String → String → Bool
  orphaned id label = is_orphaned affected sources name (label_of id label)

  delete_orphaned :
      (id label : String)
      → exists_where (has_label id label) (delete_where (is_orphaned affected sources name) labels)
        ≡ (exists_where (has_label id label) labels && not (orphaned id label))
  unfolding orphaned
  delete_orphaned id label =
      exists_where-delete_where (has_label id label) (is_orphaned affected sources name)
        (orphaned id label)
        (λ l e.
          let same : (l.transaction_id ≡ id) × (l.label ≡ label) =
            ground (arith, eq_iff l.transaction_id id, eq_iff l.label label) in
          ap (λ k. orphaned k l.label) same.0 ∙ ap (orphaned id) same.1)
        labels

  -- Of another label nothing is deleted, and of this one what is left has a source.
  orphans_elsewhere :
      (id label : String)
      → str_eq label name ≡ false
      → exists_where (has_source id label) (delete_where affected sources)
        ≡ exists_where (has_source id label) sources
  orphans_elsewhere id label other = ground (
    arith,
    exists_where-delete_where (has_source id label) affected false
        (λ s e.
          ground (arith, named s, eq_iff s.label label, eq_iff s.label name, eq_iff label name))
        sources,
  )

  orphans_here :
      (id : String)
      → (exists_where (has_source id name) sources && not (orphaned id name))
        ≡ exists_where (has_source id name) (delete_where affected sources)
  unfolding orphaned
  orphans_here id = ground (
    arith,
    eq_refl name,
    exists_where-delete_where-implies (has_source id name) affected sources,
    exists_where-deleted (has_source id name) affected
        (λ s. affected s && str_eq s.transaction_id id) (λ s e t. ground arith) sources,
  )

  orphans-AreSourced :
      AreSourced labels sources
      → AreSourced
          (delete_where (is_orphaned affected sources name) labels)
          (delete_where affected sources)
  unfolding orphaned
  orphans-AreSourced h id label = elim (Bool-cases (str_eq label name)) [
    | inl here ↦
        let same : label ≡ name = ground (arith, eq_iff label name) in
        delete_orphaned id label
        ∙ ap (λ b. b && not (orphaned id label)) (h id label)
        ∙ subst
            (λ k.
              (exists_where (has_source id k) sources && not (orphaned id k))
              ≡ exists_where (has_source id k) (delete_where affected sources))
            (sym same) (orphans_here id)
    | inr other ↦
        rw (delete_orphaned id label, h id label, orphans_elsewhere id label other, other)
          (ground arith)
  ]

module _ {M : Type 0} where
  abbrev pub IsSourced : Db M → Type 0
  IsSourced db = AreSourced db.transaction_labels db.label_sources

  pub insert_labels-IsSourced :
      (id : String) (labels : List String) (db : Db M)
      → IsSourced db
      → IsSourced (insert_labels id labels db)
  unfolding insert_labels
  insert_labels-IsSourced id labels db h =
      insert_all_unless-AreSourced db.transaction_labels (labels_of id labels) db.label_sources
        (manual_sources id labels) h (manual_sources-AreSourced id labels)

  pub map_merchant-IsSourced :
      (like : Like) (tenant label pattern : String) (db : Db M)
      → IsSourced db
      → IsSourced (map_merchant like tenant label pattern db)
  unfolding map_merchant
  map_merchant-IsSourced like tenant label pattern db h =
      let ids = matching like tenant pattern db.transactions in
      insert_all_unless-AreSourced db.transaction_labels (labelled_all label ids) db.label_sources
        (merchant_sources label pattern ids) h (merchant_sources-AreSourced label pattern ids)

  pub delete_labels-IsSourced :
      (p : String → Bool) (name : String) (db : Db M)
      → IsSourced db
      → IsSourced (delete_labels p name db)
  unfolding delete_labels
  delete_labels-IsSourced p name db h id label =
      rw
        (
          exists_where-delete_where (has_label id label)
              (λ l. p l.transaction_id && str_eq l.label name) (p id && str_eq label name)
              (λ l e. ground (arith, eq_iff l.transaction_id id, eq_iff l.label label))
              db.transaction_labels,
          exists_where-delete_where (has_source id label)
              (λ s. p s.transaction_id && str_eq s.label name) (p id && str_eq label name)
              (λ s e. ground (arith, eq_iff s.transaction_id id, eq_iff s.label label))
              db.label_sources,
          h id label,
        )
        refl

  pub unmap_merchant-IsSourced :
      (tenant label pattern : String) (db : Db M)
      → IsSourced db
      → IsSourced (unmap_merchant tenant label pattern db)
  unfolding unmap_merchant
  unmap_merchant-IsSourced tenant label pattern db h =
      orphans-AreSourced (is_affected tenant label pattern db.transactions) label
        (λ s e. ground arith) db.transaction_labels db.label_sources h
