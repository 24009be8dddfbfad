-- ===== src/Ledger/Inserted.antt =====
-- Which transactions the inserts of labels and their sources in backend/internal/store/postgres are of.
use expensor.Prelude.{
  String, Bool, true, false, List, [], ◌∷◌, contains, ◌≡◌, refl, arith, ◌∙◌, eq_refl, Bool-cases,
  inl, inr,
}
use expensor.Prelude.Tables.{exists_where, exists_where-append}
use expensor.Ledger.{Transaction, TransactionLabel, LabelSource, LabelMerchant, Like}
use expensor.Ledger.Labels.{labels_of, manual_sources}
use expensor.Ledger.Merchants.{merchant_sources, labelled_all}
use expensor.Ledger.Mappings.{mapped_sources, batch_sources, sourced_labels}

-- The rows that a statement inserts are of transactions that it was given.
module _ (p : String → Bool) where
  abbrev AreNone : List String → Type 0
  AreNone ids = (k : String) → contains k ids ≡ true → p k ≡ false

  pub no_labels_of :
      (id : String) (labels : List String)
      → p id ≡ false
      → exists_where (λ (l : TransactionLabel). p l.transaction_id) (labels_of id labels) ≡ false
  unfolding exists_where labels_of
  no_labels_of id [] h = refl
  no_labels_of id (l ∷ labels) h = ground (arith, no_labels_of id labels h)

  pub no_manual_sources :
      (id : String) (labels : List String)
      → p id ≡ false
      → exists_where (λ (s : LabelSource). p s.transaction_id) (manual_sources id labels) ≡ false
  unfolding exists_where manual_sources
  no_manual_sources id [] h = refl
  no_manual_sources id (l ∷ labels) h = ground (arith, no_manual_sources id labels h)

  pub rest_none : (id : String) (ids : List String) → AreNone (id ∷ ids) → AreNone ids
  unfolding contains
  rest_none id ids h k c = h k (ground arith)

  pub first_none : (id : String) (ids : List String) → AreNone (id ∷ ids) → p id ≡ false
  unfolding contains
  first_none id ids h = h id (ground (arith, eq_refl id))

  pub no_labelled_all :
      (label : String) (ids : List String)
      → AreNone ids
      → exists_where (λ (l : TransactionLabel). p l.transaction_id) (labelled_all label ids) ≡ false
  unfolding exists_where labelled_all
  no_labelled_all label [] h = refl
  no_labelled_all label (id ∷ ids) h =
      ground (arith, first_none id ids h, no_labelled_all label ids (rest_none id ids h))

  pub no_merchant_sources :
      (label pattern : String) (ids : List String)
      → AreNone ids
      → exists_where (λ (s : LabelSource). p s.transaction_id) (merchant_sources label pattern ids)
        ≡ false
  unfolding exists_where merchant_sources
  no_merchant_sources label pattern [] h = refl
  no_merchant_sources label pattern (id ∷ ids) h =
      ground
        (arith, first_none id ids h, no_merchant_sources label pattern ids (rest_none id ids h))

  pub no_sourced_labels :
      (ids : List String) (sources : List LabelSource)
      → AreNone ids
      → exists_where (λ (l : TransactionLabel). p l.transaction_id) (sourced_labels ids sources)
        ≡ false
  unfolding exists_where sourced_labels
  no_sourced_labels ids [] h = refl
  no_sourced_labels ids (s ∷ sources) h =
      ground (arith, h s.transaction_id, no_sourced_labels ids sources h)

  module _ {M : Type 0} (like : Like) where
    no_mapped_sources :
        (ms : List LabelMerchant) (t : Transaction M)
        → p t.id ≡ false
        → exists_where (λ (s : LabelSource). p s.transaction_id) (mapped_sources like ms t) ≡ false
    unfolding exists_where mapped_sources
    no_mapped_sources [] t h = refl
    no_mapped_sources (m ∷ ms) t h = ground (arith, no_mapped_sources ms t h)

    pub no_batch_sources :
        (ms : List LabelMerchant) (ids : List String) (ts : List (Transaction M))
        → AreNone ids
        → exists_where (λ (s : LabelSource). p s.transaction_id) (batch_sources like ms ids ts)
          ≡ false
    unfolding exists_where batch_sources
    no_batch_sources ms ids [] h = refl
    no_batch_sources ms ids (t ∷ ts) h = elim (Bool-cases (contains t.id ids)) [
      | inr e ↦ rw e (no_batch_sources ms ids ts h)
      | inl e ↦ rw e (
          exists_where-append (λ (s : LabelSource). p s.transaction_id) (mapped_sources like ms t)
            (batch_sources like ms ids ts)
          ∙ rw (no_mapped_sources ms t (h t.id e), no_batch_sources ms ids ts h) refl)
    ]
