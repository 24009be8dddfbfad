-- ===== src/Ledger/Mappings.antt =====
-- A tenant's mappings of merchants to labels, categories and mutes, as
-- backend/internal/store/postgres/ingestion.go applies them to the transactions of a batch.
use expensor.Prelude.{
  ℕ, String, Bool, true, ◌&&◌, ◌||◌, Option, none, some, List, [], ◌∷◌, ◌++◌, contains, str_eq, ltb,
  ◌==◌, if◌then◌else◌,
}
use expensor.Prelude.Tables.{change_where, first_where, insert_all_unless}
use expensor.Prelude.Text.{text_le}
use expensor.Prelude.Words.{text_length}
use expensor.Scanning.{coalesce}
use expensor.Ledger.{
  Transaction, TransactionLabel, LabelSource, LabelMerchant, MutedMerchant, MerchantCategory,
  MccCode, Db, Like,
}
use expensor.Ledger.Labels.{same_label, same_source, label_of, merchant_source}
use expensor.Ledger.Upserts.{unless_blank}

module _ {M : Type 0} where
  -- The sources that the tenant's mappings give a transaction.
  unfoldable pub mapped_sources : Like → List LabelMerchant → Transaction M → List LabelSource
  mapped_sources like [] t = []
  mapped_sources like (m ∷ ms) t =
      let rest = mapped_sources like ms t in
      if like t.details.merchant_info m.merchant_pattern && str_eq m.tenant_id t.tenant_id
      then merchant_source m.label m.merchant_pattern t.id ∷ rest
      else rest

  unfoldable pub batch_sources :
      Like → List LabelMerchant → List String → List (Transaction M) → List LabelSource
  unfolding mapped_sources
  batch_sources like ms ids [] = []
  batch_sources like ms ids (t ∷ ts) =
      let rest = batch_sources like ms ids ts in
      if contains t.id ids then mapped_sources like ms t ++ rest else rest

-- The labels of the sources of these transactions.
unfoldable pub sourced_labels : List String → List LabelSource → List TransactionLabel
sourced_labels ids [] = []
sourced_labels ids (s ∷ sources) =
    let rest = sourced_labels ids sources in
    if contains s.transaction_id ids then label_of s.transaction_id s.label ∷ rest else rest

abbrev pub mcc_of : Option String → List MccCode → Option MccCode
mcc_of none codes = none
mcc_of (some code) codes = first_where (λ (c : MccCode). str_eq c.code code) codes

abbrev mcc_category : Option MccCode → Option String
mcc_category none = none
mcc_category (some c) = some c.category

abbrev mcc_bucket : Option MccCode → Option String
mcc_bucket none = none
mcc_bucket (some c) = some c.bucket

-- A row of `ranked_matches`.
pub record Match : Type 0 where
  pub fragment : String
  pub category : String
  pub bucket : String

abbrev blank_if_null : Option String → String
blank_if_null none = ""
blank_if_null (some b) = b

abbrev pub match_of : List MccCode → MerchantCategory → Option Match
match_of codes m =
    let c = mcc_of m.mcc_code codes in
    elim (coalesce (mcc_category c) m.category) [
      | none ↦ none
      | some found ↦ some (record {
        fragment = m.fragment;
        category = found;
        bucket = blank_if_null (coalesce (mcc_bucket c) m.bucket);
      })
    ]

-- `ORDER BY LENGTH(fragment) DESC, fragment ASC`: the first of two.
abbrev pub ranks_before : Match → Match → Bool
ranks_before a b =
    ltb (text_length b.fragment) (text_length a.fragment)
    || (text_length a.fragment == text_length b.fragment && text_le a.fragment b.fragment)

abbrev pub better : Option Match → Option Match → Option Match
better none b = b
better (some a) none = some a
better (some a) (some b) = if ranks_before a b then some a else some b

module _ {M : Type 0} where
  abbrev pub is_fragment_of : Like → Transaction M → MerchantCategory → Bool
  is_fragment_of like t m =
      like t.details.merchant_info m.fragment && str_eq m.tenant_id t.tenant_id

  -- The match of rank 1.
  unfoldable pub best_match :
      Like → List MccCode → List MerchantCategory → Transaction M → Option Match
  unfolding first_where
  best_match like codes [] t = none
  best_match like codes (m ∷ ms) t =
      let rest = best_match like codes ms t in
      if is_fragment_of like t m then better (match_of codes m) rest else rest

  abbrev pub categorized : ℕ → Option Match → Transaction M → Transaction M
  categorized now none t = t
  categorized now (some m) t = record t {
    category = unless_blank t.category m.category;
    bucket = unless_blank t.bucket m.bucket;
    updated_at = now;
  }

  abbrev pub muted_with : ℕ → Option MutedMerchant → Transaction M → Transaction M
  muted_with now none t = t
  muted_with now (some m) t = record t {
    muted = true;
    muted_by_merchant = true;
    mute_reason = m.reason;
    updated_at = now;
  }

  abbrev pub is_muted_by : Like → Transaction M → MutedMerchant → Bool
  is_muted_by like t m = str_eq m.tenant_id t.tenant_id && like t.details.merchant_info m.pattern

  abbrev pub in_batch : List String → Transaction M → Bool
  in_batch ids t = contains t.id ids

  -- `applyMerchantLabels`.
  unfoldable pub apply_merchant_labels : Like → List String → Db M → Db M
  unfolding insert_all_unless batch_sources sourced_labels
  apply_merchant_labels like ids db =
      let sources =
        insert_all_unless same_source (batch_sources like db.label_merchants ids db.transactions)
          db.label_sources in
      record db {
        label_sources = sources;
        transaction_labels =
            insert_all_unless same_label (sourced_labels ids sources) db.transaction_labels;
      }

  -- `applyMerchantCategories`.
  unfoldable pub apply_merchant_categories : Like → ℕ → List String → Db M → Db M
  unfolding change_where best_match
  apply_merchant_categories like now ids db = record db {
    transactions =
        change_where (in_batch ids)
          (λ (t : Transaction M).
            categorized now (best_match like db.mcc_codes db.merchant_categories t) t)
          db.transactions;
  }

  -- `applyMutedMerchants`. Of several patterns that match, SQL leaves open which one gives the reason;
  -- here it is the first of the table.
  unfoldable pub apply_muted_merchants : Like → ℕ → List String → Db M → Db M
  unfolding change_where first_where
  apply_muted_merchants like now ids db = record db {
    transactions =
        change_where (in_batch ids)
          (λ (t : Transaction M).
            muted_with now (first_where (is_muted_by like t) db.muted_merchants) t)
          db.transactions;
  }
