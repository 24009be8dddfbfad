-- ===== src/Ledger/Samples.antt =====
-- A small ledger of two tenants, and the theorems on backend/internal/store/postgres at it.
use mathlib.Core.Path.{subst}
use expensor.Prelude.{
  ℕ, ◌≤◌, String, true, false, none, some, List, [], ◌∷◌, str_eq, ◌≡◌, refl, arith, eq_iff,
}
use expensor.Prelude.Tables.{exists_where}
use expensor.Errors.{Err}
use expensor.Result.{ok}
use expensor.Scanning.{exec}
use expensor.Ledger.{Details, Transaction, TaxonomyItem, Db, Like, not_found, owns}
use expensor.Ledger.Labels.{label_of, manual_source}
use expensor.Ledger.Taxonomy.{category, items, delete_named_taxonomy, delete_item}
use expensor.Ledger.Upserts.{Incoming}
use expensor.Ledger.Ingestion.{write}
use expensor.Ledger.Operations.{
  Op, untag_merchant, ingest, Request, serve, serve_one, after, empty_db,
}
use expensor.Ledger.Sourced.{IsSourced}
use expensor.Ledger.Projection.{serve-IsSourced}
use expensor.Ledger.Upserted.{AreApart, fresh_for}
use expensor.Ledger.Views.{view}
use expensor.Ledger.Isolation.{serve_one-view, is_fresh_for}
use expensor.Ledger.Kept.{AreKept, write-AreKept}
use expensor.Ledger.Once.{rows_of, rows_after, has_message, write-once}
use expensor.Ledger.Deletion.{IsGone, is_removable, delete_named_taxonomy-IsGone}

abbrev likes : Like
likes text pattern = str_eq text pattern

abbrev details : String → Details ℕ
details shop = record {
  amount = 450;
  currency = "INR";
  original_amount = none;
  original_currency = none;
  exchange_rate = none;
  timestamp = 3;
  merchant_info = shop;
  source = "HDFC";
  source_type = "card";
  source_label = "";
  bank = "HDFC";
}

abbrev row : String → String → String → String → Transaction ℕ
row id tenant message shop = record {
  id = id;
  tenant_id = tenant;
  message_id = message;
  details = details shop;
  category = "food";
  bucket = "";
  description = "lunch";
  muted = false;
  muted_by_merchant = false;
  mute_reason = "";
  updated_at = 1;
}

abbrev food : TaxonomyItem
food = record { tenant_id = some "ann"; name = "food"; description = ""; is_default = false }

abbrev ledger : Db ℕ
ledger = record (empty_db {M = ℕ}) {
  transactions = row "t1" "ann" "m1" "cafe" ∷ row "t2" "bob" "m1" "cafe" ∷ [];
  transaction_labels = label_of "t1" "work" ∷ [];
  label_sources = manual_source "t1" "work" ∷ [];
  label_merchants = record { tenant_id = "ann"; label = "eating"; merchant_pattern = "cafe" } ∷ [];
  merchant_categories =
      record {
        tenant_id = "ann";
        fragment = "cafe";
        category = some "food";
        bucket = some "needs";
        mcc_code = none;
      }
      ∷ [];
  categories = food ∷ [];
}

abbrev lunch : Incoming ℕ
lunch = record {
  message_id = "m1";
  details = details "cafe";
  time = none;
  category = "travel";
  bucket = "wants";
  description = "";
  labels = "new" ∷ [];
  fresh_id = "t3";
}

abbrev dinner : Incoming ℕ
dinner = record lunch { message_id = "m2"; fresh_id = "t4" }

abbrev request : String → Op ℕ → Request ℕ
request tenant o = record { tenant = tenant; now = 9; faults = λ n. none; op = o }

abbrev requests : List (Request ℕ)
requests =
    request "ann" (ingest (lunch ∷ dinner ∷ []))
    ∷ request "ann" (untag_merchant "eating" "cafe")
    ∷ []

abbrev no_row : Err
no_row = not_found "" "no rows"

ledger-IsSourced : IsSourced ledger
unfolding exists_where
ledger-IsSourced id label = refl

serve-IsSourced_example : IsSourced (serve likes (λ s. s) no_row requests ledger)
serve-IsSourced_example = serve-IsSourced likes (λ s. s) no_row requests ledger ledger-IsSourced

apart : AreApart "ann" "bob" ledger.transactions
unfolding owns exists_where
apart k h =
    let same : "t1" ≡ k = ground (arith, eq_iff "t1" k) in
    subst (λ j. owns "bob" ledger.transactions j ≡ false) same refl

serve_one-view_example :
    view "bob"
      (serve_one likes (λ s. s) no_row (request "ann" (ingest (lunch ∷ dinner ∷ []))) ledger)
    ≡ view "bob" ledger
unfolding is_fresh_for fresh_for owns exists_where
serve_one-view_example =
    serve_one-view likes (λ s. s) no_row "bob" (request "ann" (ingest (lunch ∷ dinner ∷ []))) ledger
      refl apart refl

write-AreKept_example :
    AreKept ledger.transactions
      (after ledger (write likes (λ n. none) 9 "ann" (lunch ∷ []) ledger)).transactions
write-AreKept_example = write-AreKept likes (λ n. none) 9 "ann" (lunch ∷ []) ledger

one_row : rows_of "ann" "m1" ledger.transactions ≤ 1
unfolding rows_of
one_row = ground arith

write-once_example :
    (db' : Db ℕ) × (write likes (λ n. none) 9 "ann" (lunch ∷ lunch ∷ []) ledger ≡ ok db')
    × (rows_of "ann" "m1" db'.transactions
        ≡ rows_after
            (has_message "m1" (lunch ∷ lunch ∷ []))
            (rows_of "ann" "m1" ledger.transactions))
write-once_example = write-once likes 9 "ann" (lunch ∷ lunch ∷ []) ledger "m1" one_row

delete_named_taxonomy-IsGone_example :
    (exists_where (is_removable "ann" "food") (items category ledger) ≡ true)
    × IsGone category "ann" "food" true (delete_item category 9 "ann" "food" true ledger)
unfolding delete_named_taxonomy exec
delete_named_taxonomy-IsGone_example =
    delete_named_taxonomy-IsGone category (λ s. s) no_row (λ n. none) 9 "ann" "food" true ledger
      (delete_item category 9 "ann" "food" true ledger) refl refl
