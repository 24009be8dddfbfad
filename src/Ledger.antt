-- ===== src/Ledger.antt =====
-- The tables of a tenant's transactions, as the repositories of backend/internal/store/postgres read
-- and write them: transactions_repository.go, label_repository.go and ingestion.go, one module each
-- below for what they do to labels, to mutes, to the rest of a transaction, to the taxonomy, and for
-- the ingestion of a batch. A column that is NULL and one that holds the empty text are read alike by
-- every statement (COALESCE), and are the empty text here. `M` is the type of amounts.
pub mod Edits
pub mod Labels
pub mod Merchants
pub mod Mutes
pub mod Taxonomy
pub mod Upserts
pub mod Mappings
pub mod Ingestion
pub mod Operations
pub mod Effects
pub mod Sourced
pub mod Projection
pub mod Upserted
pub mod Views
pub mod Inserted
pub mod Carried
pub mod Unseen
pub mod Isolation
pub mod Kept
pub mod Once
pub mod Muting
pub mod Deletion
mod Samples
use expensor.Prelude.{
  ℕ, String, Bool, true, false, ◌&&◌, Option, none, some, List, [], ◌∷◌, str_eq, if◌then◌else◌,
}
use expensor.Errors.{Err}
use expensor.Errors.Build.{e, kind, user, text}
use expensor.ErrorKind
use expensor.Prelude.Tables.{exists_where}
use expensor.Result.{Result, ok, fail}

-- The columns that an extraction gives and that no user edits.
pub record Details (M : Type 0) : Type 0 where
  pub amount : M
  pub currency : String
  pub original_amount : Option M
  pub original_currency : Option String
  pub exchange_rate : Option M
  pub timestamp : ℕ
  pub merchant_info : String
  pub source : String
  pub source_type : String
  pub source_label : String
  pub bank : String

pub record Transaction (M : Type 0) : Type 0 where
  pub id : String
  pub tenant_id : String
  pub message_id : String
  pub details : Details M
  pub category : String
  pub bucket : String
  pub description : String
  pub muted : Bool
  pub muted_by_merchant : Bool
  pub mute_reason : String
  pub updated_at : ℕ

pub record TransactionLabel : Type 0 where
  pub transaction_id : String
  pub label : String

pub data SourceType : Type 0 where
  manual merchant : SourceType

-- Why a transaction carries a label.
pub record LabelSource : Type 0 where
  pub transaction_id : String
  pub label : String
  pub source_type : SourceType
  pub merchant_pattern : String

pub record LabelMerchant : Type 0 where
  pub tenant_id : String
  pub label : String
  pub merchant_pattern : String

pub record MutedMerchant : Type 0 where
  pub id : String
  pub tenant_id : String
  pub pattern : String
  pub reason : String

pub record MerchantCategory : Type 0 where
  pub tenant_id : String
  pub fragment : String
  pub category : Option String
  pub bucket : Option String
  pub mcc_code : Option String

pub record MccCode : Type 0 where
  pub code : String
  pub category : String
  pub bucket : String

pub record Label : Type 0 where
  pub tenant_id : String
  pub name : String
  pub color : String

-- A category or a bucket; `none` for the tenant of a global one.
pub record TaxonomyItem : Type 0 where
  pub tenant_id : Option String
  pub name : String
  pub description : String
  pub is_default : Bool

pub record Db (M : Type 0) : Type 0 where
  pub transactions : List (Transaction M)
  pub transaction_labels : List TransactionLabel
  pub label_sources : List LabelSource
  pub label_merchants : List LabelMerchant
  pub muted_merchants : List MutedMerchant
  pub merchant_categories : List MerchantCategory
  pub mcc_codes : List MccCode
  pub labels : List Label
  pub categories : List TaxonomyItem
  pub buckets : List TaxonomyItem

-- `merchant_info ILIKE '%' || pattern || '%'`, which Postgres decides.
abbrev pub Like : Type 0
Like = String → String → Bool

-- The error of each call that an operation makes to the database, in order from 0; a database
-- transaction that meets one is rolled back.
abbrev pub Faults : Type 0
Faults = ℕ → Option Err

-- A transaction of the tenant, by its id.
abbrev pub is_own : {M : Type 0} → String → String → Transaction M → Bool
is_own tenant id t = str_eq t.id id && str_eq t.tenant_id tenant

unfoldable pub owns : {M : Type 0} → String → List (Transaction M) → String → Bool
unfolding exists_where
owns tenant transactions id = exists_where (is_own tenant id) transactions

abbrev pub not_found : String → String → Err
not_found op message = e (text op ∷ kind ErrorKind.not_found ∷ user message ∷ [])

-- `RowsAffected() == 0` is an error.
abbrev pub require_affected : {A : Type 0} → Bool → Err → A → Result A
require_affected affected err a = if affected then ok a else fail err
