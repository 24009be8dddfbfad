-- ===== src/Diagnostics.antt =====
-- Extraction diagnostics: backend/internal/store/postgres/diagnostics_repository.go and
-- backend/internal/store/diagnostics.go.
pub mod Shown
pub mod Closed
pub mod Samples
use expensor.Prelude.{
  ℕ, String, Bool, true, false, not, ◌&&◌, ◌||◌, Option, none, some, List, [], ◌∷◌, ◌++◌, str_eq,
  if◌then◌else◌,
}
use expensor.Prelude.Text.{is_blank}
use expensor.Prelude.Tables.{change_where, exists_where, first_where, upsert_where}
use expensor.ErrorKind
use expensor.Errors.{Err}
use expensor.Errors.Build.{e, kind, user, text, error}
use expensor.Result.{Result, ok, fail, ◌>>=◌}
use expensor.Scanning.{exec}

pub record ExtractionDiagnostic : Type 0 where
  pub reader : String
  pub message_id : String
  pub source : String
  pub sender : String
  pub sender_email : String
  pub subject : String
  pub email_body : String
  pub received_at : Option ℕ
  pub snippet : String
  pub rule_id : String
  pub rule_name : String
  pub amount_regex : String
  pub merchant_regex : String
  pub currency_regex : String
  pub failure_reasons : List String

-- A row of the table; `none` is NULL.
pub record StoredDiagnostic : Type 0 where
  pub id : String
  pub tenant_id : Option String
  pub status : String
  pub reader : String
  pub message_id : Option String
  pub source : String
  pub sender : String
  pub sender_email : String
  pub subject : String
  pub email_body : String
  pub received_at : Option ℕ
  pub snippet : String
  pub rule_id : Option String
  pub rule_name : String
  pub amount_regex : String
  pub merchant_regex : String
  pub currency_regex : String
  pub failure_reasons : List String
  pub created_at : ℕ
  pub updated_at : ℕ
  pub resolved_at : Option ℕ

-- The statuses.
abbrev pub open_status : String
open_status = "open"

abbrev resolved_status : String
resolved_status = "resolved"

abbrev ignored_status : String
ignored_status = "ignored"

-- `ValidateDiagnosticUpdateStatus`.
unfoldable pub validate_update_status : String → Result String
validate_update_status status =
    if str_eq status open_status || str_eq status resolved_status || str_eq status ignored_status
    then ok status
    else fail (
        e (
          text "store.diagnostics.validate_update_status"
          ∷ kind ErrorKind.invalid_input
          ∷ text "invalid diagnostic status"
          ∷ []))

abbrev pub nullable_string : String → Option String
nullable_string value = if is_blank value then none else some value

abbrev pub diagnostic_sender : ExtractionDiagnostic → String
diagnostic_sender d = if is_blank d.sender then d.sender_email else d.sender

abbrev pub is_of_tenant : String → StoredDiagnostic → Bool
is_of_tenant tenant s = elim s.tenant_id [ none ↦ false | some t ↦ str_eq t tenant ]

abbrev pub is_open : StoredDiagnostic → Bool
is_open s = str_eq s.status open_status

abbrev has_message : String → Option String → Bool
has_message message none = false
has_message message (some m) = not (is_blank message) && str_eq m message

-- The conflict of `recordExtractionDiagnosticSQL`.
abbrev pub is_recorded : String → ExtractionDiagnostic → StoredDiagnostic → Bool
is_recorded tenant d s =
    is_of_tenant tenant s
    && is_open s
    && has_message d.message_id s.message_id
    && str_eq s.reader d.reader
    && str_eq s.rule_name d.rule_name

unfoldable pub new_diagnostic : String → ℕ → String → ExtractionDiagnostic → StoredDiagnostic
new_diagnostic tenant now id d = record {
  id = id;
  tenant_id = some tenant;
  status = open_status;
  reader = d.reader;
  message_id = nullable_string d.message_id;
  source = d.source;
  sender = diagnostic_sender d;
  sender_email = d.sender_email;
  subject = d.subject;
  email_body = d.email_body;
  received_at = d.received_at;
  snippet = d.snippet;
  rule_id = nullable_string d.rule_id;
  rule_name = d.rule_name;
  amount_regex = d.amount_regex;
  merchant_regex = d.merchant_regex;
  currency_regex = d.currency_regex;
  failure_reasons = d.failure_reasons;
  created_at = now;
  updated_at = now;
  resolved_at = none;
}

unfoldable pub recorded_again : ℕ → ExtractionDiagnostic → StoredDiagnostic → StoredDiagnostic
recorded_again now d s = record s {
  source = d.source;
  sender = diagnostic_sender d;
  sender_email = d.sender_email;
  subject = d.subject;
  email_body = d.email_body;
  received_at = d.received_at;
  snippet = d.snippet;
  rule_id = nullable_string d.rule_id;
  amount_regex = d.amount_regex;
  merchant_regex = d.merchant_regex;
  currency_regex = d.currency_regex;
  failure_reasons = d.failure_reasons;
  updated_at = now;
}

-- `RecordExtractionDiagnostic`.
unfoldable pub record_extraction_diagnostic :
    Option Err
    → ℕ
    → String
    → String
    → ExtractionDiagnostic
    → List StoredDiagnostic
    → Result (List StoredDiagnostic)
unfolding exec upsert_where new_diagnostic recorded_again
record_extraction_diagnostic fault now tenant id d rows =
    if is_blank tenant
    then fail (
        e (
          text "postgres.diagnostics.record_extraction"
          ∷ kind ErrorKind.invalid_input
          ∷ text "tenant is required"
          ∷ []))
    else exec fault "postgres.diagnostics.record_extraction_diagnostic"
        "recording extraction diagnostic"
        (upsert_where (is_recorded tenant d) (recorded_again now d) (new_diagnostic tenant now id d)
          rows)

abbrev pub is_own : String → String → StoredDiagnostic → Bool
is_own tenant id s = str_eq s.id id && is_of_tenant tenant s

abbrev not_found : String → Err
not_found op = e (text op ∷ kind ErrorKind.not_found ∷ user "extraction diagnostic not found" ∷ [])

abbrev found : Option StoredDiagnostic → Result StoredDiagnostic
found none = fail (not_found "store.diagnostics.get")
found (some s) = ok s

-- `GetExtractionDiagnostic`.
unfoldable pub get_extraction_diagnostic :
    Option Err → String → String → List StoredDiagnostic → Result StoredDiagnostic
unfolding exec first_where
get_extraction_diagnostic fault tenant id rows = do
  row ←
      exec fault "postgres.diagnostics.get_extraction_diagnostic" "fetching extraction diagnostic"
        (first_where (is_own tenant id) rows)
  found row

unfoldable pub with_status : ℕ → String → StoredDiagnostic → StoredDiagnostic
with_status now status s = record s {
  status = status;
  resolved_at = if str_eq status open_status then none else some now;
  updated_at = now;
}

-- Two open rows of one tenant for one message, reader and rule.
abbrev is_same : StoredDiagnostic → StoredDiagnostic → Bool
is_same s t = elim s.tenant_id [
  | none ↦ false
  | some tenant ↦
      is_of_tenant tenant t
      && is_open t
      && elim s.message_id [
        | none ↦ false
        | some m ↦ elim t.message_id [ none ↦ false | some m' ↦ str_eq m' m ]
      ]
      && str_eq t.reader s.reader
      && str_eq t.rule_name s.rule_name
]

-- Another row is open for the message of the tenant's row with this id.
unfoldable pub reopens_taken : String → String → String → List StoredDiagnostic → Bool
unfolding exists_where
reopens_taken tenant id status rows =
    str_eq status open_status
    && exists_where
        (λ s. is_own tenant id s && exists_where (λ t. not (str_eq t.id id) && is_same s t) rows)
        rows

abbrev pub conflict : Err → Err
conflict violation = e (
    text "store.diagnostics.update_status"
    ∷ kind ErrorKind.conflict
    ∷ user "open extraction diagnostic already exists"
    ∷ text "open diagnostic already exists for reader/message/rule: diagnostic conflict"
    ∷ error violation
    ∷ [])

-- What the update's rows answer.
unfoldable pub settle_status :
    Option Err
    → String
    → String
    → List StoredDiagnostic
    → List StoredDiagnostic
    → Result (List StoredDiagnostic)
unfolding exec exists_where
settle_status fault tenant id rows changed = do
  rows' ←
      exec fault "postgres.diagnostics.update_extraction_diagnostic_status"
        "updating extraction diagnostic status" changed
  if exists_where (is_own tenant id) rows
      then ok rows'
      else fail (not_found "store.diagnostics.update_status")

-- `UpdateExtractionDiagnosticStatus`, where `violation` is the driver's error on the unique index.
unfoldable pub update_extraction_diagnostic_status :
    Err
    → Option Err
    → ℕ
    → String
    → String
    → String
    → List StoredDiagnostic
    → Result (List StoredDiagnostic)
unfolding settle_status change_where with_status validate_update_status reopens_taken
update_extraction_diagnostic_status violation fault now tenant id status rows = do
  valid ← validate_update_status status
  if reopens_taken tenant id valid rows
      then fail (conflict violation)
      else settle_status fault tenant id rows
          (change_where (is_own tenant id) (with_status now valid) rows)
