-- ===== src/Rules.antt =====
-- The rules that read transactions from emails: `Rule`, `Source` and the matching of an email of
-- backend/pkg/api/api.go. The rule documents, the merge and the stored rules of
-- backend/internal/rules are in the modules below.
pub mod Raw
pub mod Document
pub mod Store
pub mod Senders
pub mod Compile
pub mod Precedence
pub mod Isolation
pub mod Matching
pub mod Repository
pub mod Ownership
pub mod Samples
use Prim.Native.Char.{Char}
use expensor.Prelude.{
  String, Bool, true, false, not, ◌&&◌, ◌||◌, Option, none, some, List, [], ◌∷◌, ◌++◌, contains,
  is_empty, if◌then◌else◌,
}
use expensor.Prelude.Text.{append, is_blank, trim_space, contains_text, join}
use expensor.Prelude.Words.{lower}
use expensor.Result.{Result}

-- What the rules call of Go's library: `unicode.ToLower`, `strings.EqualFold`, the address that
-- `mail.ParseAddress` reads, `strconv.Quote` for `%q`, and `regexp.Compile` with the pattern that
-- a compiled expression prints.
pub record Libs (R : Type 0) : Type 0 where
  pub to_lower : Char → Char
  pub equal_fold : String → String → Bool
  pub parse_address : String → Option String
  pub quote : String → String
  pub compile : String → Result R
  pub pattern : R → String

pub record Source : Type 0 where
  pub type : String
  pub label : String
  pub bank : String

abbrev pub no_source : Source
no_source = record { type = ""; label = ""; bank = "" }

-- A nil `*regexp.Regexp` is `none`.
pub record Rule (R : Type 0) : Type 0 where
  pub id : String
  pub name : String
  pub sender_email : String
  pub sender_emails : List String
  pub subject_contains : String
  pub amount : Option R
  pub merchant_info : Option R
  pub currency : Option R
  pub source : Source

-- A part that is not blank, trimmed.
abbrev part : String → List String
part s = let t = trim_space s in if is_blank t then [] else t ∷ []

-- `Source.Display`.
unfoldable pub display : {R : Type 0} → Libs R → Source → String
unfolding trim_space join
display libs s =
    let parts = part s.bank ++ part s.type in
    let label = trim_space s.label in
    join
      (if not (is_blank label) && not (libs.equal_fold label (join parts " "))
        then parts ++ label ∷ []
        else parts)
      " "

pub record RuleDiagnosticSnapshot : Type 0 where
  pub rule_id : String
  pub rule_name : String
  pub amount_regex : String
  pub merchant_regex : String
  pub currency_regex : String

abbrev pattern_of : {R : Type 0} → Libs R → Option R → String
pattern_of libs none = ""
pattern_of libs (some r) = libs.pattern r

-- `DiagnosticSnapshot`.
unfoldable pub diagnostic_snapshot : {R : Type 0} → Libs R → Rule R → RuleDiagnosticSnapshot
diagnostic_snapshot libs r = record {
  rule_id = r.id;
  rule_name = r.name;
  amount_regex = pattern_of libs r.amount;
  merchant_regex = pattern_of libs r.merchant_info;
  currency_regex = pattern_of libs r.currency;
}

-- The body of the loops that build a list of senders: a text that is empty or seen is passed over.
unfoldable pub add_new : String → List String → List String
unfolding contains
add_new value out = if is_blank value || contains value out then out else out ++ value ∷ []

-- The loop of `normalizedSenders` and `normalizeSenderList`, with the list built so far.
unfoldable pub keep_new : (String → String) → List String → List String → List String
unfolding add_new
keep_new normalize out [] = out
keep_new normalize out (v ∷ vs) = keep_new normalize (add_new (normalize v) out) vs

abbrev address_or : String → Option String → String
address_or value none = value
address_or value (some address) = address

-- `normalizeEmailAddress`.
unfoldable pub normalize_email_address : {R : Type 0} → Libs R → String → String
unfolding trim_space lower
normalize_email_address libs value =
    let v = trim_space value in
    if is_blank v
    then ""
    else lower libs.to_lower (trim_space (address_or v (libs.parse_address v)))

-- `normalizedSenders`.
unfoldable pub normalized_senders : {R : Type 0} → Libs R → Rule R → List String
unfolding keep_new normalize_email_address
normalized_senders libs r = keep_new (normalize_email_address libs) [] (
    if is_empty r.sender_emails && not (is_blank r.sender_email)
    then r.sender_email ∷ []
    else r.sender_emails)

-- `emailInList`.
unfoldable pub email_in_list : {R : Type 0} → Libs R → String → List String → Bool
email_in_list libs email [] = false
email_in_list libs email (s ∷ senders) = libs.equal_fold email s || email_in_list libs email senders

-- `containsIgnoreCase`.
unfoldable pub contains_ignore_case : {R : Type 0} → Libs R → String → String → Bool
unfolding lower contains_text
contains_ignore_case libs s sub = contains_text (lower libs.to_lower s) (lower libs.to_lower sub)

-- The test of the sender in `MatchesEmail`, given the rule's senders.
unfoldable pub sender_matches : {R : Type 0} → Libs R → List String → String → Bool
unfolding normalize_email_address email_in_list
sender_matches libs senders from_header =
    let from_email = normalize_email_address libs from_header in
    is_empty senders || (not (is_blank from_email) && email_in_list libs from_email senders)

-- `MatchesEmail`.
unfoldable pub matches_email : {R : Type 0} → Libs R → Rule R → String → String → Bool
unfolding normalized_senders sender_matches contains_ignore_case
matches_email libs r from_header subject =
    sender_matches libs (normalized_senders libs r) from_header
    && (is_blank r.subject_contains || contains_ignore_case libs subject r.subject_contains)
