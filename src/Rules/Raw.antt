-- ===== src/Rules/Raw.antt =====
-- The rules of a document as JSON reads them, and their sources: the raw types, `parseSource`,
-- `splitLegacySource` and `firstNonEmpty` of backend/internal/rules/document.go.
use expensor.Prelude.{String, List, [], ◌∷◌, str_eq, if◌then◌else◌}
use expensor.Prelude.Int.{ℤ}
use expensor.Prelude.Text.{is_blank, trim_space}
use expensor.Prelude.Words.{split}
use expensor.Result.{Result, ok, fail}
use expensor.Rules.{Source, no_source}

pub record PresetValue : Type 0 where
  pub value : String
  pub origin : String

pub record Presets : Type 0 where
  pub source_types : List PresetValue
  pub banks : List PresetValue

-- `LegacySource` is never read from JSON (its tag is `-`), and is kept as a field here.
pub record RawRule : Type 0 where
  pub name : String
  pub sender_email : String
  pub sender_email_snake : String
  pub sender_emails : List String
  pub subject_contains : String
  pub subject_snake : String
  pub amount_regex : String
  pub amount_snake : String
  pub merchant_regex : String
  pub merchant_snake : String
  pub currency_regex : String
  pub currency_snake : String
  pub source : String
  pub source_text : String
  pub legacy_source : String
  pub transaction_source : String

pub record RawDocument : Type 0 where
  pub version : ℤ
  pub presets : Presets
  pub rules : List RawRule

-- `json.Unmarshal` at the types that are read, and `fmt.Sprintf("%d")`.
pub record Json : Type 0 where
  pub as_source : String → Result Source
  pub as_text : String → Result String
  pub as_rules : String → Result (List RawRule)
  pub as_document : String → Result RawDocument
  pub digits : ℤ → String

-- `firstNonEmpty`.
unfoldable pub first_non_empty : List String → String
unfolding trim_space
first_non_empty [] = ""
first_non_empty (v ∷ vs) =
    let rest = first_non_empty vs in if is_blank (trim_space v) then rest else trim_space v

abbrev two_parts : String → List String → Source
two_parts source (type ∷ bank ∷ []) = record {
  type = trim_space type;
  label = source;
  bank = trim_space bank;
}
two_parts source _ = record { type = ""; label = source; bank = "" }

-- `splitLegacySource`.
unfoldable pub split_legacy_source : String → Source
unfolding trim_space split
split_legacy_source source =
    let s = trim_space source in if is_blank s then no_source else two_parts s (split s " - ")

abbrev pub text_or_legacy : Result String → Result Source
text_or_legacy (ok legacy) = ok (split_legacy_source legacy)
text_or_legacy (fail err) = fail err

abbrev pub source_or_text : Result Source → Result String → Result Source
source_or_text (ok source) legacy = ok source
source_or_text (fail err) legacy = text_or_legacy legacy

-- `parseSource`.
unfoldable pub parse_source : Json → String → Result Source
parse_source json raw =
    if is_blank raw
    then ok no_source
    else if str_eq raw "null"
    then ok no_source
    else source_or_text (json.as_source raw) (json.as_text raw)
