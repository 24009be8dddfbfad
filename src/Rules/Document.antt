-- ===== src/Rules/Document.antt =====
-- backend/internal/rules/document.go: a rules document is parsed and each of its rules compiled.
use expensor.Prelude.{
  String, Bool, false, ◌&&◌, Option, none, some, List, [], ◌∷◌, ◌++◌, ◌==◌, if◌then◌else◌,
}
use expensor.Prelude.Int.{ℤ, pos, negsuc}
use expensor.Prelude.Text.{append, is_blank, trim_space, has_prefix}
use expensor.Prelude.Words.{lower}
use expensor.ErrorKind
use expensor.Errors.{Err}
use expensor.Errors.Build.{e, kind, text, error}
use expensor.Result.{Result, ok, fail, ◌>>=◌}
use expensor.Rules.Raw.{
  Presets, RawRule, RawDocument, Json, first_non_empty, split_legacy_source, parse_source,
}
use expensor.Rules.{Libs, Source, Rule, keep_new}

abbrev pub current_document_version : ℤ
current_document_version = pos 2

pub record Document (R : Type 0) : Type 0 where
  pub version : ℤ
  pub presets : Presets
  pub rules : List (Rule R)

abbrev pub invalid : String → Err
invalid message = e (kind ErrorKind.invalid_input ∷ text message ∷ [])

-- An error of a callee, wrapped with the operation and a message.
abbrev pub under {ℓ} : {A : Type ℓ} → String → String → Result A → Result A
under op message (ok a) = ok a
under op message (fail err) = fail (e (text op ∷ text message ∷ error err ∷ []))

abbrev pub rule_text : {R : Type 0} → Libs R → String → String → String
rule_text libs name rest = append "rule " (append (libs.quote name) rest)

-- `compileNamedRegex`.
unfoldable pub compile_named_regex : {R : Type 0} → Libs R → String → String → String → Result R
unfolding trim_space append
compile_named_regex libs rule_name field pattern =
    if is_blank (trim_space pattern)
    then fail (invalid (rule_text libs rule_name (append " requires " field)))
    else under "rules.document.compile_named_regex"
        (rule_text libs rule_name (append " invalid " field)) (libs.compile pattern)

abbrev pub present {ℓ} : {A : Type ℓ} → Result A → Result (Option A)
present (ok a) = ok (some a)
present (fail err) = fail err

-- `compileOptionalRegex`.
unfoldable pub compile_optional_regex :
    {R : Type 0} → Libs R → String → String → String → Result (Option R)
unfolding trim_space append
compile_optional_regex libs rule_name field pattern =
    if is_blank (trim_space pattern)
    then ok none
    else present (
        under "rules.document.compile_optional_regex"
          (rule_text libs rule_name (append " invalid " field)) (libs.compile pattern))

-- `normalizeSenderList`.
unfoldable pub normalize_sender_list : {R : Type 0} → Libs R → List String → List String
unfolding keep_new lower trim_space
normalize_sender_list libs values = keep_new (λ v. lower libs.to_lower (trim_space v)) [] values

-- The loop of `compileRule` over the two single senders.
unfoldable pub add_sender : {R : Type 0} → Libs R → List String → String → List String
unfolding normalize_sender_list trim_space
add_sender libs senders sender =
    if is_blank (trim_space sender)
    then senders
    else normalize_sender_list libs (senders ++ sender ∷ [])

unfoldable pub raw_senders : {R : Type 0} → Libs R → RawRule → List String
unfolding add_sender
raw_senders libs raw =
    add_sender libs
      (add_sender libs (normalize_sender_list libs raw.sender_emails) raw.sender_email)
      raw.sender_email_snake

abbrev pub require_name : String → Result String
require_name name = if is_blank name then fail (invalid "rule name is required") else ok name

-- The first sender, which `senders[0]` reads behind the guard.
abbrev pub require_sender : {R : Type 0} → Libs R → String → List String → Result String
require_sender libs name [] =
    fail (invalid (rule_text libs name " requires at least one sender email"))
require_sender libs name (s ∷ senders) = ok s

-- `source == (api.Source{})`.
abbrev pub is_no_source : Source → Bool
is_no_source s = is_blank s.type && is_blank s.label && is_blank s.bank

-- `compileRule` behind the guards on the name and the senders.
unfoldable pub build_rule :
    {R : Type 0} → Libs R → Json → RawRule → String → String → Result (Rule R)
build_rule libs json raw name first = do
  amount ←
      compile_named_regex libs name "amount_regex"
        (first_non_empty (raw.amount_regex ∷ raw.amount_snake ∷ []))
  merchant ←
      compile_named_regex libs name "merchant_regex"
        (first_non_empty (raw.merchant_regex ∷ raw.merchant_snake ∷ []))
  currency ←
      compile_optional_regex libs name "currency_regex"
        (first_non_empty (raw.currency_regex ∷ raw.currency_snake ∷ []))
  source ←
      under "rules.document.compile_rule" (rule_text libs name " invalid source")
        (parse_source json raw.source)
  ok (record {
    id = "";
    name = name;
    sender_email = first;
    sender_emails = raw_senders libs raw;
    subject_contains = first_non_empty (raw.subject_contains ∷ raw.subject_snake ∷ []);
    amount = some amount;
    merchant_info = some merchant;
    currency = currency;
    source =
        if is_no_source source
        then split_legacy_source
            (first_non_empty (raw.legacy_source ∷ raw.source_text ∷ raw.transaction_source ∷ []))
        else source;
  })

-- `compileRule`.
unfoldable pub compile_rule : {R : Type 0} → Libs R → Json → RawRule → Result (Rule R)
unfolding trim_space build_rule
compile_rule libs json raw = do
  name ← require_name (trim_space raw.name)
  first ← require_sender libs name (raw_senders libs raw)
  build_rule libs json raw name first

-- `compileRules`.
unfoldable pub compile_rules : {R : Type 0} → Libs R → Json → List RawRule → Result (List (Rule R))
compile_rules libs json [] = ok []
compile_rules libs json (raw ∷ raws) = do
  rule ← compile_rule libs json raw
  rules ← compile_rules libs json raws
  ok (rule ∷ rules)

abbrev pub no_presets : Presets
no_presets = record { source_types = []; banks = [] }

abbrev pub is_current : ℤ → Bool
is_current (pos n) = n == 2
is_current (negsuc n) = false

abbrev pub require_version : Json → RawDocument → Result RawDocument
require_version json raw =
    if is_current raw.version
    then ok raw
    else fail (invalid (append "unsupported rule document version " (json.digits raw.version)))

-- The legacy array of rules.
unfoldable pub parse_legacy : {R : Type 0} → Libs R → Json → String → Result (Document R)
parse_legacy libs json body = do
  raw ← under "rules.document.parse_document" "parsing legacy rules" (json.as_rules body)
  rules ← compile_rules libs json raw
  ok (record { version = current_document_version; presets = no_presets; rules = rules })

-- A document of the current version.
unfoldable pub parse_versioned : {R : Type 0} → Libs R → Json → String → Result (Document R)
parse_versioned libs json body = do
  unchecked ← under "rules.document.parse_document" "parsing rule document" (json.as_document body)
  raw ← require_version json unchecked
  rules ← compile_rules libs json raw.rules
  ok (record { version = raw.version; presets = raw.presets; rules = rules })

-- `ParseDocument`.
unfoldable pub parse_document : {R : Type 0} → Libs R → Json → String → Result (Document R)
unfolding has_prefix trim_space parse_legacy parse_versioned
parse_document libs json body =
    if has_prefix (trim_space body) "["
    then parse_legacy libs json body
    else parse_versioned libs json body
