-- ===== src/Rules/Samples.antt =====
-- Runs of the rules' functions, and the results on rules at small inputs.
use expensor.Prelude.{
  ℕ, String, ◌≡◌, refl, Bool, true, false, Option, none, some, List, [], ◌∷◌, ◌++◌, str_eq, length,
  if◌then◌else◌, inr, All, is_empty,
}
use expensor.Prelude.Int.{pos}
use expensor.Errors.{Err}
use expensor.Result.{Result, ok, fail}
use expensor.Rules.{
  Libs, Source, no_source, Rule, normalize_email_address, keep_new, add_new, display,
}
use expensor.Rules.Raw.{RawRule, RawDocument, Json, split_legacy_source}
use expensor.Rules.Document.{invalid, compile_rule, compile_rules, parse_document, no_presets}
use expensor.Rules.Store.{RuleRow, merge_rules, compile_persisted, load_persisted}
use expensor.Rules.Compile.{AreCompiled, compile_rules-IsCompiled}
use expensor.Rules.Precedence.{named, last, replaced, merge_rules-named}
use expensor.Rules.Isolation.{load_persisted-skipped}
use expensor.Result.{OnOk}
use expensor.Rules.Repository.{
  StoredRule, RuleInput, RuleWrite, create_rule, update_rule, delete_rule, import_user_rules,
}
use expensor.Rules.Ownership.{KeepsForeign, foreign_rules_stay}

-- Expressions are their own text, and `(` does not compile.
abbrev libs : Libs String
libs = record {
  to_lower = λ c. c;
  equal_fold = str_eq;
  parse_address = λ s. none;
  quote = λ s. s;
  compile = λ s. if str_eq s "(" then fail (invalid "missing closing )") else ok s;
  pattern = λ s. s;
}

abbrev raw : RawRule
raw = record {
  name = " HDFC ";
  sender_email = "alerts@bank.in";
  sender_email_snake = "";
  sender_emails = "cards@bank.in" ∷ " alerts@bank.in" ∷ [];
  subject_contains = "";
  subject_snake = "spent";
  amount_regex = "Rs ([0-9]+)";
  amount_snake = "";
  merchant_regex = "";
  merchant_snake = "at (.*)";
  currency_regex = "";
  currency_snake = "";
  source = "";
  source_text = "Card - HDFC";
  legacy_source = "";
  transaction_source = "";
}

abbrev json : Json
json = record {
  as_source = λ s. ok no_source;
  as_text = λ s. ok s;
  as_rules = λ s. ok (raw ∷ []);
  as_document = λ s. ok (record { version = pos 1; presets = no_presets; rules = raw ∷ [] });
  digits = λ n. "1";
}

abbrev compiled : Rule String
compiled = record {
  id = "";
  name = "HDFC";
  sender_email = "cards@bank.in";
  sender_emails = "cards@bank.in" ∷ "alerts@bank.in" ∷ [];
  subject_contains = "spent";
  amount = some "Rs ([0-9]+)";
  merchant_info = some "at (.*)";
  currency = none;
  source = record { type = "Card"; label = "Card - HDFC"; bank = "HDFC" };
}

compiles : compile_rules libs json (raw ∷ []) ≡ ok (compiled ∷ [])
unfolding compile_rules compile_rule expensor.Rules.Document.raw_senders
    expensor.Rules.Document.compile_named_regex expensor.Rules.Raw.first_non_empty
    expensor.Rules.Document.compile_optional_regex expensor.Rules.Raw.parse_source
    split_legacy_source
compiles = refl

old_version : parse_document libs json "{}" ≡ fail (invalid "unsupported rule document version 1")
unfolding parse_document expensor.Prelude.Text.append
old_version = refl

displays : display libs compiled.source ≡ "HDFC Card Card - HDFC"
unfolding display
displays = refl

compile_rules-IsCompiled_example : AreCompiled libs (raw ∷ []) (compiled ∷ [])
compile_rules-IsCompiled_example =
    compile_rules-IsCompiled libs json (raw ∷ []) (compiled ∷ []) compiles

abbrev other : Rule String
other = record compiled { name = "ICICI" }

abbrev overriding : Rule String
overriding = record compiled { subject_contains = "debited" }

merged :
    merge_rules (compiled ∷ other ∷ []) (overriding ∷ record other { name = "Axis" } ∷ [])
    ≡ overriding ∷ other ∷ record other { name = "Axis" } ∷ []
unfolding merge_rules
merged = refl

merge_rules-named_example : named "HDFC" (merge_rules (compiled ∷ other ∷ []) (overriding ∷ [])) ≡ (
    if is_empty (named "HDFC" (compiled ∷ other ∷ []))
    then named "HDFC" (overriding ∷ [])
    else replaced (last (named "HDFC" (overriding ∷ []))) (named "HDFC" (compiled ∷ other ∷ [])))
merge_rules-named_example = merge_rules-named "HDFC" (compiled ∷ other ∷ []) (overriding ∷ [])

abbrev row : RuleRow
row = record {
  id = "1";
  name = "HDFC";
  sender_email = "alerts@bank.in";
  sender_emails = [];
  subject_contains = "";
  amount_regex = "a";
  merchant_regex = "b";
  currency_regex = "";
  source_type = "Card";
  source_label = "";
  bank = "HDFC";
  predefined = false;
}

abbrev broken : RuleRow
broken = record row { merchant_regex = "(" }

abbrev error_of : Result (Rule String) → Err
error_of (ok rule) = invalid ""
error_of (fail err) = err

broken_error : Err
unfolding compile_persisted
broken_error = error_of (compile_persisted libs broken)

broken_fails : compile_persisted libs broken ≡ fail broken_error
unfolding compile_persisted broken_error
broken_fails = refl

load_persisted-skipped_example :
    load_persisted libs (ok ((row ∷ []) ++ broken ∷ row ∷ []))
    ≡ load_persisted libs (ok (row ∷ [])) ++ load_persisted libs (ok (row ∷ []))
load_persisted-skipped_example =
    load_persisted-skipped libs (row ∷ []) (row ∷ []) broken (inr (broken_error, broken_fails))

normal_form : normalize_email_address libs " cards@bank.in" ≡ "cards@bank.in"
unfolding normalize_email_address
normal_form = refl

abbrev stored : Option String → RuleRow → StoredRule
stored tenant r = record { tenant_id = tenant; transaction_source = ""; rule = r; updated_at = 1 }

-- One rule of the tenant, one of another tenant and a predefined one.
abbrev stored_rules : List StoredRule
stored_rules =
    stored (some "a") row
    ∷ stored (some "b") (record row { id = "2" })
    ∷ stored none (record row { id = "3"; predefined = true })
    ∷ []

abbrev input : RuleInput
input = record { transaction_source = "Card"; rule = record row { name = "Axis" } }

abbrev writes : List RuleWrite
writes = record { fault = none; id = "5"; input = record input { rule = row } } ∷ []

foreign_rules_stay_example :
    OnOk
      (KeepsForeign "a" stored_rules)
      (create_rule broken_error none 7 "a" "1" input stored_rules)
    × OnOk
        (KeepsForeign "a" stored_rules)
        (update_rule broken_error none 7 "a" "1" input stored_rules)
    × OnOk (KeepsForeign "a" stored_rules) (delete_rule none "a" "1" stored_rules)
    × OnOk
        (KeepsForeign "a" stored_rules)
        (import_user_rules (λ s. s) none none 7 "a" writes stored_rules)
foreign_rules_stay_example =
    foreign_rules_stay (λ s. s) broken_error none none none 7 "a" "1" input writes stored_rules
