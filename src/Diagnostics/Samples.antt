-- ===== src/Diagnostics/Samples.antt =====
-- Runs on small tables of diagnostics.
use expensor.Prelude.{none, List, [], ◌∷◌, ◌≡◌, refl}
use expensor.Errors.{Err}
use expensor.Result.{OnOk, ok, fail}
use expensor.Diagnostics.{
  ExtractionDiagnostic, StoredDiagnostic, new_diagnostic, with_status, record_extraction_diagnostic,
  update_extraction_diagnostic_status, conflict,
}
use expensor.Diagnostics.Closed.{IsRecorded, KeepsOthers, diagnostics_stay}
use expensor.Errors.Build.{e, text}

abbrev diagnostic : ExtractionDiagnostic
diagnostic = record {
  reader = "gmail";
  message_id = "m1";
  source = "Card";
  sender = "";
  sender_email = "alerts@bank.in";
  subject = "spent";
  email_body = "body";
  received_at = none;
  snippet = "bo";
  rule_id = "";
  rule_name = "HDFC";
  amount_regex = "a";
  merchant_regex = "b";
  currency_regex = "";
  failure_reasons = "amount" ∷ [];
}

abbrev first : StoredDiagnostic
unfolding new_diagnostic
first = new_diagnostic "a" 1 "1" diagnostic

abbrev ignored : StoredDiagnostic
unfolding new_diagnostic with_status
ignored = with_status 2 "ignored" (new_diagnostic "a" 1 "2" diagnostic)

abbrev rows : List StoredDiagnostic
rows = first ∷ ignored ∷ []

abbrev violation : Err
violation = e (text "duplicate key" ∷ [])

ignored_once_more :
    record_extraction_diagnostic none 5 "a" "3" diagnostic (ignored ∷ [])
    ≡ ok (ignored ∷ new_diagnostic "a" 5 "3" diagnostic ∷ [])
unfolding record_extraction_diagnostic new_diagnostic ignored
ignored_once_more = refl

reopen_conflict :
    update_extraction_diagnostic_status violation none 5 "a" "2" "open" rows
    ≡ fail (conflict violation)
unfolding update_extraction_diagnostic_status first ignored
reopen_conflict = refl

diagnostics_stay_example :
    OnOk
      (IsRecorded "a" diagnostic rows)
      (record_extraction_diagnostic none 5 "a" "2" diagnostic rows)
    × OnOk
        (KeepsOthers "a" "2" rows)
        (update_extraction_diagnostic_status violation none 5 "a" "2" "resolved" rows)
diagnostics_stay_example = diagnostics_stay violation none 5 "a" "2" "resolved" diagnostic rows
