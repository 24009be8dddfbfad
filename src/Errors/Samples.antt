-- ===== src/Errors/Samples.antt =====
-- Errors built and read at concrete arguments.
use expensor.Prelude.{◌≡◌, refl, none, some, [], ◌∷◌}
use expensor.ErrorKind
use expensor.ErrorKind.{kind_eq}
use expensor.Errors.{Err, foreign, no_cause, context_canceled, as_app, as_foreign, is_error}
use expensor.Errors.Text.{error_text}
use expensor.Errors.Build.{e, text, kind, user, error}
use expensor.Errors.Classify.{what_kind, user_msg, status_code, ops}
use expensor.Errors.Wrapping.{wrap-transparent}

-- A missing row, as the store reports it.
abbrev missing : Err
missing =
    e (text "store.get" ∷ kind ErrorKind.not_found ∷ user "No such thing." ∷ text "no rows" ∷ [])

abbrev reset : Err
reset =
    foreign
      (record {
        text = "connection reset";
        error_kind = none;
        status_code = some 404;
        oauth_code = none;
      })
      no_cause

text_of_wrapped :
    error_text (e (text "daemon.run" ∷ text "reading" ∷ error missing ∷ []))
    ≡ "daemon.run: reading: store.get: no rows"
unfolding e error_text expensor.Errors.Text.fields_text expensor.Errors.as_app_cause
text_of_wrapped = refl

-- Without a message of its own an error names its kind, here the promoted one.
text_of_bare :
    error_text (e (text "daemon.run" ∷ error missing ∷ []))
    ≡ "daemon.run: not found: store.get: no rows"
unfolding e error_text expensor.Errors.Text.fields_text expensor.Errors.as_app_cause
text_of_bare = refl

ops_of_wrapped :
    ops (e (text "daemon.run" ∷ text "reading" ∷ error missing ∷ []))
    ≡ "daemon.run" ∷ "store.get" ∷ []
unfolding e ops expensor.Errors.as_app_cause
ops_of_wrapped = refl

status_of_foreign : status_code (e (text "op" ∷ error reset ∷ [])) ≡ 404
unfolding e status_code
status_of_foreign = refl

-- A lone string is the operation, behind a kind it is the message.
kind_then_text : error_text (e (kind ErrorKind.conflict ∷ text "taken" ∷ [])) ≡ "taken"
unfolding e error_text expensor.Errors.Text.fields_text expensor.Errors.as_app_cause
kind_then_text = refl

wrap-transparent_example :
    let w = e (text "daemon.run" ∷ text "reading" ∷ error missing ∷ []) in
    (what_kind w ≡ what_kind missing)
    × (status_code w ≡ status_code missing)
    × (user_msg w ≡ user_msg missing)
wrap-transparent_example = wrap-transparent "daemon.run" "reading" missing
