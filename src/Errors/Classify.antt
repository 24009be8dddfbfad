-- ===== src/Errors/Classify.antt =====
-- What backend/pkg/errors/errors.go reads off a chain: its kind, HTTP status, user message and
-- operations.
use expensor.Prelude.{ℕ, String, Option, none, some, List, [], ◌∷◌, ltb, ◌==◌, if◌then◌else◌}
use expensor.Prelude.Text.{is_blank}
use expensor.ErrorKind
use expensor.ErrorKind.{Kind, kind_eq, kind_from_status}
use expensor.Errors.{
  Fields, Err, context_canceled, context_deadline_exceeded, app, joined, foreign, Cause, no_cause,
  caused, Errs, end, more, canceled, deadline_exceeded, is_error, or_else, as_app, as_foreign,
}

-- The steps of `WhatKind` after the sentinels: the kind of the first structured error, that of the
-- first carrier, the one of the first status.
unfoldable pub status_kind : Option ℕ → Kind
unfolding kind_from_status
status_kind none = ErrorKind.unknown
status_kind (some s) = if ltb 0 s then kind_from_status s else ErrorKind.unknown

unfoldable pub carrier_kind : Option Kind → Kind → Kind
unfolding kind_eq
carrier_kind none rest = rest
carrier_kind (some k) rest = if kind_eq k ErrorKind.unknown then rest else k

unfoldable pub app_kind : Option (Fields × Cause) → Kind → Kind
unfolding kind_eq
app_kind none rest = rest
app_kind (some (f, c)) rest = if kind_eq f.kind ErrorKind.unknown then rest else f.kind

unfoldable pub what_kind : Err → Kind
unfolding is_error as_app as_foreign status_kind carrier_kind app_kind
what_kind err =
    if is_error canceled err
    then ErrorKind.canceled
    else if is_error deadline_exceeded err
    then ErrorKind.deadline_exceeded
    else app_kind (as_app err) (
        carrier_kind (as_foreign (λ f. f.error_kind) err)
          (status_kind (as_foreign (λ f. f.status_code) err)))

-- `StatusCode(err)`.
unfoldable pub status_code : Err → ℕ
unfolding what_kind
status_code err = let k = what_kind err in if k.status == 0 then 500 else k.status

-- The loop of `UserMsg`: the first structured error with a message, following `Err` of each one.
-- `none` stands for a chain with no structured error.
abbrev pub or_below : String → Option String → String
or_below m none = m
or_below m (some below) = if is_blank m then below else m

unfoldable mutual
  pub first_user_msg : Err → Option String
  first_user_msg context_canceled = none
  first_user_msg context_deadline_exceeded = none
  first_user_msg (app f c) = some (or_below f.user_msg (first_user_msg_cause c))
  first_user_msg (joined es) = first_user_msg_errs es
  first_user_msg (foreign f c) = first_user_msg_cause c

  pub first_user_msg_cause : Cause → Option String
  first_user_msg_cause no_cause = none
  first_user_msg_cause (caused e) = first_user_msg e

  pub first_user_msg_errs : Errs → Option String
  first_user_msg_errs end = none
  first_user_msg_errs (more e es) = or_else (first_user_msg e) (first_user_msg_errs es)

unfoldable pub user_msg : Err → String
unfolding first_user_msg
user_msg err = or_below "" (first_user_msg err)

abbrev pub or_none : Option (List String) → List String
or_none none = []
or_none (some l) = l

-- The loop of `Ops`: the operations of the structured errors on the way down.
unfoldable mutual
  pub ops_below : Err → Option (List String)
  ops_below context_canceled = none
  ops_below context_deadline_exceeded = none
  ops_below (app f c) =
      some
        (if is_blank f.op then or_none (ops_below_cause c) else f.op ∷ or_none (ops_below_cause c))
  ops_below (joined es) = ops_below_errs es
  ops_below (foreign f c) = ops_below_cause c

  pub ops_below_cause : Cause → Option (List String)
  ops_below_cause no_cause = none
  ops_below_cause (caused e) = ops_below e

  pub ops_below_errs : Errs → Option (List String)
  ops_below_errs end = none
  ops_below_errs (more e es) = or_else (ops_below e) (ops_below_errs es)

unfoldable pub ops : Err → List String
unfolding ops_below
ops err = or_none (ops_below err)
