-- ===== src/Errors/Loops.antt =====
-- The recursive readings of `UserMsg` and `Ops` follow the loops of backend/pkg/errors/errors.go,
-- which go from one structured error to the first one below it.
use expensor.Prelude.{String, ◌≡◌, refl, Option, none, some, arith}
use expensor.Errors.{
  Fields, Err, context_canceled, context_deadline_exceeded, app, joined, foreign, Cause, no_cause,
  caused, Errs, end, more, as_app, as_app_cause, as_app_errs,
}
use expensor.Errors.Classify.{first_user_msg, first_user_msg_cause, first_user_msg_errs, or_below}

-- One round of the loop of `UserMsg`.
abbrev pub user_msg_round : Option (Fields × Cause) → Option String
user_msg_round none = none
user_msg_round (some (f, c)) = some (or_below f.user_msg (first_user_msg_cause c))

mutual
  unfolding first_user_msg as_app

  pub first_user_msg_rounds : (e : Err) → first_user_msg e ≡ user_msg_round (as_app e)
  first_user_msg_rounds context_canceled = refl
  first_user_msg_rounds context_deadline_exceeded = refl
  first_user_msg_rounds (app f c) = refl
  first_user_msg_rounds (joined es) = errs_rounds es
  first_user_msg_rounds (foreign f c) = cause_rounds c

  cause_rounds : (c : Cause) → first_user_msg_cause c ≡ user_msg_round (as_app_cause c)
  cause_rounds no_cause = refl
  cause_rounds (caused e) = first_user_msg_rounds e

  errs_rounds : (es : Errs) → first_user_msg_errs es ≡ user_msg_round (as_app_errs es)
  errs_rounds end = refl
  errs_rounds (more e es) = ground (arith, first_user_msg_rounds e, errs_rounds es)
