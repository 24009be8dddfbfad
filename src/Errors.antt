-- ===== src/Errors.antt =====
-- backend/pkg/errors/errors.go: structured errors, their builder, and what is read off a chain of
-- them. An error of another package is a node of its own kind: a sentinel of `context`, a join of
-- the standard library, or a foreign error with the methods that this code asks for.
pub mod Text
pub mod Build
pub mod Classify
pub mod Loops
pub mod Wrapping
pub mod Samples
use expensor.Prelude.{ℕ, String, Bool, true, false, ◌||◌, Option, none, some}
use expensor.ErrorKind.{Kind}

-- What an error type of another package shows to this code: its own text, an `ErrorKind` method,
-- a `StatusCode` method, and the code of an `*oauth2.RetrieveError`.
pub record Foreign : Type 0 where
  pub text : String
  pub error_kind : Option Kind
  pub status_code : Option ℕ
  pub oauth_code : Option String

-- The fields of `Error` but the wrapped one.
pub record Fields : Type 0 where
  pub op : String
  pub kind : Kind
  pub message : String
  pub user_msg : String

mutual
  pub data Err : Type 0 where
    context_canceled : Err
    context_deadline_exceeded : Err
    app : Fields → Cause → Err
    joined : Errs → Err
    foreign : Foreign → Cause → Err

  -- A wrapped error, or nil.
  pub data Cause : Type 0 where
    no_cause : Cause
    caused : Err → Cause

  pub data Errs : Type 0 where
    end : Errs
    more : Err → Errs → Errs

pub data Sentinel : Type 0 where
  canceled deadline_exceeded : Sentinel

abbrev same_sentinel : Sentinel → Sentinel → Bool
same_sentinel canceled canceled = true
same_sentinel deadline_exceeded deadline_exceeded = true
same_sentinel _ _ = false

-- `Is(err, target)` for the two sentinels of `context`: depth first, through every wrapped error.
unfoldable mutual
  pub is_error : Sentinel → Err → Bool
  is_error s context_canceled = same_sentinel s canceled
  is_error s context_deadline_exceeded = same_sentinel s deadline_exceeded
  is_error s (app f c) = is_cause s c
  is_error s (joined es) = is_errs s es
  is_error s (foreign f c) = is_cause s c

  pub is_cause : Sentinel → Cause → Bool
  is_cause s no_cause = false
  is_cause s (caused e) = is_error s e

  pub is_errs : Sentinel → Errs → Bool
  is_errs s end = false
  is_errs s (more e es) = is_error s e || is_errs s es

-- The first of two finds.
abbrev pub or_else {ℓ} : {A : Type ℓ} → Option A → Option A → Option A
or_else none b = b
or_else (some a) b = some a

-- `As(err, &appErr)`: the first `*Error` of the tree, depth first.
unfoldable mutual
  pub as_app : Err → Option (Fields × Cause)
  as_app context_canceled = none
  as_app context_deadline_exceeded = none
  as_app (app f c) = some (f, c)
  as_app (joined es) = as_app_errs es
  as_app (foreign f c) = as_app_cause c

  pub as_app_cause : Cause → Option (Fields × Cause)
  as_app_cause no_cause = none
  as_app_cause (caused e) = as_app e

  pub as_app_errs : Errs → Option (Fields × Cause)
  as_app_errs end = none
  as_app_errs (more e es) = or_else (as_app e) (as_app_errs es)

-- `As(err, &target)` for an interface or a type of another package: the first foreign error that
-- answers `probe`.
unfoldable mutual
  pub as_foreign : {A : Type 0} → (Foreign → Option A) → Err → Option A
  as_foreign probe context_canceled = none
  as_foreign probe context_deadline_exceeded = none
  as_foreign probe (app f c) = as_foreign_cause probe c
  as_foreign probe (joined es) = as_foreign_errs probe es
  as_foreign probe (foreign f c) = or_else (probe f) (as_foreign_cause probe c)

  pub as_foreign_cause : {A : Type 0} → (Foreign → Option A) → Cause → Option A
  as_foreign_cause probe no_cause = none
  as_foreign_cause probe (caused e) = as_foreign probe e

  pub as_foreign_errs : {A : Type 0} → (Foreign → Option A) → Errs → Option A
  as_foreign_errs probe end = none
  as_foreign_errs probe (more e es) = or_else (as_foreign probe e) (as_foreign_errs probe es)
