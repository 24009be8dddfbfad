-- ===== src/ErrorKind.antt =====
-- backend/pkg/errors/errors.go: the kinds by which errors are classified at the program's borders,
-- and the HTTP statuses that they stand for.
pub mod Statuses
pub mod Samples
use expensor.Prelude.{ℕ, String, Bool, ◌&&◌, leb, ◌==◌, str_eq, if◌then◌else◌}

pub record Kind : Type 0 where
  pub code : String
  pub status : ℕ

abbrev pub unknown : Kind
unknown = record { code = ""; status = 0 }

abbrev pub invalid_argument : Kind
invalid_argument = record { code = "invalid_argument"; status = 400 }

abbrev pub invalid_input : Kind
invalid_input = record { code = "invalid_input"; status = 422 }

abbrev pub unauthenticated : Kind
unauthenticated = record { code = "unauthenticated"; status = 401 }

abbrev pub permission_denied : Kind
permission_denied = record { code = "permission_denied"; status = 403 }

abbrev pub not_found : Kind
not_found = record { code = "not_found"; status = 404 }

abbrev pub method_not_allowed : Kind
method_not_allowed = record { code = "method_not_allowed"; status = 405 }

abbrev pub conflict : Kind
conflict = record { code = "conflict"; status = 409 }

abbrev pub failed_precondition : Kind
failed_precondition = record { code = "failed_precondition"; status = 412 }

abbrev pub payload_too_large : Kind
payload_too_large = record { code = "payload_too_large"; status = 413 }

abbrev pub resource_exhausted : Kind
resource_exhausted = record { code = "resource_exhausted"; status = 429 }

abbrev pub internal : Kind
internal = record { code = "internal"; status = 500 }

abbrev pub unimplemented : Kind
unimplemented = record { code = "unimplemented"; status = 501 }

abbrev pub unavailable : Kind
unavailable = record { code = "unavailable"; status = 503 }

abbrev pub canceled : Kind
canceled = record { code = "canceled"; status = 503 }

abbrev pub deadline_exceeded : Kind
deadline_exceeded = record { code = "deadline_exceeded"; status = 503 }

abbrev pub bad_gateway : Kind
bad_gateway = record { code = "bad_gateway"; status = 502 }

-- `==` on the struct.
unfoldable pub kind_eq : Kind → Kind → Bool
kind_eq a b = str_eq a.code b.code && a.status == b.status

-- The `switch` of KindFromStatus.
unfoldable pub kind_from_status : ℕ → Kind
kind_from_status status =
    if status == 400
    then invalid_argument
    else if status == 422
    then invalid_input
    else if status == 401
    then unauthenticated
    else if status == 403
    then permission_denied
    else if status == 404
    then not_found
    else if status == 405
    then method_not_allowed
    else if status == 409
    then conflict
    else if status == 412
    then failed_precondition
    else if status == 413
    then payload_too_large
    else if status == 429
    then resource_exhausted
    else if status == 501
    then unimplemented
    else if status == 502
    then bad_gateway
    else if status == 503
    then unavailable
    else if leb 500 status
    then internal
    else unknown
