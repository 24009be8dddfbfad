-- ===== src/Errors/Build.antt =====
-- `E` of backend/pkg/errors/errors.go: an error from its arguments, and what it inherits.
use expensor.Prelude.{String, Bool, false, ◌&&◌, Option, none, some, List, [], ◌∷◌, if◌then◌else◌}
use expensor.Prelude.Text.{is_blank}
use expensor.ErrorKind
use expensor.ErrorKind.{Kind, kind_eq}
use expensor.Errors.{Fields, Err, app, joined, Cause, no_cause, caused, end, more, as_app_cause}

-- `Join(a, b)`: nil values are dropped.
abbrev pub join_errors : Cause → Cause → Cause
join_errors no_cause no_cause = no_cause
join_errors no_cause (caused e) = caused (joined (more e end))
join_errors (caused e) no_cause = caused (joined (more e end))
join_errors (caused e) (caused e') = caused (joined (more e (more e' end)))

-- The arguments of `E`, by type. `other` is a value of any other type, as `fmt.Sprint` prints it.
pub data Arg : Type 0 where
  nil : Arg
  kind : Kind → Arg
  user : String → Arg
  text : String → Arg
  error : Err → Arg
  other : String → Arg

unfoldable pub is_unset : Fields → Cause → Bool
unfolding kind_eq
is_unset f no_cause =
    is_blank f.op && kind_eq f.kind ErrorKind.unknown && is_blank f.message && is_blank f.user_msg
is_unset f (caused e) = false

unfoldable pub set_arg : Fields → Cause → Arg → Fields × Cause
unfolding is_unset
set_arg f c nil = (f, c)
set_arg f c (kind k) = (record f { kind = k }, c)
set_arg f c (user m) = (record f { user_msg = m }, c)
set_arg f c (text t) =
    if is_unset f c then (record f { op = t }, c) else (record f { message = t }, c)
set_arg f c (error e) = (f, join_errors c (caused e))
set_arg f c (other t) = (record f { message = t }, c)

unfoldable pub set_args : Fields → Cause → List Arg → Fields × Cause
unfolding set_arg
set_args f c [] = (f, c)
set_args f c (a ∷ as') = let (f', c') = set_arg f c a in set_args f' c' as'

-- `promote`: kind and user message come from the first structured error below, unless set.
unfoldable pub inherit : Fields → Option (Fields × Cause) → Fields
unfolding kind_eq
inherit f none = f
inherit f (some (prev, _)) = record f {
  kind = if kind_eq f.kind ErrorKind.unknown then prev.kind else f.kind;
  user_msg = if is_blank f.user_msg then prev.user_msg else f.user_msg;
}

unfoldable pub promote : Fields → Cause → Fields
unfolding inherit
promote f c = inherit f (as_app_cause c)

abbrev pub no_fields : Fields
no_fields = record { op = ""; kind = ErrorKind.unknown; message = ""; user_msg = "" }

-- `E(args...)`.
unfoldable pub e : List Arg → Err
unfolding set_args promote
e args = let (f, c) = set_args no_fields no_cause args in app (promote f c) c
