-- ===== src/Errors/Text.antt =====
-- `Error.Error` of backend/pkg/errors/errors.go: the text of an error.
use Prim.Native.Char.{code}
use expensor.Prelude.{
  String, not, Option, none, some, List, [], ◌∷◌, ◌++◌, ◌==◌, str_eq, if◌then◌else◌,
}
use expensor.Prelude.Text.{is_blank, join, append}
use expensor.ErrorKind
use expensor.ErrorKind.{Kind, kind_eq}
use expensor.Errors.{
  Fields, Err, context_canceled, context_deadline_exceeded, app, joined, foreign, Cause, no_cause,
  caused, Errs, end, more,
}

-- `Kind.String`: underscores become spaces.
spaced : String → String
spaced String.[] = ""
spaced (String.◌∷◌ c s) =
    let rest = spaced s in if code c == b'_' then append " " rest else append (String.◌∷◌ c "") rest

unfoldable pub kind_text : Kind → String
unfolding spaced append
kind_text k = if is_blank k.code then "unknown error" else spaced k.code

-- The parts that `Error.Error` joins, given the text of the wrapped error if there is one.
op_part : String → List String
op_part op = if is_blank op then [] else op ∷ []

message_part : Fields → Option String → List String
unfolding kind_text kind_eq
message_part f wrapped =
    if not (is_blank f.message)
    then f.message ∷ []
    else if kind_eq f.kind ErrorKind.unknown
    then []
    else elim wrapped [
      | none ↦ kind_text f.kind ∷ []
      | some t ↦ if str_eq t (kind_text f.kind) then [] else kind_text f.kind ∷ []
    ]

cause_part : Option String → List String
cause_part none = []
cause_part (some t) = t ∷ []

unfoldable pub or_unknown : List String → String
or_unknown [] = "unknown error"
or_unknown (p ∷ ps) = join (p ∷ ps) ": "

unfoldable pub fields_text : Fields → Option String → String
unfolding op_part message_part cause_part or_unknown join
fields_text f wrapped = or_unknown (op_part f.op ++ (message_part f wrapped ++ cause_part wrapped))

-- `err.Error()`.
unfoldable mutual
  pub error_text : Err → String
  error_text context_canceled = "context canceled"
  error_text context_deadline_exceeded = "context deadline exceeded"
  error_text (app f c) = fields_text f (cause_text c)
  error_text (joined es) = join (error_texts es) "\n"
  error_text (foreign f c) = f.text

  pub cause_text : Cause → Option String
  cause_text no_cause = none
  cause_text (caused e) = some (error_text e)

  pub error_texts : Errs → List String
  error_texts end = []
  error_texts (more e es) = error_text e ∷ error_texts es
