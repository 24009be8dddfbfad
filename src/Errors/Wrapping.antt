-- ===== src/Errors/Wrapping.antt =====
-- What an error keeps when another `E` is put around it.
use expensor.Prelude.{
  String, ◌≡◌, ap, ◌||◌, Bool, refl, true, false, Option, none, some, List, [], ◌∷◌, arith,
  if◌then◌else◌, Bool-cases, inl, inr,
}
use expensor.Prelude.Text.{is_blank}
use expensor.ErrorKind
use expensor.ErrorKind.{Kind, kind_eq}
use expensor.ErrorKind.Statuses.{kind_eq_iff}
use expensor.Errors.{
  Fields, Err, app, joined, Cause, no_cause, caused, end, more, canceled, deadline_exceeded,
  is_error, as_app, or_else,
}
use expensor.Errors.Loops.{user_msg_round, first_user_msg_rounds}
use expensor.Errors.Build.{
  Arg, text, user, error, e, set_args, is_unset, no_fields, promote, inherit,
}
use expensor.Errors.Classify.{
  what_kind, user_msg, status_code, first_user_msg, first_user_msg_cause, or_below, app_kind,
}

abbrev pub single : Err → Cause
single err = caused (joined (more err end))

pub or_else-none {ℓ} : {A : Type ℓ} (o : Option A) → or_else o none ≡ o
or_else-none none = refl
or_else-none (some a) = refl

or_false : (b : Bool) → (b || false) ≡ b
or_false true = refl
or_false false = refl

app_kind-inherit :
    (f : Fields) (p : Option (Fields × Cause)) (c : Cause) (rest : Kind)
    → f.kind ≡ ErrorKind.unknown
    → app_kind (some (inherit f p, c)) rest ≡ app_kind p rest
unfolding app_kind inherit
app_kind-inherit f none c rest h = ground (arith, kind_eq_iff f.kind ErrorKind.unknown)
app_kind-inherit f (some (prev, d)) c rest h = ground (arith, kind_eq_iff f.kind ErrorKind.unknown)

-- A node with no kind of its own around one error.
what_kind-promote :
    (f : Fields) (err : Err)
    → f.kind ≡ ErrorKind.unknown
    → what_kind (app (promote f (single err)) (single err)) ≡ what_kind err
unfolding what_kind promote
what_kind-promote f err h =
    simp (or_else-none, or_false) (rw (app_kind-inherit f (as_app err) (single err) _ h))

blank-eq : (s : String) → is_blank s ≡ true → s ≡ ""
blank-eq String.[] h = refl
blank-eq (String.◌∷◌ c s) h = cc

or_below-or_below :
    (m : String) (z : Option String) → or_below m (some (or_below m z)) ≡ or_below m z
or_below-or_below m none = ground arith
or_below-or_below m (some z) = ground arith

or_below-inherit :
    (f : Fields) (p : Option (Fields × Cause))
    → is_blank f.user_msg ≡ true
    → or_below (inherit f p).user_msg (user_msg_round p) ≡ or_below "" (user_msg_round p)
unfolding inherit
or_below-inherit f none h = blank-eq f.user_msg h
or_below-inherit f (some (prev, d)) h =
    rw h (or_below-or_below prev.user_msg (first_user_msg_cause d))

promote-single : (f : Fields) (err : Err) → promote f (single err) ≡ inherit f (as_app err)
unfolding promote as_app
promote-single f err = ap (inherit f) (or_else-none (as_app err))

first_user_msg-single : (err : Err) → first_user_msg_cause (single err) ≡ first_user_msg err
unfolding first_user_msg
first_user_msg-single err = or_else-none (first_user_msg err)

-- As `what_kind-promote`, for the user message.
user_msg-promote :
    (f : Fields) (err : Err)
    → is_blank f.user_msg ≡ true
    → user_msg (app (promote f (single err)) (single err)) ≡ user_msg err
unfolding user_msg
user_msg-promote f err h =
    rw (promote-single f err, first_user_msg-single err)
      (rw first_user_msg_rounds (or_below-inherit f (as_app err) h))

-- Texts alone leave the kind and the user message unset.
wrap_args :
    (op message : String) (err : Err)
    → (f : Fields) × (set_args no_fields no_cause (text op ∷ text message ∷ error err ∷ [])
        ≡ (f, single err))
      × (f.kind ≡ ErrorKind.unknown)
      × (is_blank f.user_msg ≡ true)
unfolding set_args
wrap_args op message err = elim (Bool-cases (is_unset (record no_fields { op = op }) no_cause)) [
  | inl u ↦ (record no_fields { op = message }, ground arith, refl, refl)
  | inr u ↦ (record no_fields { op = op; message = message }, ground arith, refl, refl)
]

pub e-eq-app :
    (args : List Arg) (f : Fields) (c : Cause)
    → set_args no_fields no_cause args ≡ (f, c)
    → e args ≡ app (promote f c) c
unfolding e
e-eq-app args f c h = ap (λ (p : Fields × Cause). app (promote p.0 p.1) p.1) h

-- An `Error` built from an operation, a message and a wrapped error classifies, answers HTTP and
-- speaks to the user exactly as the wrapped error does, whatever that one is.
pub wrap-transparent :
    (op message : String) (err : Err)
    → let w = e (text op ∷ text message ∷ error err ∷ []) in
      (what_kind w ≡ what_kind err)
      × (status_code w ≡ status_code err)
      × (user_msg w ≡ user_msg err)
unfolding status_code
wrap-transparent op message err =
    let (f, args, k, u) = wrap_args op message err in
    rw (e-eq-app _ f (single err) args)
      (let same = what_kind-promote f err k in (same, rw same, user_msg-promote f err u))

-- A message of the wrapper's own is the one that is shown.
pub user_msg-own :
    (f : Fields) (err : Err)
    → is_blank f.user_msg ≡ false
    → user_msg (app (promote f (single err)) (single err)) ≡ f.user_msg
unfolding user_msg inherit
user_msg-own f err h =
    rw (promote-single f err, first_user_msg-single err) (own (as_app err) (first_user_msg err))
  where
    own :
        (p : Option (Fields × Cause)) (z : Option String)
        → or_below (inherit f p).user_msg z ≡ f.user_msg
    own none none = refl
    own none (some z) = rw h
    own (some (prev, d)) none = rw h
    own (some (prev, d)) (some z) = rw (h, h)

abbrev op_and_user : String → String → Fields
op_and_user op message = record no_fields { op = op; user_msg = message }

wrap_user_args :
    (op message : String) (err : Err)
    → set_args no_fields no_cause (text op ∷ user message ∷ error err ∷ [])
      ≡ (op_and_user op message, single err)
unfolding set_args
wrap_user_args op message err = refl

-- With a user message of its own, the wrapper still classifies as the wrapped error, and speaks to
-- the user with that message.
pub wrap-user :
    (op message : String) (err : Err)
    → is_blank message ≡ false
    → let w = e (text op ∷ user message ∷ error err ∷ []) in
      (what_kind w ≡ what_kind err) × (user_msg w ≡ message)
wrap-user op message err h =
    rw (e-eq-app _ (op_and_user op message) (single err) (wrap_user_args op message err)) (
      what_kind-promote (op_and_user op message) err refl,
      user_msg-own (op_and_user op message) err h,
    )

-- A kind of the wrapper's own is the one that classifies, unless the chain holds a sentinel.
pub what_kind-own :
    (f : Fields) (err : Err)
    → kind_eq f.kind ErrorKind.unknown ≡ false
    → what_kind (app (promote f (single err)) (single err)) ≡ (
        if is_error canceled err
        then ErrorKind.canceled
        else if is_error deadline_exceeded err
        then ErrorKind.deadline_exceeded
        else f.kind)
unfolding what_kind inherit
what_kind-own f err h =
    rw (promote-single f err) (simp (or_else-none, or_false) (rw (own (as_app err) (single err) _)))
  where
    own :
        (p : Option (Fields × Cause)) (c : Cause) (rest : Kind)
        → app_kind (some (inherit f p, c)) rest ≡ f.kind
    own none c rest = rw h
    own (some (prev, d)) c rest = rw (h, h)
