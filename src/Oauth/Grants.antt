-- ===== src/Oauth/Grants.antt =====
-- A withdrawn grant is still seen under a wrapper.
use expensor.Prelude.{String, ◌≡◌, true, List, [], ◌∷◌, ◌++◌, arith}
use mathlib.Core.List.{append_assoc}
use expensor.Prelude.Text.{join, contains_text, contains_text-append_right}
use expensor.Errors.{Fields, Err, app, as_foreign}
use expensor.Errors.Text.{error_text, fields_text, or_unknown}
use expensor.Errors.Wrapping.{single, or_else-none}
use expensor.Oauth.{is_invalid_grant}

-- What the last of the joined texts holds, the joined text holds.
contains_text-join :
    (ps : List String) (t sep sub : String)
    → contains_text t sub ≡ true
    → contains_text (join (ps ++ t ∷ []) sep) sub ≡ true
unfolding join
contains_text-join [] t sep sub h = h
contains_text-join (p ∷ []) t sep sub h =
    contains_text-append_right p _ sub (contains_text-append_right sep t sub h)
contains_text-join (p ∷ q ∷ ps) t sep sub h =
    contains_text-append_right p _ sub
      (contains_text-append_right sep _ sub (contains_text-join (q ∷ ps) t sep sub h))

contains_text-or_unknown :
    (ps : List String) (t sub : String)
    → contains_text t sub ≡ true
    → contains_text (or_unknown (ps ++ t ∷ [])) sub ≡ true
unfolding or_unknown join
contains_text-or_unknown [] t sub h = h
contains_text-or_unknown (p ∷ ps) t sub h = contains_text-join (p ∷ ps) t ": " sub h

-- What the wrapped error's text holds, the wrapper's text holds.
pub contains_text-wrapped :
    (f : Fields) (err : Err) (sub : String)
    → contains_text (error_text err) sub ≡ true
    → contains_text (error_text (app f (single err))) sub ≡ true
unfolding error_text fields_text
contains_text-wrapped f err sub h =
    rw (← append_assoc) (contains_text-or_unknown _ (error_text err) sub h)

oauth_code-single :
    (f : Fields) (err : Err)
    → as_foreign (λ g. g.oauth_code) (app f (single err)) ≡ as_foreign (λ g. g.oauth_code) err
unfolding as_foreign
oauth_code-single f err = or_else-none _

-- A wrapper around a withdrawn grant is one.
pub is_invalid_grant-single :
    (f : Fields) (err : Err)
    → is_invalid_grant err ≡ true
    → is_invalid_grant (app f (single err)) ≡ true
unfolding is_invalid_grant
is_invalid_grant-single f err h =
    rw oauth_code-single (ground (arith, contains_text-wrapped f err "invalid_grant"))
