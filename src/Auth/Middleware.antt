-- ===== src/Auth/Middleware.antt =====
-- backend/internal/httpapi/auth_middleware.go: which requests need an account, and whose they are.
use expensor.Prelude.{
  ℕ, ltb, String, Bool, false, not, ◌&&◌, ◌||◌, Option, none, some, str_eq, if◌then◌else◌,
}
use expensor.Prelude.Text.{is_blank, trim_space, has_prefix}
use expensor.Prelude.Words.{cut}
use expensor.Errors.{Err}
use expensor.Result.{Result, ok, fail, ◌>>=◌}
use expensor.Auth.{User, AuthDb, Faults, Principal, unauthenticated, is_set}
use expensor.Auth.Accounts.{find_user_by_id}
use expensor.Auth.Tokens.{find_session_by_hash, find_access_token_by_hash}

-- What the middleware reads of a request; `none` for the cookie if there is none.
pub record HttpRequest : Type 0 where
  pub method : String
  pub path : String
  pub session_cookie : Option String
  pub authorization : String

-- `isPublicRoute`.
unfoldable pub is_public_route : HttpRequest → Bool
unfolding has_prefix
is_public_route r =
    (str_eq r.method "OPTIONS" || not (has_prefix r.path "/api/"))
    || (str_eq r.method "GET" && str_eq r.path "/api/health")
    || (str_eq r.method "GET" && str_eq r.path "/api/version")
    || (str_eq r.method "GET" && str_eq r.path "/api/bootstrap")
    || (str_eq r.method "POST" && str_eq r.path "/api/bootstrap")
    || (str_eq r.method "POST" && str_eq r.path "/api/session")
    || (str_eq r.method "GET" && str_eq r.path "/api/account-setup")
    || (str_eq r.method "POST" && str_eq r.path "/api/account-setup")
    || (str_eq r.method "GET" && str_eq r.path "/api/auth/callback")

-- `equal_fold` is strings.EqualFold.
module _ (equal_fold : String → String → Bool) where
  abbrev bearer_of : Option (String × String) → Option String
  bearer_of none = none
  bearer_of (some (scheme, token)) =
      if not (equal_fold scheme "Bearer") || is_blank (trim_space token)
      then none
      else some (trim_space token)

  -- `bearerToken`.
  unfoldable pub bearer_token : String → Option String
  unfolding trim_space cut
  bearer_token header = bearer_of (cut 0x20 (trim_space header))

abbrev pub authentication_required : Err
authentication_required = unauthenticated "authentication required"

abbrev pub principal_for_user : User → String → Principal
principal_for_user u method = record {
  user_id = u.id;
  tenant_id = u.tenant_id;
  role = u.role;
  auth_method = method;
}

-- Whatever the error is, the request is answered as one without an account.
abbrev pub or_unauthenticated {ℓ} : {A : Type ℓ} → Result A → Result A
or_unauthenticated (ok a) = ok a
or_unauthenticated (fail err) = fail authentication_required

-- `authenticatedUser`.
unfoldable pub authenticated_user : Option Err → String → AuthDb → Result User
unfolding find_user_by_id
authenticated_user fault id db = do
  u ← or_unauthenticated (find_user_by_id fault id db)
  if is_set u.disabled_at then fail authentication_required else ok u

-- No time is past an expiry that is not set.
abbrev pub is_over : ℕ → Option ℕ → Bool
is_over now none = false
is_over now (some t) = not (ltb now t)

abbrev pub cookie_value : Option String → String
cookie_value none = ""
cookie_value (some value) = value

-- `hash` is `HashOpaqueToken`.
module _ (equal_fold : String → String → Bool) (hash : String → String) where
  -- `authenticateSession`; a database error is also logged.
  unfoldable pub authenticate_session : Faults → ℕ → String → AuthDb → Result Principal
  unfolding find_session_by_hash authenticated_user
  authenticate_session faults now raw db = do
    s ← or_unauthenticated (find_session_by_hash (faults 0) (hash raw) db)
    current ←
        if is_set s.revoked_at || not (ltb now s.expires_at)
        then fail authentication_required
        else ok s
    u ← authenticated_user (faults 1) current.user_id db
    ok (principal_for_user u "session")

  -- `authenticateBearer`.
  unfoldable pub authenticate_bearer : Faults → ℕ → String → AuthDb → Result Principal
  unfolding find_access_token_by_hash authenticated_user
  authenticate_bearer faults now raw db = do
    t ← or_unauthenticated (find_access_token_by_hash (faults 0) (hash raw) db)
    current ←
        if is_set t.revoked_at || is_over now t.expires_at
        then fail authentication_required
        else ok t
    u ← authenticated_user (faults 1) current.user_id db
    ok (principal_for_user u "bearer")

  abbrev authenticate_token : Faults → ℕ → Option String → AuthDb → Result Principal
  authenticate_token faults now none db = fail authentication_required
  authenticate_token faults now (some token) db = authenticate_bearer faults now token db

  -- `authenticateRequest`: a session cookie is the only thing that counts, if there is one.
  unfoldable pub authenticate_request : Faults → ℕ → HttpRequest → AuthDb → Result Principal
  unfolding authenticate_session authenticate_bearer bearer_token
  authenticate_request faults now r db =
      if not (is_blank (cookie_value r.session_cookie))
      then authenticate_session faults now (cookie_value r.session_cookie) db
      else authenticate_token faults now (bearer_token equal_fold r.authorization) db

  -- `authMiddleware`: what the next handler is called with, or the error that is written.
  unfoldable pub auth_middleware : Faults → ℕ → HttpRequest → AuthDb → Result (Option Principal)
  unfolding is_public_route authenticate_request
  auth_middleware faults now r db =
      if is_public_route r
      then ok none
      else do p ← authenticate_request faults now r db; ok (some p)
