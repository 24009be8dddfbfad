-- ===== src/Auth/Authentic.antt =====
-- What backend/internal/httpapi/auth_middleware.go lets through.
use mathlib.Core.Path.{subst}
use expensor.Prelude.{
  ◌⊎◌, ℕ, ltb, String, Bool, true, false, not, ◌&&◌, ◌||◌, Option, none, some, str_eq,
  if◌then◌else◌, ◌≡◌, refl, arith, ◌∙◌, ap, eq_refl, eq_iff, Bool-cases, Option-cases, inl, inr,
}
use expensor.Prelude.Text.{is_blank}
use expensor.Prelude.Tables.{exists_where, first_where}
use expensor.Prelude.Rows.{first_where-found, first_where-satisfies}
use expensor.Errors.{Err}
use expensor.Result.{ok, Result-cases}
use expensor.Scanning.{exec}
use expensor.Auth.{User, Session, AccessToken, AuthDb, Faults, Principal, is_set}
use expensor.Auth.Accounts.{has_id, find_user_by_id}
use expensor.Auth.Tokens.{has_hash, token_has_hash, find_session_by_hash, find_access_token_by_hash}
use expensor.Auth.Middleware.{
  HttpRequest, is_public_route, bearer_token, authenticated_user, is_over, authenticate_session,
  authenticate_bearer, cookie_value, authenticate_request, auth_middleware, principal_for_user,
}

-- An account that may sign in, with what a principal says of it.
abbrev pub is_account_of : Principal → User → Bool
is_account_of p u =
    str_eq u.id p.user_id
    && str_eq u.tenant_id p.tenant_id
    && str_eq u.role p.role
    && not (is_set u.disabled_at)

-- A session of the account with this token, neither revoked nor expired.
abbrev pub is_live_session : ℕ → String → String → Session → Bool
is_live_session now hash user_id s =
    str_eq s.token_hash hash
    && str_eq s.user_id user_id
    && not (is_set s.revoked_at)
    && ltb now s.expires_at

abbrev pub is_live_token : ℕ → String → String → AccessToken → Bool
is_live_token now hash user_id t =
    str_eq t.token_hash hash
    && str_eq t.user_id user_id
    && not (is_set t.revoked_at)
    && not (is_over now t.expires_at)

found_account :
    (fault : Option Err) (id method : String) (db : AuthDb) (u : User) (row : Option User)
    → first_where (has_id id) db.users ≡ row
    → authenticated_user fault id db ≡ ok u
    → (exists_where (is_account_of (principal_for_user u method)) db.users ≡ true) × (u.id ≡ id)
unfolding authenticated_user find_user_by_id exec
found_account fault id method db u none e h = ground arith
found_account fault id method db u (some v) e h =
    let same : v ≡ u = ground arith in
    let found : first_where (has_id id) db.users ≡ some u = e ∙ ap some same in
    (
      first_where-found (has_id id) (is_account_of (principal_for_user u method)) u db.users found
          (ground (arith, eq_refl u.id, eq_refl u.tenant_id, eq_refl u.role)),
      ground (arith, eq_iff u.id id, first_where-satisfies (has_id id) u db.users found),
    )

module _ (equal_fold : String → String → Bool) (hash : String → String) (now : ℕ) where
  -- The principal stands for an account that may sign in, and the token for a live session of it.
  abbrev IsAuthentic : (String → Bool) → AuthDb → Principal → Type 0
  IsAuthentic credential db p =
      (exists_where (is_account_of p) db.users ≡ true) × (credential p.user_id ≡ true)

  abbrev pub by_session : String → AuthDb → String → Bool
  by_session raw db user_id = exists_where (is_live_session now (hash raw) user_id) db.sessions

  abbrev pub by_token : String → AuthDb → String → Bool
  by_token raw db user_id = exists_where (is_live_token now (hash raw) user_id) db.access_tokens

  session-IsAuthentic :
      (faults : Faults) (raw : String) (db : AuthDb) (p : Principal) (row : Option Session)
      → first_where (has_hash (hash raw)) db.sessions ≡ row
      → authenticate_session equal_fold hash faults now raw db ≡ ok p
      → IsAuthentic (by_session raw db) db p
  unfolding authenticate_session find_session_by_hash exec
  session-IsAuthentic faults raw db p none e h = ground arith
  session-IsAuthentic faults raw db p (some s) e h =
      elim (Result-cases (authenticated_user (faults 1) s.user_id db)) [
        | inr (err, f) ↦ ground arith
        | inl (u, f) ↦
            let live : (is_set s.revoked_at || not (ltb now s.expires_at)) ≡ false = ground arith in
            let is_p : principal_for_user u "session" ≡ p = ground arith in
            let (account, same) =
              found_account (faults 1) s.user_id "session" db u
                (first_where (has_id s.user_id) db.users) refl f in
            subst (IsAuthentic (by_session raw db) db) is_p (
              account,
              first_where-found (has_hash (hash raw)) (is_live_session now (hash raw) u.id) s
                  db.sessions e
                  (ground (
                    arith,
                    first_where-satisfies (has_hash (hash raw)) s db.sessions e,
                    eq_iff s.user_id u.id,
                  )),
            )
      ]

  bearer-IsAuthentic :
      (faults : Faults) (raw : String) (db : AuthDb) (p : Principal) (row : Option AccessToken)
      → first_where (token_has_hash (hash raw)) db.access_tokens ≡ row
      → authenticate_bearer equal_fold hash faults now raw db ≡ ok p
      → IsAuthentic (by_token raw db) db p
  unfolding authenticate_bearer find_access_token_by_hash exec
  bearer-IsAuthentic faults raw db p none e h = ground arith
  bearer-IsAuthentic faults raw db p (some t) e h =
      elim (Result-cases (authenticated_user (faults 1) t.user_id db)) [
        | inr (err, f) ↦ ground arith
        | inl (u, f) ↦
            let live : (is_set t.revoked_at || is_over now t.expires_at) ≡ false = ground arith in
            let is_p : principal_for_user u "bearer" ≡ p = ground arith in
            let (account, same) =
              found_account (faults 1) t.user_id "bearer" db u
                (first_where (has_id t.user_id) db.users) refl f in
            subst (IsAuthentic (by_token raw db) db) is_p (
              account,
              first_where-found (token_has_hash (hash raw)) (is_live_token now (hash raw) u.id) t
                  db.access_tokens e
                  (ground (
                    arith,
                    first_where-satisfies (token_has_hash (hash raw)) t db.access_tokens e,
                    eq_iff t.user_id u.id,
                  )),
            )
      ]

  -- The credential that counts: the session cookie if there is one, and the bearer token otherwise.
  abbrev pub by_bearer : Option String → AuthDb → String → Bool
  by_bearer none db user_id = false
  by_bearer (some raw) db user_id = by_token raw db user_id

  abbrev pub by_request : HttpRequest → AuthDb → String → Bool
  by_request r db user_id =
      if is_blank (cookie_value r.session_cookie)
      then by_bearer (bearer_token equal_fold r.authorization) db user_id
      else by_session (cookie_value r.session_cookie) db user_id

  request-IsAuthentic :
      (faults : Faults) (r : HttpRequest) (db : AuthDb) (p : Principal)
      → authenticate_request equal_fold hash faults now r db ≡ ok p
      → IsAuthentic (by_request r db) db p
  unfolding authenticate_request
  request-IsAuthentic faults r db p h =
      elim (Bool-cases (is_blank (cookie_value r.session_cookie))) [
        | inr e ↦
            let raw = cookie_value r.session_cookie in
            rw e (
              session-IsAuthentic faults raw db p (first_where (has_hash (hash raw)) db.sessions)
                refl (ground arith))
        | inl e ↦ elim (Option-cases (bearer_token equal_fold r.authorization)) [
          | inl f ↦ ground arith
          | inr (raw, f) ↦
              rw (e, f)
                (bearer-IsAuthentic faults raw db p
                  (first_where (token_has_hash (hash raw)) db.access_tokens) refl (ground arith))
        ]
      ]

  -- A request that the middleware lets through is for a public route, and then comes with no principal,
  -- or it is for another route and comes with one: of an account that exists and is not disabled, whose
  -- session is the one of the cookie and is neither revoked nor expired, or, where there is no cookie,
  -- whose access token is the bearer token and is neither revoked nor expired.
  pub auth_middleware-IsAuthentic :
      (faults : Faults) (r : HttpRequest) (db : AuthDb) (passed : Option Principal)
      → auth_middleware equal_fold hash faults now r db ≡ ok passed
      → ((is_public_route r ≡ true) × (passed ≡ none))
        ⊎ ((is_public_route r ≡ false)
            × ((p : Principal) × (passed ≡ some p)
                × (exists_where (is_account_of p) db.users ≡ true)
                × (by_request r db p.user_id ≡ true)))
  unfolding auth_middleware
  auth_middleware-IsAuthentic faults r db passed h = elim (Bool-cases (is_public_route r)) [
    | inl e ↦ inl (e, ground arith)
    | inr e ↦ elim (Result-cases (authenticate_request equal_fold hash faults now r db)) [
      | inr (err, f) ↦ ground arith
      | inl (p, f) ↦
          let (account, credential) = request-IsAuthentic faults r db p f in
          inr (e, (p, ground arith, account, credential))
    ]
  ]
