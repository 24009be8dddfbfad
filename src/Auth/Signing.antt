-- ===== src/Auth/Signing.antt =====
-- Login and Logout of backend/internal/httpapi/handlers_auth.go against the middleware.
use mathlib.Core.Path.{subst}
use expensor.Prelude.{
  ℕ, ltb, ◌+◌, String, Bool, true, false, Option, none, some, List, [], ◌∷◌, ◌++◌, str_eq, ◌≡◌,
  refl, arith, eq_refl, Bool-cases, Option-cases, inl, inr,
}
use expensor.Prelude.Text.{is_blank, trim_space}
use expensor.Prelude.Tables.{exists_where, first_where, change_where}
use expensor.Prelude.Rows.{first_where-found}
use expensor.Prelude.Snoc.{first_where-snoc}
use expensor.Result.{ok, fail, Result-cases}
use expensor.Scanning.{exec}
use expensor.Auth.{User, Session, AuthDb, is_set}
use expensor.Auth.Accounts.{has_id, find_user_by_id, find_user_by_email}
use expensor.Auth.Tokens.{
  has_hash, is_session, revoked, revoke_session, find_session_by_hash, create_session, new_session,
  new_opaque_token,
}
use expensor.Auth.Middleware.{
  authentication_required, authenticated_user, authenticate_session, principal_for_user,
}
use expensor.Auth.Sessions.{Env, Answer, session_ttl, login, logout, create_session_cookie}

-- The tables after a session was created.
abbrev with_session : Env → ℕ → User → String → AuthDb → AuthDb
with_session env now u raw db = record db {
  sessions = db.sessions ++ new_session env.new_id now u.id (env.hash raw) (now + session_ttl) ∷ [];
}

login_result :
    (env : Env) (now : ℕ) (email password : String) (db db' : AuthDb) (a : Answer)
    (row : Option User)
    → first_where
        (λ (u : User). str_eq (env.lower u.email) (env.lower (env.to_lower (trim_space email))))
        db.users
      ≡ row
    → login env (λ n. none) now email password db ≡ (db', ok a)
    → (is_set a.account.disabled_at ≡ false) × (db' ≡ with_session env now a.account a.cookie db)
unfolding login find_user_by_email create_session_cookie create_session new_opaque_token exec
login_result env now email password db db' a none e h = ground arith
login_result env now email password db db' a (some u) e h = elim (Result-cases env.random) [
  | inl (encoded, f) ↦ (ground arith, ground arith)
  | inr (err, f) ↦ ground arith
]

-- On the tables that a login leaves which meets no fault, and while the database answers, the cookie of
-- the login authenticates at every time before the session expires, as the account that Login answered
-- with. No earlier session has the cookie's hash, and the account is the one its id finds.
pub authenticate_session-login :
    (equal_fold : String → String → Bool) (env : Env) (now later : ℕ) (email password : String)
    (db db' : AuthDb) (a : Answer)
    → login env (λ n. none) now email password db ≡ (db', ok a)
    → exists_where (has_hash (env.hash a.cookie)) db.sessions ≡ false
    → first_where (has_id a.account.id) db.users ≡ some a.account
    → ltb later (now + session_ttl) ≡ true
    → authenticate_session equal_fold env.hash (λ n. none) later a.cookie db'
      ≡ ok (principal_for_user a.account "session")
unfolding authenticate_session authenticated_user find_session_by_hash find_user_by_id exec
authenticate_session-login equal_fold env now later email password db db' a h fresh key early =
    let (on, result) = login_result env now email password db db' a _ refl h in
    let s = new_session env.new_id now a.account.id (env.hash a.cookie) (now + session_ttl) in
    rw
      (
        result,
        first_where-snoc (has_hash (env.hash a.cookie)) s db.sessions fresh
            (eq_refl (env.hash a.cookie)),
        early,
        key,
        on,
      )
      refl

revoked_session :
    (k hash : String) (now : ℕ) (s : Session) (xs : List Session)
    → first_where (has_hash hash) xs ≡ some s
    → s.id ≡ k
    → first_where (has_hash hash) (change_where (is_session k) (revoked now) xs)
      ≡ some (revoked now s)
unfolding first_where change_where
revoked_session k hash now s [] e same = ground arith
revoked_session k hash now s (x ∷ xs) e same = elim (Bool-cases (has_hash hash x)) [
  | inl f ↦
      let it : x ≡ s = ground arith in
      rw (it, same, eq_refl k, subst (λ y. has_hash hash y ≡ true) it f) refl
  | inr f ↦ ground (arith, revoked_session k hash now s xs)
]

logout_unknown :
    (env : Env) (now : ℕ) (raw : String) (db : AuthDb)
    → is_blank raw ≡ false
    → first_where (has_hash (env.hash raw)) db.sessions ≡ none
    → (logout env (λ n. none) now (some raw) db).0 ≡ db
unfolding logout find_session_by_hash exec
logout_unknown env now raw db filled e = rw (filled, e) refl

logout_known :
    (env : Env) (now : ℕ) (raw : String) (db : AuthDb) (s : Session)
    → is_blank raw ≡ false
    → first_where (has_hash (env.hash raw)) db.sessions ≡ some s
    → (logout env (λ n. none) now (some raw) db).0
      ≡ record db { sessions = change_where (is_session s.id) (revoked now) db.sessions }
unfolding logout find_session_by_hash revoke_session exec
logout_known env now raw db s filled e =
    rw
      (
        filled,
        e,
        first_where-found (has_hash (env.hash raw)) (is_session s.id) s db.sessions e
            (eq_refl s.id),
      )
      refl

-- On the tables that Logout leaves, with a database that answers both calls, a cookie that was shown to
-- it does not authenticate a request, at whatever time and whether or not it did before.
pub authenticate_session-logout :
    (equal_fold : String → String → Bool) (env : Env) (now later : ℕ) (raw : String) (db : AuthDb)
    → is_blank raw ≡ false
    → authenticate_session equal_fold env.hash
        (λ n. none)
        later
        raw
        (logout env (λ n. none) now (some raw) db).0
      ≡ fail authentication_required
unfolding authenticate_session find_session_by_hash exec
authenticate_session-logout equal_fold env now later raw db filled =
    elim (Option-cases (first_where (has_hash (env.hash raw)) db.sessions)) [
      | inl e ↦ rw (logout_unknown env now raw db filled e, e) refl
      | inr (s, e) ↦
          rw
            (
              logout_known env now raw db s filled e,
              revoked_session s.id (env.hash raw) now s db.sessions e refl,
            )
            refl
    ]
