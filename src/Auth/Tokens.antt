-- ===== src/Auth/Tokens.antt =====
-- The sessions and access tokens of backend/internal/store/postgres/auth_repository.go, and the opaque
-- tokens of backend/internal/auth/tokens.go.
use expensor.Prelude.{
  ℕ, String, Bool, not, ◌&&◌, Option, none, some, [], ◌∷◌, ◌++◌, str_eq, if◌then◌else◌,
}
use expensor.Prelude.Tables.{change_where, exists_where, first_where}
use expensor.Prelude.Text.{is_blank, trim_space, append}
use expensor.ErrorKind
use expensor.Errors.{Err}
use expensor.Errors.Build.{e, kind, user, text, error}
use expensor.Result.{Result, ok, fail, ◌>>=◌}
use expensor.Scanning.{exec}
use expensor.Auth.{Session, AccessToken, AuthDb, missing, require_row, is_set}

unfoldable pub raw_token : String → String → String
unfolding trim_space append
raw_token prefix encoded = append (trim_space prefix) (append "_" encoded)

-- `HashOpaqueToken` is given: a prefix and the hexadecimal SHA-256 sum. `NewOpaqueToken`, by what the
-- system's random source gives, encoded.
unfoldable pub new_opaque_token :
    (String → String) → Result String → String → Result (String × String)
unfolding trim_space raw_token
new_opaque_token hash_opaque_token random prefix =
    if is_blank (trim_space prefix)
    then fail (e (kind ErrorKind.invalid_input ∷ text "token prefix cannot be blank" ∷ []))
    else do
      encoded ← random
      ok (raw_token prefix encoded, hash_opaque_token (raw_token prefix encoded))

abbrev pub has_hash : String → Session → Bool
has_hash hash s = str_eq s.token_hash hash

-- `CreateSession`, whose row the database gives an id and a time.
abbrev pub new_session : String → ℕ → String → String → ℕ → Session
new_session id now user_id hash expires_at = record {
  id = id;
  user_id = user_id;
  token_hash = hash;
  created_at = now;
  expires_at = expires_at;
  last_used_at = none;
  revoked_at = none;
}

unfoldable pub create_session :
    Option Err → String → ℕ → String → String → ℕ → AuthDb → Result AuthDb
unfolding exec
create_session fault id now user_id hash expires_at db =
    exec fault "postgres.auth.create_session" "creating session"
      (record db { sessions = db.sessions ++ new_session id now user_id hash expires_at ∷ [] })

-- `FindSessionByHash`.
unfoldable pub find_session_by_hash : Option Err → String → AuthDb → Result Session
unfolding exec first_where
find_session_by_hash fault hash db = do
  row ←
      exec fault "postgres.auth.find_session_by_hash" "finding session by hash"
        (first_where (has_hash hash) db.sessions)
  require_row (missing "store.auth.find_session_by_hash") row

abbrev pub is_session : String → Session → Bool
is_session id s = str_eq s.id id

abbrev pub revoked : ℕ → Session → Session
revoked now s = record s { revoked_at = some now }

-- `RevokeSession`.
unfoldable pub revoke_session : Option Err → ℕ → String → AuthDb → Result AuthDb
unfolding exec change_where exists_where
revoke_session fault now id db = do
  db' ←
      exec fault "postgres.auth.revoke_session" "revoking session"
        (record db { sessions = change_where (is_session id) (revoked now) db.sessions })
  if exists_where (is_session id) db.sessions
      then ok db'
      else fail (missing "store.auth.revoke_session")

abbrev pub new_access_token : String → ℕ → String → String → String → Option ℕ → AccessToken
new_access_token id now user_id name hash expires_at = record {
  id = id;
  user_id = user_id;
  name = name;
  token_hash = hash;
  created_at = now;
  expires_at = expires_at;
  last_used_at = none;
  revoked_at = none;
}

-- The unique index on the names of a user's tokens that are not revoked.
abbrev pub has_name : String → String → AccessToken → Bool
has_name user_id name t =
    str_eq t.user_id user_id && str_eq t.name name && not (is_set t.revoked_at)

-- `CreateAccessToken`.
unfoldable pub create_access_token :
    Err → Option Err → String → ℕ → String → String → String → Option ℕ → AuthDb → Result AuthDb
unfolding exec exists_where append
create_access_token violation fault id now user_id name hash expires_at db =
    if exists_where (has_name user_id name) db.access_tokens
    then fail (
        e (
          text "store.auth.create_access_token"
          ∷ kind ErrorKind.conflict
          ∷ user (append "Token " (append name " already exists."))
          ∷ text "access token name conflict"
          ∷ error violation
          ∷ []))
    else exec fault "postgres.auth.create_access_token" "creating access token" (record db {
      access_tokens = db.access_tokens ++ new_access_token id now user_id name hash expires_at ∷ [];
    })

abbrev pub token_has_hash : String → AccessToken → Bool
token_has_hash hash t = str_eq t.token_hash hash

-- `FindAccessTokenByHash`.
unfoldable pub find_access_token_by_hash : Option Err → String → AuthDb → Result AccessToken
unfolding exec first_where
find_access_token_by_hash fault hash db = do
  row ←
      exec fault "postgres.auth.find_access_token_by_hash" "finding access token by hash"
        (first_where (token_has_hash hash) db.access_tokens)
  require_row (missing "store.auth.find_access_token_by_hash") row

abbrev pub is_token_of : String → String → AccessToken → Bool
is_token_of id user_id t = str_eq t.id id && str_eq t.user_id user_id

abbrev pub token_revoked : ℕ → AccessToken → AccessToken
token_revoked now t = record t { revoked_at = some now }

-- `RevokeAccessToken`.
unfoldable pub revoke_access_token : Option Err → ℕ → String → String → AuthDb → Result AuthDb
unfolding exec change_where exists_where
revoke_access_token fault now id user_id db = do
  db' ← exec fault "postgres.auth.revoke_access_token" "revoking access token" (record db {
    access_tokens = change_where (is_token_of id user_id) (token_revoked now) db.access_tokens;
  })
  if exists_where (is_token_of id user_id) db.access_tokens
      then ok db'
      else fail (
          e (
            text "store.auth.revoke_access_token"
            ∷ kind ErrorKind.not_found
            ∷ user "token not found"
            ∷ []))
