-- ===== src/Runtime/SecretBox.antt =====
-- `SecretBox` of backend/internal/auth/crypto.go.
use expensor.Prelude.{
  ℕ, zero, suc, ltb, String, Option, none, some, [], ◌∷◌, ◌++◌, length, if◌then◌else◌,
}
use expensor.Prelude.Text.{append}
use expensor.ErrorKind
use expensor.Errors.{Err}
use expensor.Errors.Build.{e, kind, text, error}
use expensor.Result.{Result, ok, fail, ◌>>=◌}
use expensor.Runtime.{Bytes}

-- `cipher.AEAD`, for one key.
pub record Aead : Type 0 where
  pub nonce_size : ℕ
  pub seal : Bytes → Bytes → String → Bytes
  pub open_sealed : Bytes → Bytes → String → Result Bytes

pub record SecretAssociatedData : Type 0 where
  pub tenant_id : String
  pub scope : String
  pub name : String
  pub kind_of : String

-- `SecretAssociatedData.bytes`
unfoldable pub associated_bytes : SecretAssociatedData → String
unfolding append
associated_bytes a =
    append a.tenant_id
      (append "\0" (append a.scope (append "\0" (append a.name (append "\0" a.kind_of)))))

unfoldable pub take : ℕ → Bytes → Bytes
take zero bs = []
take (suc n) [] = []
take (suc n) (b ∷ bs) = b ∷ take n bs

unfoldable pub drop : ℕ → Bytes → Bytes
drop zero bs = bs
drop (suc n) [] = []
drop (suc n) (b ∷ bs) = drop n bs

abbrev pub uninitialized : Err
uninitialized = e (kind ErrorKind.failed_precondition ∷ text "secret box is not initialized" ∷ [])

-- The error of a call that returns one, wrapped.
abbrev pub wrapped {ℓ} : {A : Type ℓ} → String → String → Result A → Result A
wrapped op message (ok a) = ok a
wrapped op message (fail err) = fail (e (text op ∷ text message ∷ error err ∷ []))

-- `Seal`; `random` is what the system's random source gives for the nonce.
unfoldable pub seal_secret :
    Option Aead → Result Bytes → Bytes → SecretAssociatedData → Result Bytes
unfolding associated_bytes
seal_secret none random plaintext a = fail uninitialized
seal_secret (some aead) random plaintext a = do
  nonce ← wrapped "auth.crypto.seal" "generating nonce" random
  ok (nonce ++ aead.seal nonce plaintext (associated_bytes a))

-- `Open`.
unfoldable pub open_secret : Option Aead → Bytes → SecretAssociatedData → Result Bytes
unfolding associated_bytes take drop
open_secret none ciphertext a = fail uninitialized
open_secret (some aead) ciphertext a =
    if ltb (length ciphertext) aead.nonce_size
    then fail (e (kind ErrorKind.invalid_input ∷ text "ciphertext too short" ∷ []))
    else wrapped "auth.crypto.open" "decrypting secret" (
        aead.open_sealed (take aead.nonce_size ciphertext) (drop aead.nonce_size ciphertext)
          (associated_bytes a))
