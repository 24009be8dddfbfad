-- ===== src/Runtime/Samples.antt =====
-- A database of one tenant's runtime state, and the theorems on
-- backend/internal/store/postgres/runtime_repository.go at it.
use expensor.Prelude.{true, false, none, some, List, [], ◌∷◌, if◌then◌else◌, ◌≡◌, refl}
use expensor.Prelude.Tables.{exists_where, change_where, upsert_where}
use expensor.Result.{ok}
use expensor.Scanning.{exec}
use expensor.Runtime.{ReaderRuntime, ProviderRuntime}
use expensor.Runtime.SecretBox.{Aead, seal_secret}
use expensor.Runtime.Readers.{
  client_secret, oauth_token, with_ciphertext, empty_reader, write_reader_encrypted_json,
  read_reader_encrypted_json,
}
use expensor.Runtime.Providers.{set_active_llm_provider, empty_provider, activated}
use expensor.Runtime.Secrets.{same_secret, read_reader_encrypted_json-write}
use expensor.Runtime.Active.{is_active, is_other_active, set_active_llm_provider-only}

abbrev plain : Aead
plain = record { nonce_size = 1; seal = λ n p d. p; open_sealed = λ n p d. ok p }

abbrev before : List ReaderRuntime
before = with_ciphertext oauth_token (some (7 ∷ 5 ∷ [])) (empty_reader "ann" "gmail") ∷ []

abbrev written : List ReaderRuntime
written =
    with_ciphertext client_secret (some (7 ∷ 3 ∷ 4 ∷ []))
      (with_ciphertext oauth_token (some (7 ∷ 5 ∷ [])) (empty_reader "ann" "gmail"))
    ∷ []

read_reader_encrypted_json-write_example :
    read_reader_encrypted_json
      (λ s. s)
      (λ b. true)
      (some plain)
      none
      "ann"
      "gmail"
      oauth_token
      written
    ≡ (if same_secret "ann" "gmail" client_secret "ann" "gmail" oauth_token
        then ok (some (3 ∷ 4 ∷ []))
        else read_reader_encrypted_json
            (λ s. s)
            (λ b. true)
            (some plain)
            none
            "ann"
            "gmail"
            oauth_token
            before)
unfolding write_reader_encrypted_json seal_secret exec upsert_where exists_where change_where
read_reader_encrypted_json-write_example =
    read_reader_encrypted_json-write (λ s. s) (λ b. true) plain (7 ∷ []) none "ann" "gmail"
      client_secret (3 ∷ 4 ∷ []) before written "ann" "gmail" oauth_token refl (λ n p d. refl) refl

abbrev providers : List ProviderRuntime
providers = activated (empty_provider "ann" "openai") ∷ empty_provider "ann" "local" ∷ []

set_active_llm_provider-only_example :
    (rows' : List ProviderRuntime) × (set_active_llm_provider
        (λ s. s)
        (λ b. true)
        (λ n. none)
        "ann"
        "local"
        providers
      ≡ ok rows')
    × (exists_where (is_active "ann" "local") rows' ≡ true)
    × (exists_where (is_other_active "ann" "local") rows' ≡ false)
set_active_llm_provider-only_example =
    set_active_llm_provider-only (λ s. s) (λ b. true) "ann" "local" providers
