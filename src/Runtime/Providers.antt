-- ===== src/Runtime/Providers.antt =====
-- The LLM providers of a tenant in backend/internal/store/postgres/runtime_repository.go.
use expensor.Prelude.{[], ◌∷◌, ℕ, String, Bool, true, false, ◌&&◌, Option, none, some, List, str_eq}
use expensor.Prelude.Text.{append}
use expensor.Prelude.Tables.{change_where, delete_where, first_where, upsert_where}
use expensor.Errors.{Err}
use expensor.Result.{Result, ok, ◌>>=◌}
use expensor.Scanning.{exec}
use expensor.Runtime.{Bytes, ProviderRuntime}
use expensor.Runtime.SecretBox.{Aead, SecretAssociatedData, seal_secret, open_secret, wrapped}
use expensor.Runtime.Readers.{require_json, require_box}

abbrev pub is_provider : String → String → ProviderRuntime → Bool
is_provider tenant provider r = str_eq r.tenant_id tenant && str_eq r.provider provider

abbrev pub is_active_of : String → ProviderRuntime → Bool
is_active_of tenant r = str_eq r.tenant_id tenant && r.active

-- `{}`, the column's default.
abbrev empty_config : Bytes
empty_config = 123 ∷ 125 ∷ []

-- The row of an insert that names no other column.
abbrev pub empty_provider : String → String → ProviderRuntime
empty_provider tenant provider = record {
  tenant_id = tenant;
  provider = provider;
  config = some empty_config;
  credentials_ciphertext = none;
  active = false;
}

abbrev pub activated : ProviderRuntime → ProviderRuntime
activated r = record r { active = true }

abbrev pub deactivated : ProviderRuntime → ProviderRuntime
deactivated r = record r { active = false }

-- `llmProviderAssociatedData`.
abbrev pub provider_associated_data : String → String → SecretAssociatedData
provider_associated_data tenant provider = record {
  tenant_id = tenant;
  scope = "llm_provider";
  name = provider;
  kind_of = "credentials";
}

-- The first and the second statement of SetActiveLLMProvider.
unfoldable pub all_deactivated : String → List ProviderRuntime → List ProviderRuntime
unfolding change_where
all_deactivated tenant rows = change_where (is_active_of tenant) deactivated rows

unfoldable pub activate : String → String → List ProviderRuntime → List ProviderRuntime
unfolding upsert_where
activate tenant provider rows =
    upsert_where (is_provider tenant provider) activated
      (activated (empty_provider tenant provider)) rows

-- What GetActiveLLMProviderRuntime returns, but for times.
pub record ActiveProvider : Type 0 where
  pub provider : String
  pub config : Option Bytes
  pub credentials : Option Bytes

-- `quote` is %q, and `valid` is json.Valid.
module _ (quote : String → String) (valid : Bytes → Bool) where
  -- `SetActiveLLMProvider`.
  unfoldable pub set_active_llm_provider :
      (ℕ → Option Err) → String → String → List ProviderRuntime → Result (List ProviderRuntime)
  unfolding append exec all_deactivated activate
  set_active_llm_provider faults tenant provider rows = do
    begun ←
        exec (faults 0) "postgres.runtime.set_active_llm_provider"
          "starting llm provider activation transaction" rows
    cleared ←
        exec (faults 1) "postgres.runtime.set_active_llm_provider" "clearing active llm provider"
          (all_deactivated tenant begun)
    active_rows ←
        exec (faults 2) "postgres.runtime.set_active_llm_provider"
          (append "setting active llm provider " (quote provider))
          (activate tenant provider cleared)
    exec (faults 3) "postgres.runtime.set_active_llm_provider" "committing llm provider activation"
        active_rows

  -- `ClearActiveLLMProvider`.
  unfoldable pub clear_active_llm_provider :
      Option Err → String → List ProviderRuntime → Result (List ProviderRuntime)
  unfolding exec all_deactivated
  clear_active_llm_provider fault tenant rows =
      exec fault "postgres.runtime.clear_active_llm_provider" "clearing active llm provider"
        (all_deactivated tenant rows)

  -- `DeleteLLMProviderRuntime`.
  unfoldable pub delete_llm_provider_runtime :
      Option Err → String → String → List ProviderRuntime → Result (List ProviderRuntime)
  unfolding append exec delete_where
  delete_llm_provider_runtime fault tenant provider rows =
      exec fault "postgres.runtime.delete_llm_provider_runtime"
        (append "deleting llm provider runtime for " (quote provider))
        (delete_where (is_provider tenant provider) rows)

  abbrev with_opened : Option Aead → String → ProviderRuntime → Option Bytes → Result ActiveProvider
  with_opened box tenant r none =
      ok (record { provider = r.provider; config = r.config; credentials = none })
  with_opened box tenant r (some ciphertext) = do
    aead ← require_box quote valid box
    credentials ←
        wrapped "postgres.runtime.get_active_llm_provider_runtime"
          (append "decrypting llm provider " (append (quote r.provider) " credentials"))
          (open_secret (some aead) ciphertext (provider_associated_data tenant r.provider))
    ok (record { provider = r.provider; config = r.config; credentials = some credentials })

  abbrev found_active :
      Option Aead → String → Option ProviderRuntime → Result (Option ActiveProvider)
  found_active box tenant none = ok none
  found_active box tenant (some r) = do
    p ← with_opened box tenant r r.credentials_ciphertext
    ok (some p)

  -- `GetActiveLLMProviderRuntime`.
  unfoldable pub get_active_llm_provider_runtime :
      Option Aead → Option Err → String → List ProviderRuntime → Result (Option ActiveProvider)
  unfolding append exec first_where open_secret
  get_active_llm_provider_runtime box fault tenant rows = do
    row ←
        exec fault "postgres.runtime.get_active_llm_provider_runtime" "getting active llm provider"
          (first_where (is_active_of tenant) rows)
    found_active box tenant row

  abbrev with_credentials : Bytes → ProviderRuntime → ProviderRuntime
  with_credentials ciphertext r = record r { credentials_ciphertext = some ciphertext }

  -- `writeLLMProviderEncryptedJSON`, of `SetLLMProviderCredentials`.
  unfoldable pub write_provider_encrypted_json :
      Option Aead
      → Result Bytes
      → Option Err
      → String
      → String
      → Bytes
      → List ProviderRuntime
      → Result (List ProviderRuntime)
  unfolding append seal_secret exec upsert_where
  write_provider_encrypted_json box random fault tenant provider value rows = do
    json ←
        require_json quote valid
          (append "credentials for llm provider " (append (quote provider) " must be valid JSON"))
          value
    aead ← require_box quote valid box
    ciphertext ←
        wrapped "postgres.runtime.write_llm_provider_encrypted_json"
          (append "encrypting llm provider " (append (quote provider) " credentials"))
          (seal_secret (some aead) random json (provider_associated_data tenant provider))
    exec fault "postgres.runtime.write_llm_provider_encrypted_json"
        (append "setting credentials for llm provider " (quote provider))
        (upsert_where (is_provider tenant provider) (with_credentials ciphertext)
          (with_credentials ciphertext (empty_provider tenant provider)) rows)

  abbrev with_config : Bytes → ProviderRuntime → ProviderRuntime
  with_config value r = record r { config = some value }

  -- `writeLLMProviderConfigJSON`, of `SetLLMProviderConfig`.
  unfoldable pub write_provider_config_json :
      Option Err → String → String → Bytes → List ProviderRuntime → Result (List ProviderRuntime)
  unfolding append exec upsert_where
  write_provider_config_json fault tenant provider value rows = do
    json ←
        require_json quote valid
          (append "config for llm provider " (append (quote provider) " must be valid JSON")) value
    exec fault "postgres.runtime.write_llm_provider_config_json"
        (append "setting config for llm provider " (quote provider))
        (upsert_where (is_provider tenant provider) (with_config json)
          (with_config json (empty_provider tenant provider)) rows)
