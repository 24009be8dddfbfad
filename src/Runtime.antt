-- ===== src/Runtime.antt =====
-- Runtime state of a tenant: backend/internal/store/postgres/runtime_repository.go, and the secret box of
-- backend/internal/auth/crypto.go that encrypts its secrets. A byte sequence is a list of numbers.
pub mod SecretBox
pub mod Readers
pub mod Providers
pub mod Messages
pub mod Keyed
pub mod Secrets
pub mod Active
mod Samples
use expensor.Prelude.{ℕ, Bool, String, List, Option}

abbrev pub Bytes : Type 0
Bytes = List ℕ

-- A row of reader_runtime. The columns of the secrets in clear text, which only older versions wrote,
-- are left out.
pub record ReaderRuntime : Type 0 where
  pub tenant_id : String
  pub reader : String
  pub client_secret_ciphertext : Option Bytes
  pub oauth_token_ciphertext : Option Bytes
  pub config : Option Bytes

-- A row of llm_provider_runtime.
pub record ProviderRuntime : Type 0 where
  pub tenant_id : String
  pub provider : String
  pub config : Option Bytes
  pub credentials_ciphertext : Option Bytes
  pub active : Bool

pub record ProcessedMessage : Type 0 where
  pub tenant_id : String
  pub message_key : String
  pub processed_at : ℕ

-- A row of app_config; `none` for the tenant of a global one.
pub record AppConfig : Type 0 where
  pub tenant_id : Option String
  pub key : String
  pub value : String
