-- ===== src/Runtime/Readers.antt =====
-- The readers' secrets, tokens and configurations in
-- backend/internal/store/postgres/runtime_repository.go.
use expensor.Prelude.{String, Bool, ◌&&◌, Option, none, some, List, [], ◌∷◌, str_eq, if◌then◌else◌}
use expensor.Prelude.Text.{append}
use expensor.Prelude.Tables.{change_where, delete_where, first_where, upsert_where}
use expensor.ErrorKind
use expensor.Errors.{Err}
use expensor.Errors.Build.{e, kind, text}
use expensor.Result.{Result, ok, fail, ◌>>=◌}
use expensor.Scanning.{exec}
use expensor.Runtime.{Bytes, ReaderRuntime}
use expensor.Runtime.SecretBox.{Aead, SecretAssociatedData, seal_secret, open_secret, wrapped}

-- The columns that hold secrets.
pub data Column : Type 0 where
  client_secret oauth_token : Column

abbrev pub column_name : Column → String
column_name client_secret = "client_secret"
column_name oauth_token = "oauth_token"

abbrev pub is_reader : String → String → ReaderRuntime → Bool
is_reader tenant reader r = str_eq r.tenant_id tenant && str_eq r.reader reader

abbrev pub ciphertext_of : Column → ReaderRuntime → Option Bytes
ciphertext_of client_secret r = r.client_secret_ciphertext
ciphertext_of oauth_token r = r.oauth_token_ciphertext

abbrev pub with_ciphertext : Column → Option Bytes → ReaderRuntime → ReaderRuntime
with_ciphertext client_secret bs r = record r { client_secret_ciphertext = bs }
with_ciphertext oauth_token bs r = record r { oauth_token_ciphertext = bs }

abbrev pub empty_reader : String → String → ReaderRuntime
empty_reader tenant reader = record {
  tenant_id = tenant;
  reader = reader;
  client_secret_ciphertext = none;
  oauth_token_ciphertext = none;
  config = none;
}

abbrev pub associated_data : String → String → Column → SecretAssociatedData
associated_data tenant reader c = record {
  tenant_id = tenant;
  scope = "reader";
  name = reader;
  kind_of = column_name c;
}

abbrev pub no_secret_box : Err
no_secret_box =
    e (kind ErrorKind.failed_precondition ∷ text "store secret box is not initialized" ∷ [])

-- The column of the row of this reader, if there is one and it is not NULL.
abbrev pub column_of : Column → Option ReaderRuntime → Option Bytes
column_of c none = none
column_of c (some r) = ciphertext_of c r

-- `quote` is %q, and `valid` is json.Valid.
module _ (quote : String → String) (valid : Bytes → Bool) where
  abbrev for_reader : String → Column → String → String
  for_reader verb c reader =
      append verb (append (column_name c) (append " for reader " (quote reader)))

  abbrev pub require_json : String → Bytes → Result Bytes
  require_json message value =
      if valid value then ok value else fail (e (kind ErrorKind.invalid_input ∷ text message ∷ []))

  abbrev pub require_box : Option Aead → Result Aead
  require_box none = fail no_secret_box
  require_box (some aead) = ok aead

  -- `writeReaderEncryptedJSON`, of `SetReaderSecret` and `SetReaderToken`.
  unfoldable pub write_reader_encrypted_json :
      Option Aead
      → Result Bytes
      → Option Err
      → String
      → String
      → Column
      → Bytes
      → List ReaderRuntime
      → Result (List ReaderRuntime)
  unfolding append seal_secret exec upsert_where
  write_reader_encrypted_json box random fault tenant reader c value rows = do
    json ← require_json (append (for_reader "" c reader) " must be valid JSON") value
    aead ← require_box box
    ciphertext ←
        wrapped "postgres.runtime.write_reader_encrypted_json" (for_reader "encrypting " c reader)
          (seal_secret (some aead) random json (associated_data tenant reader c))
    exec fault "postgres.runtime.write_reader_encrypted_json" (for_reader "setting " c reader) (
        upsert_where (is_reader tenant reader) (with_ciphertext c (some ciphertext))
          (with_ciphertext c (some ciphertext) (empty_reader tenant reader)) rows)

  abbrev opened : Aead → String → String → Column → Option Bytes → Result (Option Bytes)
  opened aead tenant reader c none = ok none
  opened aead tenant reader c (some ciphertext) = do
    plaintext ←
        wrapped "postgres.runtime.read_reader_encrypted_json" (for_reader "decrypting " c reader)
          (open_secret (some aead) ciphertext (associated_data tenant reader c))
    ok (some plaintext)

  -- `readReaderEncryptedJSON`, of `GetReaderSecret` and `GetReaderToken`.
  unfoldable pub read_reader_encrypted_json :
      Option Aead
      → Option Err
      → String
      → String
      → Column
      → List ReaderRuntime
      → Result (Option Bytes)
  unfolding append open_secret exec first_where
  read_reader_encrypted_json box fault tenant reader c rows = do
    aead ← require_box box
    row ←
        exec fault "postgres.runtime.read_reader_encrypted_json" (for_reader "getting " c reader)
          (first_where (is_reader tenant reader) rows)
    opened aead tenant reader c (column_of c row)

  -- `DeleteReaderToken`.
  unfoldable pub delete_reader_token :
      Option Err → String → String → List ReaderRuntime → Result (List ReaderRuntime)
  unfolding append exec change_where
  delete_reader_token fault tenant reader rows =
      exec fault "postgres.runtime.delete_reader_token"
        (append "deleting reader token for " (quote reader))
        (change_where (is_reader tenant reader) (with_ciphertext oauth_token none) rows)

  -- `DeleteReaderRuntime`.
  unfoldable pub delete_reader_runtime :
      Option Err → String → String → List ReaderRuntime → Result (List ReaderRuntime)
  unfolding append exec delete_where
  delete_reader_runtime fault tenant reader rows =
      exec fault "postgres.runtime.delete_reader_runtime"
        (append "deleting reader runtime for " (quote reader))
        (delete_where (is_reader tenant reader) rows)

  abbrev config_for : String → String → String
  config_for verb reader = append verb (append "config for reader " (quote reader))

  abbrev with_config : Bytes → ReaderRuntime → ReaderRuntime
  with_config value r = record r { config = some value }

  -- `writeReaderConfigJSON`, of `SetReaderConfig`.
  unfoldable pub write_reader_config_json :
      Option Err → String → String → Bytes → List ReaderRuntime → Result (List ReaderRuntime)
  unfolding append exec upsert_where
  write_reader_config_json fault tenant reader value rows = do
    json ← require_json (append (config_for "" reader) " must be valid JSON") value
    exec fault "postgres.runtime.write_reader_config_json" (config_for "setting " reader) (
        upsert_where (is_reader tenant reader) (with_config json)
          (with_config json (empty_reader tenant reader)) rows)

  abbrev config_of : Option ReaderRuntime → Option Bytes
  config_of none = none
  config_of (some r) = r.config

  -- `readReaderConfigJSON`, of `GetReaderConfig`.
  unfoldable pub read_reader_config_json :
      Option Err → String → String → List ReaderRuntime → Result (Option Bytes)
  unfolding append exec first_where
  read_reader_config_json fault tenant reader rows = do
    row ←
        exec fault "postgres.runtime.read_reader_config_json" (config_for "getting " reader)
          (first_where (is_reader tenant reader) rows)
    ok (config_of row)
