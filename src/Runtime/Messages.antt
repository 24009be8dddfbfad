-- ===== src/Runtime/Messages.antt =====
-- The processed messages and the settings of backend/internal/store/postgres/runtime_repository.go.
use expensor.Prelude.{
  ℕ, String, Bool, true, false, ◌&&◌, Option, none, some, List, [], ◌∷◌, str_eq, if◌then◌else◌,
}
use expensor.Prelude.Text.{append, is_blank, trim_space}
use expensor.Prelude.Tables.{exists_where, first_where, upsert_where}
use expensor.ErrorKind
use expensor.Errors.{Err}
use expensor.Errors.Build.{e, kind, text, error}
use expensor.Result.{Result, ok, fail, ◌>>=◌}
use expensor.Scanning.{exec}
use expensor.Runtime.{ProcessedMessage, AppConfig}

abbrev pub is_message : String → String → ProcessedMessage → Bool
is_message tenant key m = str_eq m.tenant_id tenant && str_eq m.message_key key

-- `quote` is %q.
module _ (quote : String → String) where
  -- `IsMessageProcessed`.
  unfoldable pub is_message_processed :
      Option Err → String → String → List ProcessedMessage → Result Bool
  unfolding append trim_space exec exists_where
  is_message_processed fault tenant key rows =
      if is_blank (trim_space key)
      then ok false
      else exec fault "postgres.runtime.is_message_processed"
          (append "checking processed message " (quote key))
          (exists_where (is_message tenant key) rows)

  abbrev at : ℕ → ProcessedMessage → ProcessedMessage
  at time m = record m { processed_at = time }

  -- `MarkMessageProcessed`.
  unfoldable pub mark_message_processed :
      Option Err → String → String → ℕ → List ProcessedMessage → Result (List ProcessedMessage)
  unfolding append trim_space exec upsert_where
  mark_message_processed fault tenant key time rows =
      if is_blank (trim_space key)
      then fail (e (kind ErrorKind.invalid_input ∷ text "message key cannot be blank" ∷ []))
      else exec fault "postgres.runtime.mark_message_processed"
          (append "marking processed message " (quote key))
          (upsert_where (is_message tenant key) (at time)
            (record { tenant_id = tenant; message_key = key; processed_at = time }) rows)

abbrev same_tenant : Option String → Option String → Bool
same_tenant none none = true
same_tenant none (some t) = false
same_tenant (some t) none = false
same_tenant (some t) (some u) = str_eq u t

-- A setting of a tenant, or a global one.
abbrev pub is_setting : Option String → String → AppConfig → Bool
is_setting tenant key c = same_tenant tenant c.tenant_id && str_eq c.key key

abbrev value_of : Option AppConfig → Option String
value_of none = none
value_of (some c) = some c.value

abbrev set_to : String → AppConfig → AppConfig
set_to value c = record c { value = value }

abbrev pub found_value : Err → Option String → Result String
found_value err none = fail err
found_value err (some v) = ok v

module _ (quote : String → String) (no_rows : Err) where
  abbrev setting_missing : String → String → Err
  setting_missing op message = e (text op ∷ text message ∷ error no_rows ∷ [])

  abbrev read_at :
      String → String → Option Err → Option String → String → List AppConfig → Result String
  read_at op message fault tenant key rows = do
    row ← exec fault op message (first_where (is_setting tenant key) rows)
    found_value (setting_missing op message) (value_of row)

  -- `GetAppConfig`.
  unfoldable pub get_app_config : Option Err → String → String → List AppConfig → Result String
  unfolding append exec first_where
  get_app_config fault tenant key rows =
      read_at "postgres.runtime.get_app_config" (append "getting app config " (quote key)) fault
        (some tenant) key rows

  -- `readGlobalAppConfig`.
  unfoldable pub read_global_app_config : Option Err → String → List AppConfig → Result String
  unfolding append exec first_where
  read_global_app_config fault key rows =
      read_at "postgres.runtime.read_global_app_config"
        (append "getting global app config " (quote key)) fault none key rows

  abbrev stored : Option String → String → String → List AppConfig → List AppConfig
  stored tenant key value rows =
      upsert_where (is_setting tenant key) (set_to value)
        (record { tenant_id = tenant; key = key; value = value }) rows

  -- `SetAppConfig`.
  unfoldable pub set_app_config :
      Option Err → String → String → String → List AppConfig → Result (List AppConfig)
  unfolding append exec upsert_where
  set_app_config fault tenant key value rows =
      exec fault "postgres.runtime.set_app_config" (append "setting app config " (quote key))
        (stored (some tenant) key value rows)

  -- `writeGlobalAppConfig`.
  unfoldable pub write_global_app_config :
      Option Err → String → String → List AppConfig → Result (List AppConfig)
  unfolding append exec upsert_where
  write_global_app_config fault key value rows =
      exec fault "postgres.runtime.write_global_app_config"
        (append "setting global app config " (quote key)) (stored none key value rows)
