-- ===== src/Thunderbird.antt =====
-- The scan of one mailbox by backend/pkg/reader/thunderbird/thunderbird.go, and the processed
-- messages of backend/internal/state/state.go that it consults. Telemetry and diagnostics are left
-- out. Times are nanoseconds.
pub mod Origin
pub mod Once
pub mod Samples
use expensor.Prelude.{
  ℕ, ◌+◌, String, Bool, true, false, ◌||◌, Option, none, some, List, [], ◌∷◌, ◌++◌, contains, ltb,
  if◌then◌else◌,
}
use expensor.Prelude.Text.{append, is_blank}
use expensor.ErrorKind
use expensor.Errors.{Err}
use expensor.Errors.Build.{e, kind, text, error}
use expensor.Result.{Result, ok, fail}
use expensor.Rules
use expensor.Rules.{Rule, matches_email}

-- A parsed message; From and Subject after the decoding of RFC 2047.
pub record Message : Type 0 where
  pub message_id : String
  pub date : String
  pub from_header : String
  pub subject : String
  pub body : String

-- A transaction with the id by which the sink acknowledges it.
pub record Transaction (T : Type 0) : Type 0 where
  pub details : T
  pub message_id : String

-- What the reader calls: the hexadecimal SHA-256 of a text, `mail.ParseDate`, and what
-- `extractTransaction` makes of a message by a rule.
pub record Libs (R T : Type 0) : Type 0 where
  pub rules : Rules.Libs R
  pub hash : String → String
  pub parse_date : String → Option ℕ
  pub extract : Message → Rule R → Result T

-- The table of processed keys, as one tenant sees it.
abbrev pub Processed : Type 0
Processed = List String

-- `GenerateKey`.
unfoldable pub generate_key : {R T : Type 0} → Libs R T → String → String → String → String
unfolding append
generate_key libs source message_id date = libs.hash (append source (append message_id date))

-- `IsProcessed`: a manager without a store, and a store that fails, hold the message to be new.
unfoldable pub is_processed : Option Processed → Option Err → String → Bool
unfolding contains
is_processed none fault key = false
is_processed (some processed) (some err) key = false
is_processed (some processed) none key = contains key processed

-- `MarkProcessed`.
unfoldable pub mark_processed : Option Processed → Option Err → String → Result Processed
mark_processed none fault key =
    fail (e (kind ErrorKind.failed_precondition ∷ text "processed message state store is nil" ∷ []))
mark_processed (some processed) (some err) key =
    fail (e (text "state.mark_processed" ∷ text "marking message processed in DB" ∷ error err ∷ []))
mark_processed (some processed) none key = ok (key ∷ processed)

-- The fields of the reader that a scan reads. `state` is `none` for a nil manager, and holds `none`
-- for a manager without a store.
pub record Reader (R : Type 0) : Type 0 where
  pub rules : List (Rule R)
  pub state : Option (Option Processed)
  pub last_scan_at : Option ℕ
  pub force_full_scan : Bool

abbrev pub hour : ℕ
hour = 3600000000000

-- `t.Before(lastScanAt.Add(-time.Hour))`; a date that does not parse is not before.
abbrev pub is_hour_before : Option ℕ → ℕ → Bool
is_hour_before none last = false
is_hour_before (some t) last = ltb (t + hour) last

abbrev pub before_last : Option ℕ → Option ℕ → Bool
before_last none date = false
before_last (some last) date = is_hour_before date last

-- `isBeforeCheckpoint`.
unfoldable pub is_before_checkpoint : {R T : Type 0} → Libs R T → Reader R → String → Bool
is_before_checkpoint libs r date =
    if r.force_full_scan || is_blank date
    then false
    else before_last r.last_scan_at (libs.parse_date date)

-- `saveCheckpoint`.
unfoldable pub save_checkpoint : {R : Type 0} → ℕ → Reader R → Reader R
save_checkpoint now r = record r { last_scan_at = some now; force_full_scan = false }

-- `matchesRule`: the first rule that matches.
unfoldable pub matches_rule : {R T : Type 0} → Libs R T → List (Rule R) → Message → Option (Rule R)
unfolding matches_email
matches_rule libs [] msg = none
matches_rule libs (rule ∷ rules) msg =
    let rest = matches_rule libs rules msg in
    if matches_email libs.rules rule msg.from_header msg.subject then some rule else rest

abbrev pub known : Option (Option Processed) → Option Err → String → Bool
known none fault key = false
known (some manager) fault key = is_processed manager fault key

abbrev pub extracted {ℓ} : {T : Type ℓ} → Result T → Option T
extracted (ok t) = some t
extracted (fail err) = none

abbrev pub with_key : {T : Type 0} → String → Option T → Option (Transaction T)
with_key key none = none
with_key key (some t) = some (record { details = t; message_id = key })

abbrev pub by_rule :
    {R T : Type 0} → Libs R T → String → Message → Option (Rule R) → Option (Transaction T)
by_rule libs key msg none = none
by_rule libs key msg (some rule) = with_key key (extracted (libs.extract msg rule))

-- `processMessage` up to the send: the transaction to be sent, if the message is not skipped.
-- `fault` is the store's error when it is asked for the key.
unfoldable pub process_message :
    {R T : Type 0} → Libs R T → Reader R → String → Option Err → Message → Option (Transaction T)
unfolding generate_key is_processed is_before_checkpoint matches_rule
process_message libs r path fault msg =
    let key = generate_key libs path msg.message_id msg.date in
    if known r.state fault key || is_before_checkpoint libs r msg.date
    then none
    else by_rule libs key msg (matches_rule libs r.rules msg)

-- One turn of the loop of `scanMailbox`: the context is found done, a message cannot be read or
-- parsed, or there is a message, with the store's error and, if the context is done before the
-- send, the context's.
pub data Turn : Type 0 where
  context_done : Err → Turn
  unreadable : Turn
  message : Option Err → Option Err → Message → Turn

-- The transactions that were sent, and the error that the scan returned.
abbrev pub Scan : Type 0 → Type 0
Scan T = List (Transaction T) × Option Err

abbrev pub send {ℓ} :
    {T : Type ℓ} → Option T → Option Err → List T × Option Err → List T × Option Err
send none canceled rest = rest
send (some t) (some err) rest = ([], some err)
send (some t) none (sent, err) = (t ∷ sent, err)

-- `scanMailbox` of an opened mailbox, over the turns up to the end of the file. The processed keys stay
-- as they are while it runs; the acknowledgements that arrive meanwhile are seen by the next scan.
unfoldable pub scan_mailbox : {R T : Type 0} → Libs R T → Reader R → String → List Turn → Scan T
unfolding process_message
scan_mailbox libs r path [] = ([], none)
scan_mailbox libs r path (context_done err ∷ turns) = ([], some err)
scan_mailbox libs r path (unreadable ∷ turns) = scan_mailbox libs r path turns
scan_mailbox libs r path (message fault canceled msg ∷ turns) =
    send (process_message libs r path fault msg) canceled (scan_mailbox libs r path turns)

abbrev pub or_old {ℓ} : {A : Type ℓ} → A → Result A → A
or_old old (ok new) = new
or_old old (fail err) = old

-- `handleAcknowledgments` with a store, over the keys and the store's errors: a failure is logged.
unfoldable pub handle_acknowledgments : List (String × Option Err) → Processed → Processed
unfolding mark_processed
handle_acknowledgments [] processed = processed
handle_acknowledgments ((key, fault) ∷ acks) processed =
    handle_acknowledgments acks (or_old processed (mark_processed (some processed) fault key))
