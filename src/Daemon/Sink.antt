-- ===== src/Daemon/Sink.antt =====
-- backend/internal/daemon/transaction_sink.go: transactions are collected into batches, written, and
-- acknowledged by their message ids. The select loop is a function of the events that it meets;
-- each event carries what a flush behind it would meet. Of a transaction the sink reads the message
-- id alone, so the type of transactions is a parameter.
use expensor.Prelude.{
  ℕ, zero, suc, String, Bool, true, false, Option, none, some, List, [], ◌∷◌, ◌++◌, length, leb,
  if◌then◌else◌,
}
use expensor.Prelude.Int.{ℤ, positive}
use expensor.Prelude.Text.{is_blank}
use expensor.ErrorKind
use expensor.Errors.{Err}
use expensor.Errors.Build.{e, text, kind}
use expensor.Result.{Result, ok, fail, ◌>>=◌}

pub record SinkConfig : Type 0 where
  pub batch_size : ℕ
  pub flush_interval : ℕ

abbrev pub require_setting : Option ℕ → String → Result ℕ
require_setting none message =
    fail (e (text "daemon.transaction_sink.new" ∷ kind ErrorKind.invalid_input ∷ text message ∷ []))
require_setting (some n) message = ok n

abbrev require_writer : Bool → Result (Unit {0})
require_writer true = ok tt
require_writer false = fail (
    e (
      text "daemon.transaction_sink.new"
      ∷ kind ErrorKind.failed_precondition
      ∷ text "transaction batch writer is required"
      ∷ []))

-- `newTransactionSink`.
unfoldable pub new_transaction_sink : Bool → ℤ → ℤ → Result SinkConfig
new_transaction_sink has_writer batch_size flush_interval = do
  _ ← require_writer has_writer
  n ← require_setting (positive batch_size) "transaction batch size must be positive"
  t ← require_setting (positive flush_interval) "transaction flush interval must be positive"
  ok (record { batch_size = n; flush_interval = t })

-- What a flush meets: the writer's answer, and how many acknowledgements are taken before the
-- context is done (`none`: all of them), with the context's error.
pub record Flush : Type 0 where
  pub write_fault : Option Err
  pub taken : Option ℕ
  pub context_error : Err

pub data Event (T : Type 0) : Type 0 where
  context_done : Flush → Event T
  received : T → Flush → Event T
  input_closed : Flush → Event T
  tick : Flush → Event T

-- The batch in hand, the batches written and the ids acknowledged so far, oldest first.
pub record Sink (T : Type 0) : Type 0 where
  pub batch : List T
  pub written : List T
  pub acks : List String

abbrev pub new_sink : {T : Type 0} → Sink T
new_sink = record { batch = []; written = []; acks = [] }

pub data Outcome : Type 0 where
  goes_on : Outcome
  returned : Option Err → Outcome

module _ {T : Type 0} (message_id : T → String) where
  -- The ids that are acknowledged for a batch: a transaction without one is passed over.
  unfoldable pub ids : List T → List String
  ids [] = []
  ids (t ∷ ts) = let rest = ids ts in if is_blank (message_id t) then rest else message_id t ∷ rest

  -- The loop over the acknowledgements; `false` says that the context ended it.
  unfoldable pub send_acks : Option ℕ → List String → List String × Bool
  send_acks none ks = (ks, true)
  send_acks (some n) [] = ([], true)
  send_acks (some zero) (k ∷ ks) = ([], false)
  send_acks (some (suc n)) (k ∷ ks) = let (sent, done) = send_acks (some n) ks in (k ∷ sent, done)

  abbrev pub acknowledged : Flush → Sink T → List String × Bool → Sink T × Option Err
  acknowledged f s (sent, true) =
      (record s { batch = []; written = s.written ++ s.batch; acks = s.acks ++ sent }, none)
  acknowledged f s (sent, false) =
      (record s { written = s.written ++ s.batch; acks = s.acks ++ sent }, some f.context_error)

  abbrev pub write_batch : Option Err → Flush → Sink T → Sink T × Option Err
  write_batch (some err) f s = (s, some err)
  write_batch none f s = acknowledged f s (send_acks f.taken (ids s.batch))

  abbrev pub flush_unless_empty : List T → Flush → Sink T → Sink T × Option Err
  flush_unless_empty [] f s = (s, none)
  flush_unless_empty (t ∷ ts) f s = write_batch f.write_fault f s

  -- `flushBatch`.
  unfoldable pub flush_batch : Flush → Sink T → Sink T × Option Err
  unfolding ids send_acks
  flush_batch f s = flush_unless_empty s.batch f s

  abbrev pub go_on_unless : Sink T × Option Err → Sink T × Outcome
  go_on_unless (s, none) = (s, goes_on)
  go_on_unless (s, some err) = (s, returned (some err))

  -- One round of the select loop of `Write`.
  unfoldable pub on_event : ℕ → Sink T → Event T → Sink T × Outcome
  unfolding flush_batch
  on_event size s (context_done f) = ((flush_batch f s).0, returned (some f.context_error))
  on_event size s (input_closed f) = let (s', err) = flush_batch f s in (s', returned err)
  on_event size s (tick f) = go_on_unless (flush_batch f s)
  on_event size s (received t f) =
      let s' : Sink T = record s { batch = s.batch ++ t ∷ [] } in
      if leb size (length s'.batch) then go_on_unless (flush_batch f s') else (s', goes_on)

  -- `Write` over the events up to its return.
  unfoldable pub write : ℕ → Sink T → List (Event T) → Sink T × Outcome
  unfolding on_event
  write size s [] = (s, goes_on)
  write size s (ev ∷ evs) =
      let (s', outcome) = on_event size s ev in
      elim outcome [ goes_on ↦ write size s' evs | returned err ↦ (s', returned err) ]
