-- ===== src/Thunderbird/Once.antt =====
-- handleAcknowledgments and the next scan of backend/pkg/reader/thunderbird/thunderbird.go: a message
-- whose transaction was acknowledged is not sent again.
use expensor.Prelude.{
  String, ◌≡◌, refl, Bool, false, ◌||◌, Option, none, some, List, [], ◌∷◌, arith, All, contains,
  str_eq, inl, inr,
}
use mathlib.Core.Path.{subst}
use expensor.Errors.{Err}
use expensor.Thunderbird.{
  Libs, Transaction, Processed, Reader, Turn, context_done, unreadable, message, scan_mailbox,
  handle_acknowledgments,
}
use expensor.Thunderbird.Origin.{SentFrom, IsNew, IsNotHeld, All-map, scan_mailbox-SentFrom}

-- The key was acknowledged, and the store took the mark.
unfoldable pub is_marked : String → List (String × Option Err) → Bool
is_marked k [] = false
is_marked k ((key, none) ∷ acks) = str_eq key k || is_marked k acks
is_marked k ((key, some err) ∷ acks) = is_marked k acks

handle_acknowledgments-contains :
    (k : String) (acks : List (String × Option Err)) (processed : Processed)
    → contains k (handle_acknowledgments acks processed)
      ≡ (is_marked k acks || contains k processed)
unfolding handle_acknowledgments is_marked contains
handle_acknowledgments-contains k [] processed = refl
handle_acknowledgments-contains k ((key, none) ∷ acks) processed =
    ground (arith, handle_acknowledgments-contains k acks (key ∷ processed))
handle_acknowledgments-contains k ((key, some err) ∷ acks) processed =
    handle_acknowledgments-contains k acks processed

-- The store answers whenever it is asked for a key.
abbrev pub Answers : List Turn → Type 0
Answers [] = Unit
Answers (context_done err ∷ turns) = Unit
Answers (unreadable ∷ turns) = Answers turns
Answers (message fault canceled msg ∷ turns) = (fault ≡ none) × Answers turns

SentFrom-new :
    {R T : Type 0} (libs : Libs R T) (r : Reader R) (path : String) (turns : List Turn)
    (t : Transaction T) (processed : Processed)
    → r.state ≡ some (some processed)
    → Answers turns
    → SentFrom libs r path turns t
    → contains t.message_id processed ≡ false
SentFrom-new libs r path [] t processed st answers h = elim h [ ]
SentFrom-new libs r path (context_done err ∷ turns) t processed st answers h = elim h [ ]
SentFrom-new libs r path (unreadable ∷ turns) t processed st answers h =
    SentFrom-new libs r path turns t processed st answers h
SentFrom-new libs r path (message fault canceled msg ∷ turns) t processed st answers (inl h) =
    subst (λ s. IsNotHeld s t.message_id) st
      (subst (λ f. IsNew r.state f t.message_id) answers.0 h.1)
SentFrom-new libs r path (message fault canceled msg ∷ turns) t processed st answers (inr h) =
    SentFrom-new libs r path turns t processed st answers.1 h

-- A scan whose reader's store answers, after the store has taken the acknowledgements of earlier
-- scans, sends no transaction with a key that was acknowledged and marked, and none that was
-- processed before.
pub scan_mailbox-once :
    {R T : Type 0} (libs : Libs R T) (r : Reader R) (path : String) (turns : List Turn)
    (acks : List (String × Option Err)) (processed : Processed)
    → r.state ≡ some (some (handle_acknowledgments acks processed))
    → Answers turns
    → All
        (λ t. (is_marked t.message_id acks ≡ false) × (contains t.message_id processed ≡ false))
        (scan_mailbox libs r path turns).0
scan_mailbox-once libs r path turns acks processed st answers =
    All-map
      (λ t h. ground (
        arith,
        handle_acknowledgments-contains t.message_id acks processed,
        SentFrom-new libs r path turns t (handle_acknowledgments acks processed) st answers h,
      ))
      (scan_mailbox libs r path turns).0 (scan_mailbox-SentFrom libs r path turns)
