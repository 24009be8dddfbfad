-- ===== src/Thunderbird/Samples.antt =====
-- A mailbox that is scanned twice.
use expensor.Prelude.{
  String, ◌≡◌, refl, true, false, Option, none, some, List, [], ◌∷◌, All, contains, str_eq,
}
use expensor.Errors.{Err}
use expensor.Result.{ok}
use expensor.Rules.{Rule, no_source}
use expensor.Thunderbird.{
  Libs, Message, Transaction, Reader, Turn, unreadable, message, generate_key, scan_mailbox,
  handle_acknowledgments, is_before_checkpoint, save_checkpoint,
}
use expensor.Thunderbird.Origin.{SentFrom, scan_mailbox-SentFrom}
use expensor.Thunderbird.Once.{is_marked, scan_mailbox-once}

-- A date is read as one of two times, a key is its own hash, and a transaction is the body.
abbrev libs : Libs String String
libs = record {
  rules = record {
    to_lower = λ c. c;
    equal_fold = str_eq;
    parse_address = λ s. none;
    quote = λ s. s;
    compile = λ s. ok s;
    pattern = λ s. s;
  };
  hash = λ s. s;
  parse_date = λ s. some 5;
  extract = λ msg rule. ok msg.body;
}

abbrev rule : Rule String
rule = record {
  id = "";
  name = "HDFC";
  sender_email = "";
  sender_emails = "alerts@bank.in" ∷ [];
  subject_contains = "spent";
  amount = none;
  merchant_info = none;
  currency = none;
  source = no_source;
}

abbrev reader : Reader String
reader = record {
  rules = rule ∷ [];
  state = some (some []);
  last_scan_at = none;
  force_full_scan = false;
}

abbrev mail : Message
mail = record {
  message_id = "1";
  date = "today";
  from_header = "alerts@bank.in";
  subject = "Rs 5 spent";
  body = "5";
}

abbrev second_mail : Message
second_mail = record mail { message_id = "2"; body = "7" }

abbrev turns : List Turn
turns =
    unreadable
    ∷ message none none mail
    ∷ message none none (record mail { subject = "" })
    ∷ message none none second_mail
    ∷ []

abbrev sent : Transaction String
sent = record { details = "5"; message_id = "inbox1today" }

abbrev second_sent : Transaction String
second_sent = record { details = "7"; message_id = "inbox2today" }

first_scan : scan_mailbox libs reader "inbox" turns ≡ (sent ∷ second_sent ∷ [], none)
unfolding scan_mailbox
first_scan = refl

abbrev acks : List (String × Option Err)
acks = ("inbox1today", none) ∷ []

abbrev later : Reader String
later = record reader { state = some (some ("inbox1today" ∷ [])) }

marked : later.state ≡ some (some (handle_acknowledgments acks []))
unfolding handle_acknowledgments
marked = refl

second_scan : scan_mailbox libs later "inbox" turns ≡ (second_sent ∷ [], none)
unfolding scan_mailbox
second_scan = refl

-- The parts of a key are not told apart.
same_key : generate_key libs "in" "box1" "today" ≡ generate_key libs "inbox" "1" "today"
unfolding generate_key
same_key = refl

old_mail : is_before_checkpoint libs (save_checkpoint 3600000000006 reader) "today" ≡ true
unfolding is_before_checkpoint save_checkpoint
old_mail = refl

scan_mailbox-SentFrom_example :
    All (SentFrom libs reader "inbox" turns) (scan_mailbox libs reader "inbox" turns).0
scan_mailbox-SentFrom_example = scan_mailbox-SentFrom libs reader "inbox" turns

scan_mailbox-once_example :
    All
      (λ t. (is_marked t.message_id acks ≡ false) × (contains t.message_id [] ≡ false))
      (scan_mailbox libs later "inbox" turns).0
scan_mailbox-once_example =
    scan_mailbox-once libs later "inbox" turns acks [] marked (refl, (refl, (refl, tt)))
