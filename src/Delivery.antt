-- ===== src/Delivery.antt =====
-- internal/delivery/hub.go: how `send` tries a message on its outlet, and what it records. The outlet
-- is its replies, one for each attempt; an error is what `errors.As` finds in it.
pub mod Attempts
pub mod Claimed
pub mod Hub
pub mod Posting
pub mod Bound
mod Tests
use gopherharness.Base.{
  ℕ, zero, suc, ◌+◌, String, Bool, true, false, not, ◌&&◌, ◌||◌, Option, none, some, is_empty,
  if◌then◌else◌,
}
use gopherharness.Durable.{Disk, Fault}
use gopherharness.Journal.{
  Owner, State, Error as JournalError, mutate, message_id, move as move_entry,
}
use gopherharness.Scheduler.{Source, Identity}

pub record Message : Type 0 where
  pub id : String
  pub source : Source
  pub text : String
  pub identity : Identity

pub record Receipt : Type 0 where
  pub message : String

pub record SendError : Type 0 where
  pub terminal : Bool
  pub rejected : Bool
  pub uncertain : Bool

pub data Reply : Type 0 where
  sent : Receipt → Reply
  failed : SendError → Reply

pub record Record : Type 0 where
  pub message : Message
  pub receipt : Receipt
  pub outcome : String
  pub attempts : ℕ

-- What one turn of the loop comes to.
pub data Turn : Type 0 where
  stop again : Record → Turn

abbrev pub fresh : Message → Record
fresh m = record {
  message = m;
  receipt = record { message = "" };
  outcome = "dropped";
  attempts = 0;
}

abbrev pub counted : Record → Record
counted r = record r { attempts = r.attempts + 1 }

abbrev pub unknown : Record → Record
unknown r = record r { outcome = "unknown" }

abbrev pub delivered : Receipt → Record → Record
delivered p r = record r { receipt = p; outcome = "delivered" }

-- `guardedSend` turns a panic into an uncertain error, and a missing receipt is an error of no kind.
abbrev plain : SendError
plain = record { terminal = false; rejected = false; uncertain = false }

unfoldable pub failure : SendError → Bool → Bool → Bool → Record → Turn
failure e idempotent stopped last r =
    if e.uncertain
    then stop (unknown r)
    else (if not e.terminal && not e.rejected && (not idempotent || is_empty r.message.id)
        then stop (unknown r)
        else (if e.terminal || stopped || last
            then stop (if e.terminal then r else unknown r)
            else again r))

unfoldable pub attempt : Reply → Bool → Bool → Bool → Record → Turn
attempt (sent p) idempotent stopped last r =
    if is_empty p.message
    then failure plain idempotent stopped last (counted r)
    else stop (delivered p (counted r))
attempt (failed e) idempotent stopped last r = failure e idempotent stopped last (counted r)

-- How the outlet and the hub's context behave: the replies, whether the context is over behind each
-- attempt, and whether it ends a wait for the next.
pub record World : Type 0 where
  pub idempotent : Bool
  pub replies : ℕ → Reply
  pub over : ℕ → Bool
  pub ends_wait : ℕ → Bool

-- The loop, with the retries that are left behind the attempt with this number.
abbrev pub record_of : Turn → Record
record_of (stop r) = r
record_of (again r) = r

abbrev pub next_turn : Turn → Bool → Record → Record
next_turn (stop r) ended rest = r
next_turn (again r) ended rest = if ended then unknown r else rest

unfoldable pub tries : ℕ → World → ℕ → Record → Record
tries zero w n r = record_of (attempt (w.replies n) w.idempotent (w.over n) true r)
tries (suc left) w n r =
    let turn = attempt (w.replies n) w.idempotent (w.over n) false r in
    let rest = tries left w (n + 1) (record_of turn) in next_turn turn (w.ends_wait n) rest

-- `send` with a journal, for a message with an id: the claim, the loop, and the outcome. It gives the
-- record that the sink is shown, and the journal's file.
abbrev pub journal_error : Record → Record
journal_error r = record r { outcome = "journal_error" }

abbrev pub recorded : Option (Fault JournalError) → Record → Record
recorded none r = r
recorded (some e) r = journal_error r

pub record Sent : Type 0 where
  pub shown : Record
  pub tried : ℕ
  pub file : Option State

abbrev pub finish_send : Owner → Disk → ℕ → Message → Record → Option State → Sent
finish_send o d now m r file =
    let c =
      mutate o
        (move_entry "outbox" m.id "sending" r.outcome (some (message_id r.receipt.message)) now) d
        file in
    record { shown = recorded c.failure r; tried = r.attempts; file = c.file }

abbrev pub claimed_send :
    Option (Fault JournalError) → ℕ → World → Owner → Disk → ℕ → Message → Option State → Sent
claimed_send (some e) retries w o d now m file = record {
  shown = journal_error (fresh m);
  tried = 0;
  file = file;
}
claimed_send none retries w o d now m file =
    finish_send o d now m (tries retries w 0 (fresh m)) file

unfoldable pub send : ℕ → World → Owner → Disk → Disk → ℕ → ℕ → Message → Option State → Sent
send retries w o d1 d2 now1 now2 m file =
    let c = mutate o (move_entry "outbox" m.id "pending" "sending" none now1) d1 file in
    claimed_send c.failure retries w o d2 now2 m c.file

-- Without a journal, or for a message without an id, the loop is all there is.
abbrev pub untracked : ℕ → World → Message → Option State → Sent
untracked retries w m file =
    let r = tries retries w 0 (fresh m) in record { shown = r; tried = r.attempts; file = file }

unfoldable pub deliver :
    ℕ → World → Option Owner → Disk → Disk → ℕ → ℕ → Message → Option State → Sent
deliver retries w none d1 d2 now1 now2 m file = untracked retries w m file
deliver retries w (some o) d1 d2 now1 now2 m file =
    if is_empty m.id then untracked retries w m file else send retries w o d1 d2 now1 now2 m file
