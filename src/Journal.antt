-- ===== src/Journal.antt =====
-- internal/journal/journal.go: durable inbound requests and outbound results. States, kinds and
-- actions are texts, as in the code; a nil map of entries is an empty one, as `Open` makes it.
pub mod Fence
pub mod Lifecycle
pub mod Changes
pub mod Publish
pub mod Resolve
pub mod Decisions
mod Tests
use Prim.Native.String.{◌++◌ as append}
use gopherharness.Base.{
  ℕ, ◌+◌, ◌%◌, String, str_eq, Bool, true, false, not, ◌&&◌, ◌||◌, Option, none, some, List, [],
  ◌∷◌, ◌++◌, ◌==◌, if◌then◌else◌, is_some, is_empty,
}
use gopherharness.Base.Table.{Table, lookup, insert}
use gopherharness.Base.Text.{blank}
use gopherharness.Durable.{Disk, Verdict, refuse, accept, Fault, Outcome, update, refused}

-- A JSON value that the journal stores: what a caller encoded, or the receipt object of `Resolve`.
pub data Payload : Type 0 where
  raw : String → Payload
  message_id : String → Payload

pub record Resolution : Type 0 where
  pub actor : String
  pub reason : String
  pub evidence : String
  pub action : String
  pub receipt : String
  pub at : ℕ

pub record Entry : Type 0 where
  pub id : String
  pub kind : String
  pub state : String
  pub payload : Payload
  pub result : Option Payload
  pub epoch : ℕ
  pub updated_at : ℕ
  pub resolutions : List Resolution

pub record State : Type 0 where
  pub epoch : ℕ
  pub entries : Table Entry

pub data Error : Type 0 where
  fence rejected not_running not_unresolved result_exists invalid_decision : Error
  identity_required decision_incomplete : Error

-- What a Journal object holds in memory.
pub record Owner : Type 0 where
  pub epoch : ℕ
  pub closed : Bool

abbrev pub empty_state : State
empty_state = record { epoch = 0; entries = [] }

unfoldable pub key : String → String → String
key kind id = append kind (append ":" id)

-- The `switch` of `Open`: work that was in progress is not known to have ended.
unfoldable pub interrupted : String → String
interrupted st =
    if str_eq st "running"
    then "needs_reconcile"
    else (if str_eq st "sending" then "unknown" else st)

unfoldable pub reopen : ℕ → Table Entry → Table Entry
unfolding interrupted
reopen epoch [] = []
reopen epoch ((k, e) ∷ m) =
    (k, record e { state = interrupted e.state; epoch = epoch }) ∷ reopen epoch m

-- The callback of `Open`. uint64 wraps.
unfoldable pub open_journal : State → Verdict Error ℕ State
open_journal s =
    let n = (s.epoch + 1) % 18446744073709551616 in
    accept n (record { epoch = n; entries = reopen n s.entries })

-- The callback that `mutate` makes of `fn`.
unfoldable pub fenced :
    {A : Type 0} → ℕ → (State → Verdict Error A State) → State → Verdict Error A State
fenced epoch fn s = if s.epoch == epoch then fn s else refuse fence

-- `mutate`
unfoldable pub mutate :
    {A : Type 0}
    → Owner
    → (State → Verdict Error A State)
    → Disk
    → Option State
    → Outcome Error A State
mutate o fn d file =
    if o.closed
    then record { failure = some (refused fence); out = none; file = file }
    else update empty_state (fenced o.epoch fn) d file

abbrev pub new_entry : String → String → Payload → ℕ → ℕ → Entry
new_entry kind id payload epoch now = record {
  id = id;
  kind = kind;
  state = "pending";
  payload = payload;
  result = none;
  epoch = epoch;
  updated_at = now;
  resolutions = [];
}

-- The callback of `Put`; it hands out `created`.
unfoldable pub put : ℕ → String → String → Payload → ℕ → State → Verdict Error Bool State
put epoch kind id payload now s =
    if is_some (lookup (key kind id) s.entries)
    then accept false s
    else accept true (record s {
      entries = insert (key kind id) (new_entry kind id payload epoch now) s.entries;
    })

-- The callback of `Move`.
abbrev pub moved : Entry → String → Option Payload → ℕ → Entry
moved e to result now = record e { state = to; result = result; updated_at = now }

abbrev move_found :
    Option Entry
    → String
    → String
    → String
    → Option Payload
    → ℕ
    → State
    → Verdict Error (Unit {0}) State
move_found none k from to result now s = refuse rejected
move_found (some e) k from to result now s =
    if str_eq e.state from
    then accept tt (record s { entries = insert k (moved e to result now) s.entries })
    else refuse rejected

unfoldable pub move :
    String → String → String → String → Option Payload → ℕ → State → Verdict Error (Unit {0}) State
move kind id from to result now s =
    move_found (lookup (key kind id) s.entries) (key kind id) from to result now s

-- The callback of `Complete`.
abbrev complete_found :
    Option Entry → ℕ → String → Payload → ℕ → State → Verdict Error (Unit {0}) State
complete_found none epoch id message now s = refuse not_running
complete_found (some e) epoch id message now s =
    if str_eq e.state "running"
    then accept tt (record s {
      entries =
          insert (key "outbox" id) (new_entry "outbox" id message epoch now)
            (insert (key "inbox" id) (moved e "completed" (some message) now) s.entries);
    })
    else refuse not_running

unfoldable pub complete : ℕ → String → Payload → ℕ → State → Verdict Error (Unit {0}) State
complete epoch id message now s =
    complete_found (lookup (key "inbox" id) s.entries) epoch id message now s
