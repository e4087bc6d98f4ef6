-- ===== src/Gateway.antt =====
-- internal/gateway/gateway.go: `publish`, which holds the gateway's mutex but while it waits for a
-- slot. The rule on senders, the encoding of events and what the scheduler answers are arguments.
pub mod Steps
pub mod Cases
pub mod Once
pub mod Slots
pub mod Progress
pub mod Starts
pub mod Kept
pub mod Restart
pub mod Reconcile
pub mod Routed
mod Tests
use Prim.Native.String.{◌++◌ as append}
use gopherharness.Base.{
  ℕ, ◌+◌, ◌-◌, ltb, leb, length, String, str_eq, Bool, true, false, not, ◌&&◌, ◌||◌, Option, none,
  some, List, [], ◌∷◌, ◌++◌, if◌then◌else◌, is_empty, is_none,
}
use gopherharness.Base.Table.{Table}
use gopherharness.Base.Text.{blank}
use gopherharness.Durable.{Disk, Outcome, Fault, read}
use gopherharness.Journal.{
  Owner, State, Entry, Payload, Error as JournalError, empty_state, mutate, put, move,
}
use gopherharness.Scheduler.{Source, Identity, Request}

pub record Event : Type 0 where
  pub id : String
  pub request : Request
  pub identity : Identity

-- A goroutine that waits for the result of an accepted event.
pub record Waiter : Type 0 where
  pub key : String
  pub source : Source
  pub identity : Identity

-- `seen` has the keys that the map holds, `slots` the number of slots in use, `file` the journal's
-- file.
pub record Gateway : Type 0 where
  pub journal : Option Owner
  pub seen : List String
  pub closed : Bool
  pub slots : ℕ
  pub waiters : List Waiter
  pub file : Option State

pub data Error : Type 0 where
  not_allowed id_required target_required gateway_closed seen_full overloaded : Error
  journal_failed bad_payload no_longer_allowed submit_failed : Error

-- How `publish` ends: nil, an error, or it waits for a slot without the mutex.
pub data Status : Type 0 where
  done waits : Status
  failed : Error → Status

-- `submitted` is the key of the event that the scheduler accepted.
pub record Result : Type 0 where
  pub status : Status
  pub submitted : Option String
  pub gateway : Gateway

-- The world's part of one call: new traces, the disk and the clock at each transaction, and whether
-- the scheduler accepts a request.
pub record Script : Type 0 where
  pub new_trace : Identity
  pub replay_trace : Identity
  pub put_disk : Disk
  pub list_disk : Disk
  pub move_disk : Disk
  pub undo_disk : Disk
  pub put_at : ℕ
  pub move_at : ℕ
  pub undo_at : ℕ
  pub submits : Identity → Request → Bool

abbrev pub event_key : Event → String
event_key e = append e.request.source.channel (append ":" e.id)

unfoldable pub contains : String → List String → Bool
contains k [] = false
contains k (j ∷ js) = str_eq j k || contains k js

-- `g.seen[key] = true`
abbrev pub add_key : String → List String → List String
add_key k ks = if contains k ks then ks else k ∷ ks

abbrev pub permits : Option (Source → Bool) → Source → Bool
permits none s = false
permits (some allowed) s = allowed s

abbrev pub ends : Status → Gateway → Result
ends st g = record { status = st; submitted = none; gateway = g }

abbrev pub take_slot : Gateway → Gateway
take_slot g = record g { slots = g.slots + 1 }

abbrev pub release_slot : Gateway → Gateway
release_slot g = record g { slots = g.slots - 1 }

-- `List` of the journal, without its sort: an id has one entry of a kind.
unfoldable pub list_entries : String → String → Table Entry → List Entry
list_entries kind st [] = []
list_entries kind st ((k, e) ∷ m) =
    let rest = list_entries kind st m in
    if str_eq e.kind kind && (is_empty st || str_eq e.state st) then e ∷ rest else rest

unfoldable pub find_id : String → List Entry → Option Entry
find_id k [] = none
find_id k (e ∷ es) = if str_eq e.id k then some e else find_id k es

-- Whether `publish` goes on behind the journal, and with which event.
pub data Claim : Type 0 where
  give_up : Status → Claim
  go : Event → Claim

pub record Claimed : Type 0 where
  pub claim : Claim
  pub file : Option State

pub record Moved : Type 0 where
  pub ok : Bool
  pub file : Option State

-- A move of the entry of an event, if there is a journal.
abbrev pub move_entry :
    Option Owner → String → String → String → Option Payload → ℕ → Disk → Option State → Moved
move_entry none k from to result now d file = record { ok = true; file = file }
move_entry (some o) k from to result now d file =
    let r = mutate o (move "inbox" k from to result now) d file in
    record { ok = is_none r.failure; file = r.file }

abbrev pub untraced : Identity → Identity
untraced i = record i { span_id = "" }

abbrev pub check : Option (Source → Bool) → Event → Option Error
check allowed e =
    if not (permits allowed e.request.source)
    then some not_allowed
    else (if is_empty e.id
        then some id_required
        else (if is_empty e.request.source.channel
              || is_empty e.request.source.chat_id
              || blank e.request.text
            then some target_required
            else none))

module _ (allowed : Option (Source → Bool)) (encode : Event → Payload)
    (decode : Payload → Option Event) where
  abbrev pub decoded : Option Event → Claim
  decoded none = give_up (failed bad_payload)
  decoded (some e) =
      if permits allowed e.request.source then go e else give_up (failed no_longer_allowed)

  -- The entry that is there already: the event is the stored one if it is pending.
  abbrev pub reread : Option Entry → Claim
  reread none = give_up done
  reread (some e) = decoded (decode e.payload)

  abbrev pub listed : String → Option State → Claim
  listed k none = give_up (failed journal_failed)
  listed k (some s) = reread (find_id k (list_entries "inbox" "pending" s.entries))

  abbrev pub after_put :
      String → Event → Option (Fault JournalError) → Option Bool → Option State → Claim
  after_put k e (some f) created s = give_up (failed journal_failed)
  after_put k e none (some false) s = listed k s
  after_put k e none created s = go e

  unfoldable pub record_event : Option Owner → String → Event → Script → Option State → Claimed
  record_event none k e w file = record { claim = go e; file = file }
  record_event (some o) k e w file =
      let r = mutate o (put o.epoch "inbox" k (encode e) w.put_at) w.put_disk file in
      record {
        claim = after_put k e r.failure r.out (read empty_state w.list_disk r.file);
        file = r.file;
      }

abbrev pub turn_identity : Event → Script → Identity
turn_identity e w = untraced (if is_empty e.identity.trace_id then w.replay_trace else e.identity)

abbrev pub waiting : String → Event → Script → Gateway → Gateway
waiting k e w g = record g {
  seen = add_key k g.seen;
  waiters =
      g.waiters
      ++ (record { key = k; source = e.request.source; identity = turn_identity e w }) ∷ [];
}

-- The submission of an event whose entry is running.
abbrev pub submit_event : String → Event → Script → Gateway → Result
submit_event k e w g =
    if w.submits (turn_identity e w) e.request
    then record { status = done; submitted = some k; gateway = waiting k e w g }
    else ends (failed submit_failed) (
        release_slot (record g {
          file =
              (move_entry g.journal k "running" "pending" none w.undo_at w.undo_disk g.file).file;
        }))

abbrev pub after_move : String → Event → Script → Gateway → Moved → Result
after_move k e w g m =
    if m.ok
    then submit_event k e w (record g { file = m.file })
    else ends (failed journal_failed) (release_slot (record g { file = m.file }))

abbrev pub by_claim : String → Script → Gateway → Claim → Result
by_claim k w g (give_up st) = ends st (release_slot g)
by_claim k w g (go e) =
    after_move k e w g
      (move_entry g.journal k "pending" "running" none w.move_at w.move_disk g.file)

abbrev pub traced : Event → Script → Event
traced e w = if is_empty e.identity.trace_id then record e { identity = w.new_trace } else e

module _ (allowed : Option (Source → Bool)) (encode : Event → Payload)
    (decode : Payload → Option Event) where
  -- `publish` once it holds a slot.
  unfoldable pub admit_event : Event → Script → Gateway → Result
  admit_event e w g =
      let c = record_event allowed encode decode g.journal (event_key e) (traced e w) w g.file in
      by_claim (event_key e) w (record g { file = c.file }) c.claim

  abbrev pub enter : Bool → Event → Script → Gateway → Result
  enter wait e w g =
      if g.closed
      then ends (failed gateway_closed) g
      else (if contains (event_key e) g.seen
          then ends done g
          else (if leb 100000 (length g.seen)
              then ends (failed seen_full) g
              else (if ltb g.slots 128
                  then admit_event e w (take_slot g)
                  else (if wait then ends waits g else ends (failed overloaded) g))))

  abbrev pub by_check : Bool → Event → Script → Gateway → Option Error → Result
  by_check wait e w g (some er) = ends (failed er) g
  by_check wait e w g none = enter wait e w g

  unfoldable pub publish : Bool → Event → Script → Gateway → Result
  publish wait e w g = by_check wait e w g (check allowed e)

  -- A waiting `publish` takes a slot and the mutex, and looks again.
  unfoldable pub resume : Event → Script → Gateway → Result
  resume e w g =
      if ltb g.slots 128
      then (if g.closed
          then ends (failed gateway_closed) (release_slot (take_slot g))
          else (if contains (event_key e) g.seen
              then ends done (release_slot (take_slot g))
              else admit_event e w (take_slot g)))
      else ends waits g
