-- ===== src/Delivery/Posting.antt =====
-- internal/delivery/durable.go: `PostDurable` records a result in the journal before it is queued.
-- The encoding of messages is an argument, and whether the hub takes a message.
use gopherharness.Base.{
  ℕ, str_eq, Bool, false, not, ◌&&◌, ◌||◌, Option, none, some, if◌then◌else◌, is_empty,
}
use gopherharness.Base.Table.{lookup}
use gopherharness.Durable.{Disk, Fault, read}
use gopherharness.Journal.{
  Owner, State, Entry, Payload, Error as JournalError, empty_state, key, mutate, put,
}
use gopherharness.Scheduler.{Identity, same_source}
use gopherharness.Delivery.{Message}

pub data PostError : Type 0 where
  incomplete journal_failed disappeared bad_payload other_result post_failed : PostError

-- `queued` is the message that the hub took.
pub record Posted : Type 0 where
  pub failure : Option PostError
  pub queued : Option Message
  pub file : Option State

abbrev pub refused : PostError → Option State → Posted
refused er file = record { failure = some er; queued = none; file = file }

abbrev pub same_result : Message → Message → Bool
same_result a b = str_eq a.id b.id && same_source a.source b.source && str_eq a.text b.text

abbrev pub with_trace : Identity → Message → Message
with_trace i m = if is_empty m.identity.trace_id then record m { identity = i } else m

module _ (encode : Message → Payload) (decode : Payload → Option Message)
    (posts : Message → Bool) where
  abbrev pub post : Message → Option State → Posted
  post m file =
      if posts m
      then record { failure = none; queued = some m; file = file }
      else refused post_failed file

  -- The record that was there already.
  abbrev pub post_saved : Entry → Option Message → Message → Option State → Posted
  post_saved e none m file = refused bad_payload file
  post_saved e (some saved) m file =
      if not (same_result saved m)
      then refused other_result file
      else (if not (str_eq e.state "pending")
          then record { failure = none; queued = none; file = file }
          else post saved file)

  abbrev pub post_found : Option Entry → Message → Option State → Posted
  post_found none m file = refused disappeared file
  post_found (some e) m file = post_saved e (decode e.payload) m file

  abbrev pub post_again : Option State → Message → Option State → Posted
  post_again none m file = refused journal_failed file
  post_again (some s) m file = post_found (lookup (key "outbox" m.id) s.entries) m file

  abbrev pub after_put :
      Option (Fault JournalError) → Option Bool → Option State → Message → Option State → Posted
  after_put (some f) created s m file = refused journal_failed file
  after_put none (some false) s m file = post_again s m file
  after_put none created s m file = post m file

  abbrev pub post_recorded : Owner → Message → Disk → Disk → ℕ → Option State → Posted
  post_recorded o m put_disk get_disk now file =
      let r = mutate o (put o.epoch "outbox" m.id (encode m) now) put_disk file in
      after_put r.failure r.out (read empty_state get_disk r.file) m r.file

  unfoldable pub post_durable :
      Option Owner → Identity → Message → Disk → Disk → ℕ → Option State → Posted
  post_durable none i m put_disk get_disk now file = refused incomplete file
  post_durable (some o) i m put_disk get_disk now file =
      if is_empty m.id || is_empty m.source.channel || is_empty m.source.chat_id
      then refused incomplete file
      else post_recorded o (with_trace i m) put_disk get_disk now file
