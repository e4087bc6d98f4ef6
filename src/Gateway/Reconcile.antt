-- ===== src/Gateway/Reconcile.antt =====
-- internal/gateway/reconcile.go: an operator settles an outcome that is not known. The route of a
-- recovered result comes from the stored event.
use gopherharness.Base.{ℕ, String, str_eq, not, ◌||◌, Option, none, some, if◌then◌else◌, is_none}
use gopherharness.Base.Text.{blank}
use gopherharness.Durable.{Disk, read}
use gopherharness.Journal.{Owner, State, Entry, Payload, Resolution, empty_state, mutate}
use gopherharness.Journal.Resolve.{resolve}
use gopherharness.Delivery.{Message}
use gopherharness.Gateway.{Event, list_entries, find_id}

pub data Error : Type 0 where
  journal_required result_required list_failed bad_payload not_found resolve_failed : Error

pub record Reconciled : Type 0 where
  pub failure : Option Error
  pub file : Option State

abbrev pub fails : Error → Option State → Reconciled
fails er file = record { failure = some er; file = file }

abbrev pub settle :
    Owner → String → String → Resolution → Option Payload → ℕ → Disk → Option State → Reconciled
settle o kind id d m now disk file =
    let r = mutate o (resolve o.epoch kind id d m now) disk file in
    record { failure = if is_none r.failure then none else some resolve_failed; file = r.file }

abbrev pub recovered_message : String → String → Event → Message
recovered_message id text e = record {
  id = id;
  source = e.request.source;
  text = text;
  identity = e.identity;
}

module _ (decode : Payload → Option Event) (encode_message : Message → Payload) where
  abbrev pub settle_event :
      Option Event → Owner → String → Resolution → String → ℕ → Disk → Option State → Reconciled
  settle_event none o id d text now disk file = fails bad_payload file
  settle_event (some e) o id d text now disk file =
      settle o "inbox" id d (some (encode_message (recovered_message id text e))) now disk file

  abbrev pub settle_entry :
      Option Entry → Owner → String → Resolution → String → ℕ → Disk → Option State → Reconciled
  settle_entry none o id d text now disk file = fails not_found file
  settle_entry (some e) o id d text now disk file =
      settle_event (decode e.payload) o id d text now disk file

  abbrev pub settle_listed :
      Option State → Owner → String → Resolution → String → ℕ → Disk → Option State → Reconciled
  settle_listed none o id d text now disk file = fails list_failed file
  settle_listed (some s) o id d text now disk file =
      settle_entry (find_id id (list_entries "inbox" "needs_reconcile" s.entries)) o id d text now
        disk file

  unfoldable pub reconcile :
      Option Owner
      → String
      → String
      → Resolution
      → String
      → ℕ
      → Disk
      → Disk
      → Option State
      → Reconciled
  reconcile none kind id d text now list_disk disk file = fails journal_required file
  reconcile (some o) kind id d text now list_disk disk file =
      if not (str_eq d.action "recover_result")
      then settle o kind id d none now disk file
      else (if not (str_eq kind "inbox") || blank text
          then fails result_required file
          else settle_listed (read empty_state list_disk file) o id d text now disk file)
