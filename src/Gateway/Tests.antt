-- ===== src/Gateway/Tests.antt =====
-- Runs of internal/gateway/gateway.go.
use gopherharness.Base.{
  ℕ, ◌≡◌, ◌≢◌, refl, String, Bool, true, false, Option, none, some, List, [], ◌∷◌, All,
}
use gopherharness.Durable.{healthy, update}
use gopherharness.Journal.{
  Owner, State, Payload, raw, Resolution, empty_state, open_journal, new_entry,
}
use gopherharness.Delivery.{Message}
use gopherharness.Scheduler.{Source}
use gopherharness.Gateway.{Event, Gateway, Script, Result, contains, publish, resume}
use gopherharness.Gateway.Steps.{
  Step, publishes, resumes, finishes, closes, finish, ended_badly, answered, merged, after,
  submissions, new_gateway,
}
use gopherharness.Gateway.Reconcile.{Reconciled, reconcile}
use gopherharness.Gateway.Routed.{Stored, outbound_entry, reconcile-Routed}
use gopherharness.Journal.Publish.{Queued}
use gopherharness.Gateway.Restart.{restart-Never}
use gopherharness.Gateway.Once.{Distinct, submissions-Distinct}
use gopherharness.Gateway.Slots.{SlotsOk, after-SlotsOk}
use gopherharness.Gateway.Progress.{Ends, finish-Ends}
use gopherharness.Gateway.Starts.{Submits, publish-Submits}

abbrev asked : Event
asked = record {
  id = "1";
  request = record {
    conversation = "c";
    text = "hello";
    source = record { channel = "feishu"; chat_id = "c"; sender_id = "u" };
    background = false;
    busy = "queue";
    approval_id = "";
    approval_allowed = false;
    worker_results = false;
    worker_summary_run_id = "";
    trace = record { trace_id = ""; span_id = "" };
  };
  identity = record { trace_id = ""; span_id = "" };
}

abbrev again : Event
again = record asked { id = "2" }

abbrev everyone : Option (Source → Bool)
everyone = some (λ s. true)

abbrev encoded : Event → Payload
encoded e = raw e.id

abbrev read_back : Payload → Option Event
read_back p = some asked

abbrev as_text : Message → Payload
as_text m = raw m.text

abbrev script : Script
script = record {
  new_trace = record { trace_id = "t"; span_id = "s" };
  replay_trace = record { trace_id = "r"; span_id = "s" };
  put_disk = healthy;
  list_disk = healthy;
  move_disk = healthy;
  undo_disk = healthy;
  put_at = 1;
  move_at = 2;
  undo_at = 3;
  submits = λ i r. true;
}

abbrev owner : Owner
owner = record { epoch = 0; closed = false }

abbrev fresh : Gateway
fresh = new_gateway (some owner) none

-- The first event is published three times, once behind the end of its turn.
abbrev history : List Step
history =
    publishes false asked script
    ∷ publishes false asked script
    ∷ publishes true again script
    ∷ finishes "feishu:1" (answered "done") 4 healthy
    ∷ publishes false asked script
    ∷ finishes "feishu:2" merged 5 healthy
    ∷ resumes again script
    ∷ closes
    ∷ []

submitted_once :
    submissions everyone encoded read_back raw as_text history fresh ≡ "feishu:1" ∷ "feishu:2" ∷ []
unfolding submissions gopherharness.Gateway.Steps.step gopherharness.Gateway.Steps.finish
    gopherharness.Gateway.Steps.find_waiter gopherharness.Gateway.Steps.drop_waiter
    gopherharness.Gateway.Steps.conclude publish resume gopherharness.Gateway.admit_event
    gopherharness.Gateway.record_event contains gopherharness.Gateway.list_entries
    gopherharness.Gateway.find_id gopherharness.Durable.update gopherharness.Durable.read
    gopherharness.Journal.mutate gopherharness.Journal.fenced gopherharness.Journal.put
    gopherharness.Journal.move gopherharness.Journal.complete gopherharness.Journal.key
    gopherharness.Base.Table.lookup gopherharness.Base.Table.insert gopherharness.Base.Text.blank
submitted_once = refl

submissions-Distinct_example :
    Distinct (submissions everyone encoded read_back raw as_text history fresh)
    × All
        (λ k. contains k fresh.seen ≡ false)
        (submissions everyone encoded read_back raw as_text history fresh)
submissions-Distinct_example =
    submissions-Distinct everyone encoded read_back raw as_text history fresh

after-SlotsOk_example :
    SlotsOk (after everyone encoded read_back raw as_text history (new_gateway (some owner) none))
after-SlotsOk_example =
    after-SlotsOk everyone encoded read_back raw as_text (some owner) none history

publish-Submits_example :
    Submits
      (publish everyone encoded read_back false asked script fresh).submitted
      fresh.file
      (publish everyone encoded read_back false asked script fresh).gateway.file
    × Submits
        (resume everyone encoded read_back asked script fresh).submitted
        fresh.file
        (resume everyone encoded read_back asked script fresh).gateway.file
publish-Submits_example = publish-Submits everyone encoded read_back false asked script fresh refl

-- The first request was interrupted, and an operator gives its result.
abbrev interrupted_file : Option State
interrupted_file = some (record {
  epoch = 0;
  entries =
      (
        "inbox:feishu:1",
        record {
          id = "feishu:1";
          kind = "inbox";
          state = "needs_reconcile";
          payload = raw "1";
          result = none;
          epoch = 0;
          updated_at = 1;
          resolutions = [];
        },
      )
      ∷ [];
})

abbrev recovery : Resolution
recovery = record {
  actor = "op";
  reason = "restart";
  evidence = "log";
  action = "recover_result";
  receipt = "";
  at = 0;
}

abbrev recovered : Reconciled
recovered =
    reconcile read_back as_text (some owner) "inbox" "feishu:1" recovery "done" 9 healthy healthy
      interrupted_file

reconcile-Routed_example :
    (ev : Event) × Stored read_back "feishu:1" interrupted_file ev
    × (outbound_entry "feishu:1" interrupted_file ≡ none)
    × Queued "feishu:1"
        (as_text (record {
          id = "feishu:1";
          source = ev.request.source;
          text = "done";
          identity = ev.identity;
        }))
        (outbound_entry "feishu:1" recovered.file)
unfolding reconcile gopherharness.Gateway.list_entries gopherharness.Gateway.find_id
    gopherharness.Durable.update gopherharness.Durable.read gopherharness.Journal.mutate
    gopherharness.Journal.fenced gopherharness.Journal.Resolve.resolve
    gopherharness.Journal.Resolve.decide gopherharness.Journal.Resolve.recover_result
    gopherharness.Journal.key gopherharness.Base.Table.lookup gopherharness.Base.Table.insert
    gopherharness.Base.Text.blank
reconcile-Routed_example =
    reconcile-Routed read_back as_text owner "inbox" "feishu:1" recovery "done" 9 healthy healthy
      interrupted_file refl refl

-- The gateway while the first event is answered.
abbrev answering : Gateway
answering = after everyone encoded read_back raw as_text (publishes false asked script ∷ []) fresh

finish-Ends_example : Ends (
    resume everyone encoded read_back again script
      (finish raw as_text "feishu:1" (ended_badly "timeout") 4 healthy answering))
unfolding after gopherharness.Gateway.Steps.step gopherharness.Gateway.Steps.find_waiter publish
    gopherharness.Gateway.admit_event gopherharness.Gateway.record_event contains
    gopherharness.Durable.update gopherharness.Journal.mutate gopherharness.Journal.fenced
    gopherharness.Journal.put gopherharness.Journal.move gopherharness.Journal.key
    gopherharness.Base.Table.lookup gopherharness.Base.Table.insert gopherharness.Base.Text.blank
finish-Ends_example =
    finish-Ends everyone encoded read_back raw as_text "feishu:1" (ended_badly "timeout") 4 healthy
      again script answering
      (after-SlotsOk everyone encoded read_back raw as_text (some owner) none
        (publishes false asked script ∷ []))
      refl

-- The program ends while the first request runs, and starts again; the event comes again.
abbrev running_file : Option State
running_file = some (record {
  epoch = 0;
  entries =
      (
        "inbox:feishu:1",
        record {
          id = "feishu:1";
          kind = "inbox";
          state = "running";
          payload = raw "1";
          result = none;
          epoch = 0;
          updated_at = 1;
          resolutions = [];
        },
      )
      ∷ [];
})

restart-Never_example :
    All
      (λ j. j ≢ "feishu:1")
      (submissions everyone encoded read_back raw as_text history (
        new_gateway
          (some (record { epoch = 1; closed = false }))
          (update empty_state open_journal healthy running_file).file))
unfolding update gopherharness.Journal.open_journal gopherharness.Journal.reopen
    gopherharness.Journal.interrupted gopherharness.Journal.key gopherharness.Base.Table.lookup
restart-Never_example =
    restart-Never everyone encoded read_back "feishu:1" raw as_text healthy running_file
      (record { epoch = 1; closed = false }) history (_, refl, refl) refl
