-- ===== src/Journal/Tests.antt =====
-- A journal through a crash and an operator's decision (internal/journal/journal.go), and the
-- theorems at inputs that meet their hypotheses.
use gopherharness.Base.{◌≡◌, refl, true, false, none, some, [], ◌∷◌, ◌++◌, ◌||◌, arith}
use gopherharness.Base.Table.{lookup, insert}
use gopherharness.Base.Text.{blank}
use gopherharness.Durable.{accept, healthy, update}
use gopherharness.Journal.{
  raw, Resolution, Entry, State, Owner, empty_state, open_journal, reopen, mutate, key, put, move,
  complete, interrupted, new_entry, moved,
}
use gopherharness.Journal.Fence.{Refused, successor-Refused}
use gopherharness.Journal.Publish.{Published, complete-Published}
use gopherharness.Journal.Resolve.{resolve, unresolved, decide}
use gopherharness.Journal.Decisions.{Decided, resolve-Decided}

abbrev asked : Entry
asked = record {
  id = "feishu:1";
  kind = "inbox";
  state = "running";
  payload = raw "hello";
  result = none;
  epoch = 4;
  updated_at = 10;
  resolutions = [];
}

abbrev sent : Entry
sent = record asked { id = "feishu:0"; kind = "outbox"; state = "unknown"; payload = raw "answer" }

abbrev book : State
book = record { epoch = 4; entries = ("inbox:feishu:1", asked) ∷ ("outbox:feishu:0", sent) ∷ [] }

abbrev owner : Owner
owner = record { epoch = 4; closed = false }

successor-Refused_example :
    Refused
      (mutate owner
        (complete 4 "feishu:1" (raw "late") 12)
        healthy
        (update empty_state open_journal healthy (some book)).file)
      (update empty_state open_journal healthy (some book)).file
unfolding update open_journal
successor-Refused_example =
    successor-Refused owner (complete 4 "feishu:1" (raw "late") 12) healthy healthy (some book) refl
      (omega arith) refl

abbrev reopened_book : State
reopened_book = record {
  epoch = 5;
  entries =
      ("inbox:feishu:1", record asked { state = "needs_reconcile"; epoch = 5 })
      ∷ ("outbox:feishu:0", record sent { epoch = 5 })
      ∷ [];
}

book-reopens : open_journal book ≡ accept 5 reopened_book
unfolding open_journal reopen interrupted
book-reopens = refl

abbrev with_request : State
with_request = record empty_state {
  entries = ("inbox:a:1", new_entry "inbox" "a:1" (raw "first") 0 7) ∷ [];
}

put_first : put 0 "inbox" "a:1" (raw "first") 7 empty_state ≡ accept true with_request
unfolding put key lookup insert
put_first = refl

abbrev claimed : State
claimed = record empty_state {
  entries = ("inbox:a:1", moved (new_entry "inbox" "a:1" (raw "first") 0 7) "running" none 9) ∷ [];
}

claim_first : move "inbox" "a:1" "pending" "running" none 9 with_request ≡ accept tt claimed
unfolding move key lookup insert
claim_first = refl

abbrev published : State
published = record claimed {
  entries =
      (
        "inbox:a:1",
        moved (moved (new_entry "inbox" "a:1" (raw "first") 0 7) "running" none 9) "completed"
            (some (raw "result")) 11,
      )
      ∷ ("outbox:a:1", new_entry "outbox" "a:1" (raw "result") 0 11)
      ∷ [];
}

publish : complete 0 "a:1" (raw "result") 11 claimed ≡ accept tt published
unfolding complete key lookup insert
publish = refl

complete-Published_example : Published 0 "a:1" (raw "result") claimed published
complete-Published_example = complete-Published 0 "a:1" (raw "result") 11 claimed publish

abbrev decision : Resolution
decision = record {
  actor = "operator";
  reason = "no receipt";
  evidence = "channel log";
  action = "confirmed_not_sent";
  receipt = "";
  at = 0;
}

abbrev requeued : Entry
requeued = record sent {
  state = "pending";
  updated_at = 20;
  resolutions = record decision { at = 20 } ∷ [];
}

requeue :
    resolve 4 "outbox" "feishu:0" decision none 20 book
    ≡ accept tt
        (record book { entries = ("inbox:feishu:1", asked) ∷ ("outbox:feishu:0", requeued) ∷ [] })
unfolding resolve decide key lookup insert blank
requeue = refl

resolve-Decided_example :
    (e : Entry) × (e' : Entry) × (lookup (key "outbox" "feishu:0") book.entries ≡ some e)
    × (lookup
          (key "outbox" "feishu:0")
          (("inbox:feishu:1", asked) ∷ ("outbox:feishu:0", requeued) ∷ [])
        ≡ some e')
    × (unresolved "outbox" e ≡ true)
    × ((blank "operator" || blank "no receipt" || blank "channel log") ≡ false)
    × (e'.payload ≡ e.payload)
    × (e'.resolutions ≡ e.resolutions ++ record decision { at = 20 } ∷ [])
    × Decided "outbox" (record decision { at = 20 }) none e e'
resolve-Decided_example = resolve-Decided 4 "outbox" "feishu:0" decision none 20 book requeue
