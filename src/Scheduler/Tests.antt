-- ===== src/Scheduler/Tests.antt =====
-- A scheduler with two conversations (internal/scheduler/scheduler.go), and the theorems at inputs that
-- meet their hypotheses.
use gopherharness.Base.{
  ℕ, ◌<◌, ◌≡◌, refl, true, false, none, some, [], ◌∷◌, arith, length, List, Option, String,
}
use gopherharness.Base.Table.{lookup}
use gopherharness.Scheduler.{
  Request, Result, Handle, Job, Lane, Scheduler, new_lane, submit, accepted, rejected, queue_full,
}
use gopherharness.Scheduler.Work.{poll, acquire, begin, drain, end_run, settle, seal, move}
use gopherharness.Scheduler.Bounds.{IsOk}
use gopherharness.Scheduler.Outcome.{Shows}
use gopherharness.Scheduler.Life.{
  Event, submitted, stepped, sealed, new_scheduler, event, after, after-IsOk, after-Shows,
}

abbrev asked : Request
asked = record {
  conversation = "a";
  text = "hello";
  source = record { channel = "feishu"; chat_id = "a"; sender_id = "u" };
  background = false;
  busy = "";
  approval_id = "";
  approval_allowed = false;
  worker_results = false;
  worker_summary_run_id = "";
  trace = record { trace_id = "t"; span_id = "s" };
}

abbrev answer : Result
answer = record { text = "hi"; err = none; merged = false }

-- One request is answered while a second waits.
abbrev answered : List Event
answered =
    submitted false asked.trace asked
    ∷ stepped poll "a"
    ∷ stepped acquire "a"
    ∷ stepped begin "a"
    ∷ submitted false asked.trace asked
    ∷ stepped (end_run answer) "a"
    ∷ stepped settle "a"
    ∷ []

abbrev fresh : Scheduler
fresh = new_scheduler 1 1 2

after-IsOk_example : IsOk (after answered (new_scheduler 1 1 2))
after-IsOk_example = after-IsOk answered 1 1 2

answered_result :
    (0 < (after answered fresh).next) × (((after answered fresh).handles 0).result ≡ some answer)
unfolding after event move lookup submit new_scheduler gopherharness.Scheduler.admit
    gopherharness.Base.Table.insert gopherharness.Scheduler.enqueue
    gopherharness.Scheduler.interrupts gopherharness.Scheduler.Work.finish_consumed
    gopherharness.Scheduler.cancel gopherharness.Scheduler.finish
answered_result = (omega arith, refl)

after-Shows_example : Shows 0 answer (after (sealed ∷ []) (after answered fresh))
after-Shows_example = after-Shows 0 answer (sealed ∷ []) (after answered fresh) answered_result

-- A scheduler whose only lane is at rest with a waiting job.
abbrev resting_lane : Lane
resting_lane = record (new_lane asked.source) {
  queue = (record { handle = 0; req = asked }) ∷ [];
  paused = true;
}

abbrev resting : Scheduler
resting = record (new_scheduler 1 1 2) { lanes = ("a", resting_lane) ∷ []; next = 1 }
