-- ===== src/Worker/Runs.antt =====
-- The goroutine `run`, `Send`, `Stop`, `CancelAll` and `Seal` of internal/worker/manager.go. What a
-- runner reads from its inbox is its own affair and is not modelled.
use gopherharness.Base.{
  ℕ, ◌+◌, ◌-◌, String, str_eq, Bool, true, false, not, ◌||◌, Option, none, some, [], ◌∷◌, ◌++◌, ltb,
  length, if◌then◌else◌,
}
use gopherharness.Base.Table.{Table, lookup, insert}
use gopherharness.Worker.{
  Worker, Manager, Stage, waiting, ready, running, leaving, ended, Error, not_found, not_running,
  inbox_full, active,
}

-- The steps of a goroutine: a slot or the end of its context, the runner, and what follows it.
pub data Move : Type 0 where
  acquire give_up release : Move
  begin finish : ℕ → Move
  return : String → Option String → Move

abbrev pub cancelled_error : Option String
cancelled_error = some "context canceled"

-- A worker and the slots in use after a step.
abbrev pub done : Bool → Worker → Bool
done over w = w.cancelled || over

abbrev pub error_text : Option String → String → String
error_text none old = old
error_text (some e) old = e

abbrev pub ended_by : Bool → String → Option String → ℕ → Worker → Worker
ended_by stopped result none now w =
    if stopped
    then record w { status = "stopped"; finished_at = now; stage = ended }
    else record w { status = "completed"; result = result; finished_at = now; stage = ended }
ended_by stopped result (some e) now w = record w {
  status = if stopped then "stopped" else "failed";
  error = e;
  finished_at = now;
  stage = ended;
}

abbrev pub acquire_from : Stage → ℕ → ℕ → Worker → Option (Worker × ℕ)
acquire_from waiting used size w =
    if ltb used size then some (record w { stage = ready }, used + 1) else none
acquire_from _ used size w = none

abbrev pub give_up_from : Stage → Bool → ℕ → Worker → Option (Worker × ℕ)
give_up_from waiting over used w =
    if done over w then some (record w { stage = leaving false "" cancelled_error }, used) else none
give_up_from _ over used w = none

abbrev pub begin_from : Stage → Bool → ℕ → ℕ → Worker → Option (Worker × ℕ)
begin_from ready over now used w =
    if done over w
    then some (record w { stage = leaving true "" cancelled_error }, used)
    else some (
      record w {
        status = if str_eq w.status "stopping" then w.status else "running";
        started_at = now;
        stage = running;
      },
      used,
    )
begin_from _ over now used w = none

abbrev pub return_from : Stage → String → Option String → ℕ → Worker → Option (Worker × ℕ)
return_from running result err used w = some (record w { stage = leaving true result err }, used)
return_from _ result err used w = none

abbrev pub release_from : Stage → ℕ → Worker → Option (Worker × ℕ)
release_from (leaving true result err) used w =
    some (record w { stage = leaving false result err }, used - 1)
release_from _ used w = none

abbrev pub finish_from : Stage → Bool → ℕ → ℕ → Worker → Option (Worker × ℕ)
finish_from (leaving false result err) over now used w =
    some (ended_by (done over w || str_eq w.status "stopping") result err now w, used)
finish_from _ over now used w = none

unfoldable pub move_worker : Move → Bool → ℕ → ℕ → Worker → Option (Worker × ℕ)
move_worker acquire over used size w = acquire_from w.stage used size w
move_worker give_up over used size w = give_up_from w.stage over used w
move_worker (begin now) over used size w = begin_from w.stage over now used w
move_worker (return result err) over used size w = return_from w.stage result err used w
move_worker release over used size w = release_from w.stage used w
move_worker (finish now) over used size w = finish_from w.stage over now used w

abbrev pub stored : Option (Worker × ℕ) → String → Manager → Option Manager
stored none id m = none
stored (some (w, used)) id m =
    some (record m { workers = insert id w m.workers; slots_used = used })

abbrev pub move_found : Option Worker → Move → String → Manager → Option Manager
move_found none v id m = none
move_found (some w) v id m = stored (move_worker v m.over m.slots_used m.concurrency w) id m

unfoldable pub move : Move → String → Manager → Option Manager
move v id m = move_found (lookup id m.workers) v id m

abbrev pub inbox_capacity : ℕ
inbox_capacity = 50

abbrev pub send_to : Option Worker → String → String → Manager → Option Error × Manager
send_to none id message m = (some not_found, m)
send_to (some w) id message m =
    if m.closed || not (str_eq w.status "running" || str_eq w.status "queued")
    then (some not_running, m)
    else (if ltb (length w.inbox) inbox_capacity
        then (
          none,
          record m { workers = insert id (record w { inbox = w.inbox ++ message ∷ [] }) m.workers },
        )
        else (some inbox_full, m))

unfoldable pub send : String → String → Manager → Option Error × Manager
send id message m = send_to (lookup id m.workers) id message m

unfoldable pub stopping : Worker → Worker
stopping w = if active w.status then record w { status = "stopping"; cancelled = true } else w

abbrev pub stop_found : Option Worker → String → Manager → Option Error × Manager
stop_found none id m = (some not_found, m)
stop_found (some w) id m = (none, record m { workers = insert id (stopping w) m.workers })

-- `StopContext` up to its wait.
unfoldable pub stop : String → Manager → Option Error × Manager
stop id m = stop_found (lookup id m.workers) id m

unfoldable pub stop_all : Table Worker → Table Worker
stop_all [] = []
stop_all ((id, w) ∷ m) = (id, stopping w) ∷ stop_all m

unfoldable pub cancel_all : Manager → Manager
cancel_all m = record m { workers = stop_all m.workers }

-- `Seal` under the mutex; it ends the lifetime of every worker.
unfoldable pub seal : Manager → Manager
seal m = record m { closed = true; over = true; workers = stop_all m.workers }
