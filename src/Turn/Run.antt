-- ===== src/Turn/Run.antt =====
-- internal/runtime/engine.go: `runWithContinuation`, a whole turn.
pub mod Steps
pub mod Limits
pub mod Exchange
pub mod Valid
pub mod Closed
use gopherharness.Base.{
  ℕ, zero, suc, ◌+◌, ◌-◌, ◌==◌, ltb, leb, String, str_eq, Bool, true, false, not, ◌&&◌, ◌||◌,
  Option, none, some, List, [], ◌∷◌, ◌++◌, if◌then◌else◌, is_empty, is_some,
}
use gopherharness.Recovery.{Message}
use gopherharness.Turn.{TaskState, LoopGuard, Agent}
use gopherharness.Turn.Received.{Ingest, user_message}
use gopherharness.Turn.Loop.{
  Turn, Reply, Attempt, Ending, answered, finished_error, aborted, out_of_fuel, Step, next, leave,
  ended, and_then, check, finish_error, guard_steps, count_attempt, receive, take_results, Asked,
  ask, parsed,
}
use gopherharness.Turn.Respond.{respond, append_messages}

abbrev pub check_done : Option String → Turn → Step
check_done none t = next t
check_done (some e) t = ended aborted t

-- `if guard.FinalOnly && guard.FinalCalls >= 2`
abbrev pub stop_final : Turn → Step
stop_final t = if t.guard.final_only && leb 2 t.guard.final_calls then leave t else next t

abbrev pub advanced : Option String → Turn → Step
advanced none t = next t
advanced (some e) t = finish_error "context_budget_exceeded" e t

abbrev pub asked : Attempt → Turn → Asked
asked s t = ask s.reply (2 - t.overflow_retries) t.overflow_retries

-- `a.modelCalls`, which is counted from the beginning of the turn here.
abbrev pub counted_calls : Asked → Turn → Turn
counted_calls r t = record t { overflow_retries = r.retries; model_calls = t.model_calls + r.calls }

-- The body of the loop.
unfoldable pub attempt : Agent → Attempt → Turn → Step
attempt a s t = and_then (check_done s.done_before t) λ t.
    and_then (stop_final (guard_steps a t)) λ t.
      and_then (check s.write_task aborted (count_attempt t)) λ t. and_then (receive s t) λ t.
        and_then (take_results s t) λ t.
          and_then (advanced s.advance_error t)
            λ t. respond a s (asked s t).reply (counted_calls (asked s t) t)

-- `for task.Attempts < a.MaxAttempts`, on fuel; the scripts are indexed by the attempts before.
unfoldable pub turns : Agent → (ℕ → Attempt) → ℕ → Turn → Step
turns a scripts zero t = if ltb t.task.attempts a.max_attempts then ended out_of_fuel t else leave t
turns a scripts (suc fuel) t =
    let rest = and_then (attempt a (scripts t.task.attempts) t) (turns a scripts fuel) in
    if ltb t.task.attempts a.max_attempts then rest else leave t

-- Why a turn that broke off has failed.
abbrev pub step_limit : Agent → TaskState → TaskState
step_limit a t =
    if ltb t.tool_steps a.max_steps
    then record t {
      stop_reason = "attempt_limit_reached";
      final_answer = "Stopped after reaching the configured model-attempt limit.";
    }
    else record t {
      stop_reason = "step_limit_reached";
      final_answer = "Stopped after reaching the configured step limit.";
    }

abbrev pub stop_reason : LoopGuard → TaskState → TaskState
stop_reason g t =
    if g.final_only && not (str_eq g.reason "tool step budget exhausted")
    then record t {
      stop_reason = "repeated_tool_failure";
      final_answer =
          "Stopped after repeated identical tool failures and bounded final-answer attempts.";
    }
    else t

-- What stands around the loop: which writes succeed, and the error of a context that has ended.
pub record Frame : Type 0 where
  pub persist_user : Bool
  pub now : ℕ
  pub save_start : Bool
  pub write_start : Bool
  pub ingested : Ingest
  pub prepare_error : Option String
  pub write_end : Bool
  pub write_report : Bool
  pub context_error : Option String

unfoldable pub conclude : Agent → Frame → Turn → Step
conclude a f t =
    let task = stop_reason t.guard (step_limit a (record t.task { status = "failed" })) in
    and_then (check f.write_end aborted (record t { task = task }))
      λ t. and_then (check f.write_report aborted t) λ t. ended (answered t.task.final_answer) t

abbrev pub concluded : Agent → Frame → Step → Step
concluded a f (leave t) = conclude a f t
concluded a f s = s

abbrev pub prepared : Option String → Turn → Step
prepared none t = next t
prepared (some e) t = finish_error "context_build_failed" e t

abbrev pub ingest_first : Frame → Turn → Step
ingest_first f t =
    let (ok, ms) = gopherharness.Turn.Received.ingest f.ingested t.messages in
    check ok aborted (record t { messages = ms })

abbrev context_reason : Option String → String
context_reason none = "persistence_error"
context_reason (some e) = if str_eq e "context deadline exceeded" then "timed_out" else "cancelled"

-- The deferred function: a task that still runs when an error is returned has failed.
abbrev pub close_task : Frame → Step → Step
close_task f (ended aborted t) = ended aborted (
    if str_eq t.task.status "running"
    then record t {
      task = record t.task { status = "failed"; stop_reason = context_reason f.context_error };
    }
    else t)
close_task f s = s

abbrev pub new_task : TaskState
new_task = record {
  status = "running";
  tool_steps = 0;
  attempts = 0;
  last_tool = "";
  stop_reason = "";
  final_answer = "";
  changed_paths = [];
  verification_attempted = false;
  verification_succeeded = false;
  readiness_reminded = false;
}

abbrev pub new_turn : Frame → String → List Message → Turn
new_turn f request ms = record {
  messages = ms ++ (if f.persist_user then user_message "" request f.now ∷ [] else []);
  task = new_task;
  guard = record { failures = []; final_only = false; final_calls = 0; reason = "" };
  saved = none;
  retries = 0;
  overflow_retries = 0;
  model_calls = 0;
}

-- A turn without a continuation, of a request that is not empty once trimmed.
unfoldable pub run_turn : Agent → Frame → (ℕ → Attempt) → String → List Message → Step
run_turn a f scripts request ms =
    if is_empty request
    then ended aborted (new_turn (record f { persist_user = false }) request ms)
    else close_task f (
        and_then (check (f.save_start && f.write_start) aborted (new_turn f request ms)) λ t.
          and_then (ingest_first f t) λ t.
            and_then (prepared f.prepare_error t)
              λ t. concluded a f (turns a scripts a.max_attempts t))
