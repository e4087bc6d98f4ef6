-- ===== src/Turn/Loop.antt =====
-- internal/runtime/engine.go: the loop of `runWithContinuation`, which calls the model, runs its tools
-- and checks its final answer. What the model, the context and the disk do is a script for each
-- attempt.
use Prim.Native.Char.{code}
use gopherharness.Base.{
  ℕ, zero, suc, ◌==◌, leb, String, Bool, true, false, not, ◌&&◌, ◌||◌, Option, none, some, List, [],
  ◌∷◌, if◌then◌else◌, is_empty,
}
use gopherharness.Recovery.{Call, Message}
use gopherharness.Turn.{tools, final, retry, Parsed, TaskState, LoopGuard, Agent}
use gopherharness.Turn.Batch.{
  Continuation, Batch, Stop, Outcome, stopped, went_on, execute_new, fresh,
}
use gopherharness.Turn.Batch
use gopherharness.Turn.Received.{Ingest, ingest, drain_inbox}

pub record Turn : Type 0 where
  pub messages : List Message
  pub task : TaskState
  pub guard : LoopGuard
  pub saved : Option Continuation
  pub retries : ℕ
  pub overflow_retries : ℕ
  pub model_calls : ℕ

-- A completion, or the error of the provider, and what surrounds it.
pub record Reply : Type 0 where
  pub text : String
  pub calls : List Call
  pub error : Option String
  pub is_overflow : Bool
  pub is_done : Bool
  pub shrinks : Bool
  pub measure_error : Option String

pub record Attempt : Type 0 where
  pub done_before : Option String
  pub write_task : Bool
  pub injected : List String
  pub inbox : List String
  pub save_received : Bool
  pub ingested : Ingest
  pub advance_error : Option String
  pub reply : ℕ → Reply
  pub now : ℕ
  pub message_id : String
  pub save_retry : Bool
  pub running_workers : List String
  pub write_notice : Bool
  pub save_notice : Bool
  pub prepare_error : Option String
  pub write_checkpoint : Bool
  pub save_final : Bool
  pub write_final : Bool
  pub write_report : Bool
  pub call_id : ℕ → String
  pub is_freezeable : Bool
  pub save_calls : Bool
  pub save_batch : Bool
  pub clear_batch : Bool
  pub groups : ℕ → Batch.Script

-- How a turn ends: with an answer, with a task that failed for a reason, or with an error alone.
pub data Ending : Type 0 where
  answered : String → Ending
  finished_error : String → Ending
  aborted out_of_fuel : Ending

-- The loop goes on, breaks off, or the function returns.
pub data Step : Type 0 where
  next leave : Turn → Step
  ended : Ending → Turn → Step

abbrev pub and_then : Step → (Turn → Step) → Step
and_then (next t) f = f t
and_then (leave t) f = leave t
and_then (ended e t) f = ended e t

abbrev pub check : Bool → Ending → Turn → Step
check ok e t = if ok then next t else ended e t

-- `finishError`
unfoldable pub finish_error : String → String → Turn → Step
finish_error reason text t = ended (finished_error reason) (record t {
  task = record t.task { status = "failed"; stop_reason = reason; final_answer = text };
})

-- `if task.ToolSteps >= a.MaxSteps`, and the calls that are left for a final answer.
unfoldable pub guard_steps : Agent → Turn → Turn
guard_steps a t =
    if leb a.max_steps t.task.tool_steps
    then record t {
      guard = record t.guard { final_only = true; reason = "tool step budget exhausted" };
    }
    else t

unfoldable pub count_attempt : Turn → Turn
count_attempt t = record t {
  task = record t.task { attempts = suc t.task.attempts };
  guard = record t.guard {
    final_calls = if t.guard.final_only then suc t.guard.final_calls else t.guard.final_calls;
  };
}

abbrev is_nil : List Message → Bool
is_nil [] = true
is_nil (m ∷ ms) = false

unfoldable pub receive : Attempt → Turn → Step
receive s t =
    let ms = drain_inbox s.injected s.inbox s.now t.messages in
    let none_received = is_nil (drain_inbox s.injected s.inbox s.now []) in
    check (none_received || s.save_received) aborted (record t { messages = ms })

unfoldable pub take_results : Attempt → Turn → Step
take_results s t =
    let (ok, ms) = ingest s.ingested t.messages in check ok aborted (record t { messages = ms })

-- The loop around `turnPrompt.complete`, with `left` retries for an overflow: the reply that it ends
-- with, the retries, and the calls of the model.
pub record Asked : Type 0 where
  pub reply : Reply
  pub retries : ℕ
  pub calls : ℕ

abbrev pub failed_to_measure : Reply → ℕ → Option String → Asked → Asked
failed_to_measure r n none later = record later { calls = suc later.calls }
failed_to_measure r n (some e) later = record {
  reply = record r { error = some e };
  retries = n;
  calls = 1;
}

unfoldable pub ask : (ℕ → Reply) → ℕ → ℕ → Asked
ask reply zero n = record { reply = reply n; retries = n; calls = 1 }
ask reply (suc left) n =
    let r = reply n in
    let later = ask reply left (suc n) in
    if not r.is_overflow || r.is_done || not (is_empty r.text) || not r.shrinks
    then record { reply = r; retries = n; calls = 1 }
    else failed_to_measure r (suc n) r.measure_error later

-- `strings.HasPrefix`
unfoldable pub has_prefix : String → String → Bool
has_prefix s String.[] = true
has_prefix String.[] (String.◌∷◌ d p) = false
has_prefix (String.◌∷◌ c s) (String.◌∷◌ d p) = code c == code d && has_prefix s p

-- `nativeParsed`, and the final text that it may hold.
unfoldable pub native_parsed : Agent → Reply → Parsed
native_parsed a r = elim r.calls [
  | c ∷ cs ↦ record { kind = tools; calls = c ∷ cs; text = "" }
  | [] ↦
      if is_empty (a.trim r.text)
      then record {
        kind = retry;
        calls = [];
        text = "The last response was empty. Return a final answer or use an available tool.";
      }
      else (if has_prefix (a.trim r.text) "<final>"
          then a.parse (a.trim r.text)
          else record { kind = final; calls = []; text = a.trim r.text })
]

unfoldable pub parsed : Agent → Reply → Parsed
parsed a r = if a.is_native then native_parsed a r else a.parse r.text
