-- ===== src/Turn/Respond.antt =====
-- internal/runtime/engine.go: what `runWithContinuation` does with the answer of the model.
use Prim.Native.String.{◌++◌ as append}
use gopherharness.Base.{
  ℕ, suc, ◌+◌, ltb, leb, String, str_eq, Bool, true, not, ◌&&◌, ◌||◌, Option, none, some, List, [],
  ◌∷◌, ◌++◌, if◌then◌else◌, is_empty,
}
use gopherharness.Closure.{contains}
use gopherharness.Readiness.{Decision, evaluate}
use gopherharness.Recovery.{Call, Message, ids}
use gopherharness.Turn.{Kind, tools, final, retry, Parsed, TaskState, LoopGuard, Agent}
use gopherharness.Turn.Batch.{Batch, Outcome, stopped, went_on, execute_new, fresh}
use gopherharness.Turn.Loop.{
  Turn, Reply, Attempt, answered, aborted, Step, next, leave, ended, and_then, check, finish_error,
  parsed,
}

abbrev pub plain_message : String → String → ℕ → Message
plain_message role content now = record {
  id = "";
  role = role;
  calls = [];
  tool_call_id = "";
  content = content;
  created_at = now;
}

abbrev pub append_messages : List Message → Turn → Turn
append_messages ms t = record t { messages = t.messages ++ ms }

abbrev pub retry_messages : Attempt → Reply → Parsed → List Message
retry_messages s r p =
    plain_message "assistant" r.text s.now ∷ plain_message "system" p.text s.now ∷ []

-- `case protocol.KindRetry`
unfoldable pub respond_retry : Attempt → Reply → Parsed → Turn → Step
respond_retry s r p t =
    let u = append_messages (retry_messages s r p) (record t { retries = suc t.retries }) in
    and_then (check s.save_retry aborted u) λ u.
      if leb 3 u.retries
      then finish_error "retry_limit_reached" "model output retry limit reached" u
      else next u

abbrev pub decision : Agent → Attempt → TaskState → Decision
decision a s t = evaluate a.sign a.readiness (record {
  changed_paths = t.changed_paths;
  attempted = t.verification_attempted;
  succeeded = t.verification_succeeded;
  running_workers = s.running_workers;
  reminder_sent = t.readiness_reminded;
})

-- The reminder in place of a final answer, which goes on with the loop.
unfoldable pub remind : Agent → Attempt → Decision → Turn → Step
remind a s d t =
    let u =
      append_messages (plain_message "system" (a.notice d) s.now ∷ [])
        (record t { task = record t.task { readiness_reminded = true } }) in
    check (s.write_notice && s.save_notice) aborted u

abbrev pub completed : String → Turn → Turn
completed answer t = record t {
  task = record t.task {
    status = "completed";
    stop_reason = "final_answer_returned";
    final_answer = answer;
  };
}

unfoldable pub prepare_facts : Agent → Attempt → Turn → Step
prepare_facts a s t =
    if not a.has_fact_writer
    then next t
    else elim s.prepare_error [ none ↦ next t | some e ↦ finish_error "persistence_error" e t ]

abbrev pub persisted : Bool → String → Turn → Step
persisted ok text t = if ok then next t else finish_error "persistence_error" text t

unfoldable pub finish_answer : Agent → Attempt → String → Turn → Step
finish_answer a s answer t =
    and_then
      (prepare_facts a s
        (append_messages (plain_message "assistant" answer s.now ∷ []) (completed answer t)))
      λ t. and_then (persisted s.write_checkpoint "checkpoint" t) λ t.
        and_then (persisted s.save_final "session" t) λ t.
          and_then (persisted s.write_final "task" t)
            λ t. and_then (check s.write_report aborted t) λ t. ended (answered answer) t

-- `case protocol.KindFinal`
unfoldable pub respond_final : Agent → Attempt → Parsed → Turn → Step
respond_final a s p t =
    let d = decision a s t.task in
    if str_eq d.action "runtime_notice" || str_eq d.action "block"
    then remind a s d t
    else finish_answer a s p.text t

unfoldable pub called_ids : List Message → List String
called_ids [] = []
called_ids (m ∷ ms) = ids m.calls ++ called_ids ms

abbrev pub consed : Call → Bool → Option (List Call × List Bool) → Option (List Call × List Bool)
consed c b none = none
consed c b (some (cs, bs)) = some (c ∷ cs, b ∷ bs)

-- A call without an id gets one from `NewID("call")`, whose stamp is a part of the script.
abbrev pub call_id : Attempt → ℕ → Call → String
call_id s i c = if is_empty c.id then append "call_" (s.call_id i) else c.id

-- The loop over the parsed calls: their ids, and which are blocked; `i` calls stand before them.
unfoldable pub number :
    Agent → Attempt → LoopGuard → ℕ → ℕ → List String → List Call → Option (List Call × List Bool)
number a s g steps i seen [] = some ([], [])
number a s g steps i seen (c ∷ cs) =
    let id = call_id s i c in
    let rest = number a s g steps (suc i) (id ∷ seen) cs in
    if contains id seen
    then none
    else consed (record c { id = id }) (g.final_only || ltb a.max_steps (steps + suc i)) rest

abbrev pub calling : Attempt → Reply → List Call → Message
calling s r cs = record {
  id = s.message_id;
  role = "assistant";
  calls = cs;
  tool_call_id = "";
  content = r.text;
  created_at = s.now;
}

abbrev pub as_batch : Turn → Batch
as_batch t = record {
  messages = t.messages;
  task = t.task;
  guard = t.guard;
  continuation = fresh t.task t.guard;
  saved = t.saved;
}

abbrev pub from_batch : Turn → Batch → Turn
from_batch t b = record t { messages = b.messages; task = b.task; guard = b.guard; saved = b.saved }

abbrev pub after_batch : Turn → Outcome → Step
after_batch t (stopped s b) = ended aborted (from_batch t b)
after_batch t (went_on b) = next (from_batch t b)

unfoldable pub run_calls : Agent → Attempt → Reply → List Call → List Bool → Turn → Step
run_calls a s r cs blocked t =
    and_then (check (not a.async_approval || s.is_freezeable) aborted t) λ t.
      and_then (persisted s.save_calls "session" (append_messages (calling s r cs ∷ []) t)) λ t.
        after_batch t (execute_new a s.save_batch s.clear_batch s.groups cs blocked (as_batch t))

abbrev pub after_number : Agent → Attempt → Reply → Option (List Call × List Bool) → Turn → Step
after_number a s r none t = finish_error "invalid_tool_call" "duplicate tool call ID" t
after_number a s r (some (cs, blocked)) t = run_calls a s r cs blocked t

-- `case protocol.KindTools`
unfoldable pub respond_tools : Agent → Attempt → Reply → Parsed → Turn → Step
respond_tools a s r p t =
    after_number a s r (number a s t.guard t.task.tool_steps 0 (called_ids t.messages) p.calls) t

abbrev pub by_kind : Agent → Attempt → Reply → Parsed → Kind → Turn → Step
by_kind a s r p tools t = respond_tools a s r p t
by_kind a s r p final t = respond_final a s p t
by_kind a s r p retry t = respond_retry s r p t

-- A failure of the provider does not replace the outcome of a turn that was already at its limits.
unfoldable pub respond : Agent → Attempt → Reply → Turn → Step
respond a s r t = elim r.error [
  | some e ↦
      if t.guard.final_only && not r.is_done
      then leave t
      else finish_error "model_error" (append "model: " e) t
  | none ↦ by_kind a s r (parsed a r) (parsed a r).kind t
]
