-- ===== src/Turn/Batch.antt =====
-- internal/runtime/tool_batch.go: `executeToolBatch`. What the tools, the context and the disk do is a
-- script for each group of calls. Outcomes carry the state that they leave.
pub mod Accepts
pub mod Complete
pub mod Whole
use gopherharness.Base.{
  ℕ, zero, suc, ◌+◌, ◌-◌, ltb, String, str_eq, Bool, true, false, not, ◌&&◌, ◌||◌, Option, none,
  some, List, [], ◌∷◌, ◌++◌, length, take, drop, if◌then◌else◌,
}
use gopherharness.Recovery.{Call, Message}
use gopherharness.Tools.{
  ToolResult, Execution, returned, panicked, failed_call, is_safe_read, group_size,
  run_indexed_batch,
}
use gopherharness.Turn.{TaskState, LoopGuard, Agent, observe, accept_task, receipt}

-- The fields of `approvalContinuation` that change.
pub record Continuation : Type 0 where
  pub next : ℕ
  pub executing : Bool
  pub pending_id : String
  pub task : TaskState
  pub guard : LoopGuard
  pub buffered : List Message
  pub buffered_task : Option TaskState
  pub buffered_guard : Option LoopGuard
  pub buffered_next : ℕ

pub record Batch : Type 0 where
  pub messages : List Message
  pub task : TaskState
  pub guard : LoopGuard
  pub continuation : Continuation
  pub saved : Option Continuation

pub data Stop : Type 0 where
  done : String → Stop
  pending : String → String → Stop
  continuation_failed session_failed checkpoint_failed task_failed out_of_fuel : Stop

pub data Outcome : Type 0 where
  stopped : Stop → Batch → Outcome
  went_on : Batch → Outcome

abbrev pub and_then : Outcome → (Batch → Outcome) → Outcome
and_then (stopped s b) f = stopped s b
and_then (went_on b) f = f b

-- One group: the context's error before and after it, whether its first tool is risky, what the
-- tools do, and which writes succeed.
pub record Script : Type 0 where
  pub done_before : Option String
  pub is_risky : Bool
  pub save_start : Bool
  pub done_at : ℕ → Option String
  pub execute : ℕ → Call → Execution
  pub done_after_tool : ℕ → Option String
  pub message_id : ℕ → String
  pub now : ℕ → ℕ
  pub save_pending : Bool
  pub write_pending : Bool
  pub save_buffered : Bool
  pub redact : String → String
  pub save_session : Bool
  pub write_checkpoint : Bool
  pub write_task : Bool
  pub save_end : Bool
  pub done_after : Option String

-- `blocked[i]`
abbrev pub is_blocked : List Bool → ℕ → Bool
is_blocked [] i = true
is_blocked (b ∷ bs) zero = b
is_blocked (b ∷ bs) (suc i) = is_blocked bs i

abbrev cancel : String → ToolResult → ToolResult
cancel e r =
    if str_eq r.status "pending"
    then r
    else record r { status = "error"; error = e; error_code = "cancelled" }

abbrev after_tool : Option String → Execution → Execution
after_tool none x = x
after_tool (some e) (returned r) = returned (cancel e r)
after_tool (some e) (panicked p) = panicked p

-- The function that `RunIndexedBatch` calls.
unfoldable pub tool_run : Script → List Bool → LoopGuard → ℕ → Call → Execution
tool_run s blocked g i c =
    if is_blocked blocked i || g.final_only
    then returned (failed_call "tool step budget exhausted; do not retry" "step_limit" c)
    else after_tool (s.done_after_tool i) (s.execute i c)

abbrev waiting : String → Batch → Batch
waiting id b =
    let t : TaskState = record b.task { status = "waiting_approval" } in
    record b {
      task = t;
      continuation = record b.continuation {
        pending_id = id;
        executing = false;
        task = t;
        guard = b.guard;
      };
    }

abbrev save : Batch → Batch
save b = record b { saved = some b.continuation }

-- The branch of a result that waits for an approval.
unfoldable pub suspend : Script → ToolResult → Batch → Outcome
suspend s r b =
    let w = waiting r.approval_id b in
    if not s.save_pending
    then stopped continuation_failed w
    else (if not s.write_pending
        then stopped task_failed (save w)
        else stopped (pending w.continuation.pending_id r.error) (save w))

abbrev uncertain : Batch → Outcome
uncertain b =
    stopped
      (pending b.continuation.pending_id "tool receipt persistence failed; reconcile before retry")
      (record b { task = record b.task { status = "waiting_approval" } })

unfoldable pub accept : Agent → Script → ℕ → Call → Bool → ToolResult → Batch → Batch
accept a s i c blocked r b = record b {
  guard = observe a c r b.guard;
  task = accept_task a c r (blocked || str_eq r.error_code "step_limit") b.task;
  messages = b.messages ++ (receipt a (s.message_id i) (s.now i) c r ∷ []);
}

-- The loop over the results of a group.
unfoldable pub accept_all :
    Agent → Script → ℕ → List ToolResult → List Call → List Bool → Batch → Outcome
accept_all a s i (r ∷ rs) (c ∷ cs) blocked b =
    let rest =
      accept_all a s (suc i) rs cs (drop 1 blocked) (accept a s i c (is_blocked blocked 0) r b) in
    if str_eq r.status "pending"
    then suspend s r b
    else (if str_eq r.error_code "receipt_unknown" || str_eq r.error_code "effect_unknown"
        then uncertain b
        else rest)
accept_all a s i [] cs blocked b = went_on b
accept_all a s i (r ∷ rs) [] blocked b = went_on b

abbrev pub redacted : (String → String) → List Message → List Message
redacted f [] = []
redacted f (m ∷ ms) = record m { content = f m.content } ∷ redacted f ms

abbrev pub buffer : Script → ℕ → ℕ → Batch → Batch
buffer s ledger_start end b = record b {
  continuation = record b.continuation {
    buffered = redacted s.redact (drop ledger_start b.messages);
    buffered_task = some b.task;
    buffered_guard = some b.guard;
    buffered_next = end;
  };
}

-- `if durableBatch { ... saveContinuation }`
abbrev pub save_if : Bool → Bool → Batch → Outcome
save_if durable ok b =
    if not durable
    then went_on b
    else (if ok then went_on (save b) else stopped continuation_failed b)

abbrev write_if : Bool → Stop → Batch → Outcome
write_if ok s b = if ok then went_on b else stopped s b

abbrev pub finish_group : ℕ → Batch → Batch
finish_group end b = record b {
  continuation = record b.continuation {
    next = end;
    executing = false;
    buffered = [];
    buffered_task = none;
    buffered_guard = none;
    task = b.task;
    guard = b.guard;
  };
}

abbrev pub check_context : Option String → Batch → Outcome
check_context none b = went_on b
check_context (some e) b = stopped (done e) b

abbrev pub set_executing : Batch → Batch
set_executing b = record b { continuation = record b.continuation { executing = true } }

-- An interrupted tool that may have written is not run again.
abbrev pub resumable : Agent → Script → List Call → Batch → Outcome
resumable a s [] b = went_on b
resumable a s (c ∷ cs) b =
    if b.continuation.executing && not (is_safe_read a.registry c) && not s.is_risky
    then stopped
        (pending b.continuation.pending_id
          "interrupted non-read tool has no durable receipt; reconcile before retry")
        b
    else went_on b

-- The writes behind the results.
unfoldable pub persist : Bool → Script → ℕ → ℕ → Batch → Outcome
persist durable s ledger_start end b =
    and_then (save_if durable s.save_buffered (if durable then buffer s ledger_start end b else b))
      λ b. and_then (write_if s.save_session session_failed b) λ b.
        and_then (write_if s.write_checkpoint checkpoint_failed b) λ b.
          and_then (write_if s.write_task task_failed b) λ b.
            and_then (save_if durable s.save_end (finish_group end b))
              λ b. check_context s.done_after b

-- The body of the loop, for the calls from `start` on.
unfoldable pub results : Agent → Script → List Call → List Bool → LoopGuard → List ToolResult
results a s group blocked g = run_indexed_batch a.registry 4 s.done_at (tool_run s blocked g) group

unfoldable pub group : Agent → Bool → Script → List Call → List Bool → Batch → Outcome
group a durable s calls blocked b =
    let n = group_size a.registry 4 calls in
    let start = b.continuation.next in
    and_then (check_context s.done_before b) λ b. and_then (resumable a s calls b) λ b.
      and_then (save_if durable s.save_start (set_executing b)) λ b.
        and_then
          (accept_all a s 0 (results a s (take n calls) blocked b.guard) (take n calls) blocked b)
          λ t. persist durable s (length b.messages) (start + n) t

-- The loop, on fuel; `scripts` is indexed by the call at which a group starts.
unfoldable pub groups : Agent → Bool → (ℕ → Script) → List Call → List Bool → ℕ → Batch → Outcome
groups a durable scripts calls blocked zero b =
    if ltb b.continuation.next (length calls) then stopped out_of_fuel b else went_on b
groups a durable scripts calls blocked (suc fuel) b =
    let start = b.continuation.next in
    let rest =
      and_then (group a durable (scripts start) (drop start calls) (drop start blocked) b)
        (groups a durable scripts calls blocked fuel) in
    if ltb start (length calls) then rest else went_on b

abbrev pub fresh : TaskState → LoopGuard → Continuation
fresh t g = record {
  next = 0;
  executing = false;
  pending_id = "";
  task = t;
  guard = g;
  buffered = [];
  buffered_task = none;
  buffered_guard = none;
  buffered_next = 0;
}

abbrev pub clear_if : Bool → Bool → Batch → Outcome
clear_if durable ok b =
    if not durable
    then went_on b
    else (if ok then went_on (record b { saved = none }) else stopped continuation_failed b)

-- `executeToolBatch` of calls that are new (`c == nil`), and of calls that go on.
unfoldable pub execute_new :
    Agent → Bool → Bool → (ℕ → Script) → List Call → List Bool → Batch → Outcome
execute_new a save_ok clear_ok scripts calls blocked b =
    and_then (save_if a.async_approval save_ok (record b { continuation = fresh b.task b.guard }))
      λ b.
        and_then (groups a a.async_approval scripts calls blocked (length calls) b)
          λ b. clear_if a.async_approval clear_ok b

unfoldable pub execute_resumed :
    Agent → Bool → (ℕ → Script) → List Call → List Bool → Batch → Outcome
execute_resumed a clear_ok scripts calls blocked b =
    and_then (groups a true scripts calls blocked (length calls) b) λ b. clear_if true clear_ok b
