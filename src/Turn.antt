-- ===== src/Turn.antt =====
-- The state of a turn of internal/runtime: the task, the guard of internal/runtime/loop_guard.go, and
-- how internal/runtime/tool_batch.go accepts the result of a tool. Identifiers and times of a task
-- are left out; the digest of a failure, the reading of a command and the parser of a model's text are
-- arguments.
pub mod Batch
pub mod Received
pub mod Loop
pub mod Respond
pub mod Run
mod Tests
use gopherharness.Base.{
  ℕ, suc, ◌+◌, ltb, leb, String, str_eq, Bool, true, false, not, ◌&&◌, ◌||◌, Option, none, some,
  List, [], ◌∷◌, ◌++◌, if◌then◌else◌, is_empty,
}
use gopherharness.Base.Table.{Table, lookup, insert}
use gopherharness.Closure.{contains}
use gopherharness.Readiness.{Reason, Decision}
use gopherharness.Recovery.{Call, Message}
use gopherharness.Tools.{Capability, ToolResult}

pub record TaskState : Type 0 where
  pub status : String
  pub tool_steps : ℕ
  pub attempts : ℕ
  pub last_tool : String
  pub stop_reason : String
  pub final_answer : String
  pub changed_paths : List String
  pub verification_attempted : Bool
  pub verification_succeeded : Bool
  pub readiness_reminded : Bool

pub record LoopGuard : Type 0 where
  pub failures : Table ℕ
  pub final_only : Bool
  pub final_calls : ℕ
  pub reason : String

-- internal/protocol: what a text asks for.
pub data Kind : Type 0 where
  tools final retry : Kind

pub record Parsed : Type 0 where
  pub kind : Kind
  pub calls : List Call
  pub text : String

-- The parts of an agent that a turn reads. A limit below 0 acts as 0.
pub record Agent : Type 0 where
  pub max_steps : ℕ
  pub max_attempts : ℕ
  pub async_approval : Bool
  pub registry : Table Capability
  pub readiness : String
  pub has_fact_writer : Bool
  pub digest : Call → ToolResult → String
  pub render : ToolResult → String
  pub is_verification : Call → Bool
  pub is_native : Bool
  pub parse : String → Parsed
  pub trim : String → String
  pub sign : List Reason → String
  pub notice : Decision → String

abbrev count_of : Option ℕ → ℕ
count_of none = 0
count_of (some n) = n

abbrev counted : String → ℕ → LoopGuard → LoopGuard
counted key n g = record g {
  failures = insert key n g.failures;
  final_only = g.final_only || leb 2 n;
  reason = if leb 2 n then "same tool and arguments failed with the same error twice" else g.reason;
}

-- `loopGuard.observe`
unfoldable pub observe : Agent → Call → ToolResult → LoopGuard → LoopGuard
observe a c r g =
    if str_eq r.status "ok" || str_eq r.status "pending"
    then g
    else counted (a.digest c r) (suc (count_of (lookup (a.digest c r) g.failures))) g

-- `appendUnique`
unfoldable pub append_unique : List String → List String → List String
append_unique existing [] = existing
append_unique existing (v ∷ vs) =
    let with_value = append_unique (existing ++ (v ∷ [])) vs in
    let without = append_unique existing vs in
    if not (is_empty v) && not (contains v existing) then with_value else without

abbrev pub no_paths : List String → Bool
no_paths [] = true
no_paths (p ∷ ps) = false

abbrev pub stepped : Bool → Call → TaskState → TaskState
stepped blocked c t = record t {
  tool_steps = if blocked then t.tool_steps else suc t.tool_steps;
  last_tool = c.name;
}

abbrev pub changed : ToolResult → TaskState → TaskState
changed r t = if no_paths r.affected_paths then t else record t {
  changed_paths = append_unique t.changed_paths r.affected_paths;
  verification_attempted = false;
  verification_succeeded = false;
}

abbrev pub verified : Agent → Call → ToolResult → TaskState → TaskState
verified a c r t =
    if str_eq c.name "run_shell" && a.is_verification c
    then record t {
      verification_attempted = true;
      verification_succeeded = str_eq r.status "ok" && r.exited_well;
    }
    else t

-- What `acceptToolResult` does to the task.
unfoldable pub accept_task : Agent → Call → ToolResult → Bool → TaskState → TaskState
accept_task a c r blocked t = verified a c r (changed r (stepped blocked c t))

-- The message that it appends.
abbrev pub receipt : Agent → String → ℕ → Call → ToolResult → Message
receipt a id now c r = record {
  id = id;
  role = "tool";
  calls = [];
  tool_call_id = c.id;
  content = a.render r;
  created_at = now;
}
