-- ===== src/Tools.antt =====
-- internal/tools/batch.go: capabilities of tools, and `RunIndexedBatch`, which overlaps reads. What
-- the tools return, and when the context is done, are arguments.
pub mod Groups
mod Tests
use gopherharness.Base.{
  ℕ, zero, suc, ◌+◌, ◌-◌, max, String, str_eq, Bool, true, false, ◌&&◌, ◌||◌, Option, none, some,
  List, [], ◌∷◌, ◌++◌, map, length, take, drop, if◌then◌else◌,
}
use gopherharness.Base.Table.{Table, lookup}
use gopherharness.Recovery.{Call}

pub data Effect : Type 0 where
  unknown read write execute external : Effect

pub record Capability : Type 0 where
  pub effect : Effect
  pub concurrency_safe : Bool

pub record ToolResult : Type 0 where
  pub name : String
  pub status : String
  pub output : String
  pub error : String
  pub error_code : String
  pub affected_paths : List String
  pub approval_id : String
  pub exited_well : Bool

-- `Registry.Capability`
unfoldable pub capability : Table Capability → String → Capability
capability r name = elim (lookup name r) [
  | none ↦ record { effect = unknown; concurrency_safe = false }
  | some c ↦ c
]

abbrev is_read : Effect → Bool
is_read read = true
is_read _ = false

-- `c.Effect == Read && c.ConcurrencySafe`
abbrev pub is_safe_read : Table Capability → Call → Bool
is_safe_read r c = is_read (capability r c.name).effect && (capability r c.name).concurrency_safe

-- How many of these calls, `room` at most, join a group of reads.
unfoldable pub safe_prefix : Table Capability → ℕ → List Call → ℕ
safe_prefix r zero cs = 0
safe_prefix r (suc room) [] = 0
safe_prefix r (suc room) (c ∷ cs) =
    let more = safe_prefix r room cs in if is_safe_read r c then suc more else 0

-- `end - i`, for the calls from i on.
unfoldable pub group_size : Table Capability → ℕ → List Call → ℕ
group_size r limit [] = 0
group_size r limit (c ∷ cs) = if is_safe_read r c then suc (safe_prefix r (limit - 1) cs) else 1

abbrev pub failed_call : String → String → Call → ToolResult
failed_call error code c = record {
  name = c.name;
  status = "error";
  output = "";
  error = error;
  error_code = code;
  affected_paths = [];
  approval_id = "";
  exited_well = false;
}

-- What a tool does: it returns, or it panics.
pub data Execution : Type 0 where
  returned : ToolResult → Execution
  panicked : String → Execution

abbrev pub settled : Call → Execution → ToolResult
settled c (returned r) = r
settled c (panicked p) = failed_call p "internal_panic" c

unfoldable pub run_group : (ℕ → Call → Execution) → ℕ → List Call → List ToolResult
run_group run i [] = []
run_group run i (c ∷ cs) = settled c (run i c) ∷ run_group run (suc i) cs

abbrev stops : ToolResult → Bool
stops r = str_eq r.error_code "cancelled" || str_eq r.error_code "internal_panic"

abbrev pub is_aborted : List ToolResult → Bool
is_aborted [] = false
is_aborted (r ∷ rs) = stops r || is_aborted rs

unfoldable pub cancelled : String → List Call → List ToolResult
cancelled error cs = map (failed_call error "cancelled") cs

-- The loop from call i on. `done i` is the error of the context there.
unfoldable pub run_from :
    Table Capability
    → ℕ
    → (ℕ → Option String)
    → (ℕ → Call → Execution)
    → ℕ
    → ℕ
    → List Call
    → List ToolResult
run_from r limit done run fuel i [] = []
run_from r limit done run zero i (c ∷ cs) = []
run_from r limit done run (suc fuel) i (c ∷ cs) =
    let n = group_size r limit (c ∷ cs) in
    let results = run_group run i (take n (c ∷ cs)) in
    let rest = run_from r limit done run fuel (i + n) (drop n (c ∷ cs)) in
    elim (done i) [
      | some e ↦ cancelled e (c ∷ cs)
      | none ↦
          results
          ++ (if is_aborted results then cancelled "batch cancelled" (drop n (c ∷ cs)) else rest)
    ]

unfoldable pub run_indexed_batch :
    Table Capability
    → ℕ
    → (ℕ → Option String)
    → (ℕ → Call → Execution)
    → List Call
    → List ToolResult
run_indexed_batch r limit done run cs = run_from r (max 1 limit) done run (length cs) 0 cs
