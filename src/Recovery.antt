-- ===== src/Recovery.antt =====
-- internal/runtime/recovery.go: `closeInterruptedExchanges`. The maps `got` and `seen` are lists of
-- the identifiers that they hold; the current time is an argument.
pub mod Sync
pub mod Calls
pub mod Kept
pub mod Repair
pub mod Untouched
mod Tests
use Prim.Native.String.{◌++◌ as append}
use gopherharness.Base.{
  ℕ, ◌+◌, String, str_eq, Bool, true, false, not, ◌&&◌, ◌||◌, List, [], ◌∷◌, ◌++◌, map, length,
  is_empty, ◌⊎◌, inl, inr, if◌then◌else◌,
}
use gopherharness.Closure.{contains}
use gopherharness.Closure

pub record Call : Type 0 where
  pub id : String
  pub name : String
  pub args : String

pub record Message : Type 0 where
  pub id : String
  pub role : String
  pub calls : List Call
  pub tool_call_id : String
  pub content : String
  pub created_at : ℕ

pub data Error : Type 0 where
  repeated_call orphan_receipt : Error

abbrev pub ids : List Call → List String
ids [] = []
ids (c ∷ cs) = c.id ∷ ids cs

-- The variables of the loop.
pub record State : Type 0 where
  pub out : List Message
  pub pending : List Call
  pub got : List String
  pub seen : List String
  pub repaired : ℕ

-- The receipt that stands in for the one that is missing.
abbrev pub unknown_outcome : ℕ → Call → Message
unknown_outcome now c = record {
  id = "";
  role = "tool";
  calls = [];
  tool_call_id = c.id;
  content = append "Tool " (
      append c.name (
        append " has no durable receipt after interruption. Outcome is unknown; do not repeat a "
          "write. Inspect the workspace or reconcile the external operation first."));
  created_at = now;
}

unfoldable pub missing : ℕ → List Call → List String → List Message
missing now [] got = []
missing now (c ∷ cs) got =
    let rest = missing now cs got in
    if contains c.id got then rest else unknown_outcome now c ∷ rest

-- The function `flush`.
unfoldable pub flush : ℕ → State → State
flush now s = record {
  out = s.out ++ missing now s.pending s.got;
  pending = [];
  got = [];
  seen = s.seen;
  repaired = s.repaired + length (missing now s.pending s.got);
}

abbrev pub added : Call → State → State
added c s = record s { pending = s.pending ++ (c ∷ []); seen = c.id ∷ s.seen }

unfoldable pub add_calls : List Call → State → Error ⊎ State
add_calls [] s = inr s
add_calls (c ∷ cs) s =
    let skipped = add_calls cs s in
    let rest = add_calls cs (added c s) in
    if is_empty c.id then skipped else (if contains c.id s.seen then inl repeated_call else rest)

unfoldable pub take_receipt : Message → State → Error ⊎ State
take_receipt m s =
    if str_eq m.role "tool" && not (is_empty m.tool_call_id)
    then (if not (contains m.tool_call_id (ids s.pending)) || contains m.tool_call_id s.got
        then inl orphan_receipt
        else inr (record s { got = m.tool_call_id ∷ s.got }))
    else inr s

abbrev pub push : Message → State → State
push m s = record s { out = s.out ++ (m ∷ []) }

abbrev pub and_then : Error ⊎ State → (State → Error ⊎ State) → Error ⊎ State
and_then (inl e) f = inl e
and_then (inr s) f = f s

-- The body of the loop.
unfoldable pub before : ℕ → Message → State → State
before now m s = if str_eq m.role "tool" then s else flush now s

unfoldable pub message : ℕ → Message → State → Error ⊎ State
message now m s =
    and_then (add_calls m.calls (before now m s))
      λ t. and_then (take_receipt m t) λ u. inr (push m u)

unfoldable pub loop : ℕ → List Message → State → Error ⊎ State
loop now [] s = inr s
loop now (m ∷ ms) s = and_then (message now m s) (loop now ms)

abbrev pub start : State
start = record { out = []; pending = []; got = []; seen = []; repaired = 0 }

unfoldable pub close_interrupted : ℕ → List Message → Error ⊎ State
close_interrupted now ms = and_then (loop now ms start) λ s. inr (flush now s)

-- What `ValidateClosure` reads of a message.
unfoldable pub view : Message → Closure.Message
view m = record { role = m.role; tool_calls = ids m.calls; tool_call_id = m.tool_call_id }
