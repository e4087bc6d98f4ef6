-- ===== src/Closure.antt =====
-- internal/contextbuilder/closure.go: `ValidateClosure`. The sets `pending` and `seen` are lists of
-- identifiers.
pub mod Balance
mod Tests
use gopherharness.Base.{
  ℕ, ◌+◌, String, str_eq, Bool, true, false, not, ◌&&◌, ◌||◌, Option, none, some, List, [], ◌∷◌,
  ◌++◌, is_empty, ◌⊎◌, inl, inr, if◌then◌else◌,
}

-- The part of a message that the check reads: its role, the ids of its calls and of its result.
pub record Message : Type 0 where
  pub role : String
  pub tool_calls : List String
  pub tool_call_id : String

pub data Error : Type 0 where
  incomplete_before_next calls_require_assistant missing_result_id invalid_call_id : Error
  orphan_result incomplete : Error

unfoldable pub contains : String → List String → Bool
contains x [] = false
contains x (y ∷ ys) = str_eq y x || contains x ys

-- `delete`
unfoldable pub remove : String → List String → List String
remove x [] = []
remove x (y ∷ ys) = if str_eq y x then ys else y ∷ remove x ys

abbrev pub none_left : List String → Bool
none_left [] = true
none_left (x ∷ xs) = false

-- The loop over the calls of a message.
pub record Sets : Type 0 where
  pub pending : List String
  pub seen : List String

unfoldable pub add_calls : List String → Sets → Option Sets
add_calls [] s = some s
add_calls (c ∷ cs) s =
    let rest = add_calls cs (record { pending = c ∷ s.pending; seen = c ∷ s.seen }) in
    if is_empty c || contains c s.seen then none else rest

-- The result that a message carries.
unfoldable pub take_result : Message → List String → Option (List String)
take_result m pending =
    if is_empty m.tool_call_id
    then some pending
    else (if not (str_eq m.role "tool") || not (contains m.tool_call_id pending)
        then none
        else some (remove m.tool_call_id pending))

-- The conditions on a message that come before its calls.
unfoldable pub refused : Message → List String → Option Error
refused m pending =
    if not (str_eq m.role "tool") && not (none_left pending)
    then some incomplete_before_next
    else (if not (none_left m.tool_calls) && not (str_eq m.role "assistant")
        then some calls_require_assistant
        else (if str_eq m.role "tool" && is_empty m.tool_call_id && not (none_left pending)
            then some missing_result_id
            else none))

abbrev pub set_pending : List String → Sets → Sets
set_pending p s = record s { pending = p }

-- A message, with the sets before and after it.
abbrev pub after_result : Option (List String) → Sets → Error ⊎ Sets
after_result none s = inl orphan_result
after_result (some p) s = inr (set_pending p s)

abbrev pub after_calls : Option Sets → Message → Error ⊎ Sets
after_calls none m = inl invalid_call_id
after_calls (some s) m = after_result (take_result m s.pending) s

abbrev pub after_guards : Option Error → Message → Sets → Error ⊎ Sets
after_guards (some e) m s = inl e
after_guards none m s = after_calls (add_calls m.tool_calls s) m

unfoldable pub message : Message → Sets → Error ⊎ Sets
message m s = after_guards (refused m s.pending) m s

-- The sets behind the messages, or the error of the first that is refused.
abbrev pub and_then : Error ⊎ Sets → (Sets → Error ⊎ Sets) → Error ⊎ Sets
and_then (inl e) f = inl e
and_then (inr s) f = f s

unfoldable pub run : List Message → Sets → Error ⊎ Sets
run [] s = inr s
run (m ∷ ms) s = and_then (message m s) (run ms)

abbrev pub verdict : Error ⊎ Sets → Option Error
verdict (inl e) = some e
verdict (inr s) = if none_left s.pending then none else some incomplete

unfoldable pub validate_closure : List Message → Option Error
validate_closure ms = verdict (run ms (record { pending = []; seen = [] }))
