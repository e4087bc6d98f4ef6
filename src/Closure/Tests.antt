-- ===== src/Closure/Tests.antt =====
-- An exchange of tool calls (internal/contextbuilder/closure.go), and the theorem at an input that
-- meets its hypothesis.
use gopherharness.Base.{String, ◌≡◌, ◌≤◌, refl, none, List, [], ◌∷◌}
use gopherharness.Closure.{Message, validate_closure, incomplete}
use gopherharness.Closure.Balance.{calls, answers, validate_closure-calls}

abbrev asking : Message
asking = record { role = "assistant"; tool_calls = "a" ∷ "b" ∷ []; tool_call_id = "" }

abbrev answering : String → Message
answering id = record { role = "tool"; tool_calls = []; tool_call_id = id }

abbrev exchange : List Message
exchange = asking ∷ answering "b" ∷ answering "a" ∷ []

exchange_accepted : validate_closure exchange ≡ none
unfolding validate_closure gopherharness.Closure.run gopherharness.Closure.message
    gopherharness.Closure.refused gopherharness.Closure.add_calls gopherharness.Closure.contains
    gopherharness.Closure.take_result gopherharness.Closure.remove
exchange_accepted = refl

validate_closure-calls_example :
    (answers "b" exchange ≡ calls "b" exchange) × (calls "b" exchange ≤ 1)
validate_closure-calls_example = validate_closure-calls "b" exchange exchange_accepted
