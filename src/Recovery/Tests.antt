-- ===== src/Recovery/Tests.antt =====
-- A session cut off while two tools ran (internal/runtime/recovery.go), and the theorems at inputs
-- that meet their hypotheses.
use gopherharness.Base.{String, ◌≡◌, refl, none, inr, List, [], ◌∷◌, map}
use gopherharness.Closure.{validate_closure}
use gopherharness.Recovery.{Call, Message, State, close_interrupted, view, unknown_outcome}
use gopherharness.Recovery.Repair.{close_interrupted-validate_closure}
use gopherharness.Recovery.Untouched.{Unchanged, close_interrupted-Unchanged}

abbrev call : String → Call
call id = record { id = id; name = "write_file"; args = "{}" }

abbrev asking : Message
asking = record {
  id = "";
  role = "assistant";
  calls = call "a" ∷ call "b" ∷ [];
  tool_call_id = "";
  content = "";
  created_at = 5;
}

abbrev answering : String → Message
answering id = record {
  id = "";
  role = "tool";
  calls = [];
  tool_call_id = id;
  content = "ok";
  created_at = 6;
}

abbrev asked_again : Message
asked_again = record {
  id = "";
  role = "user";
  calls = [];
  tool_call_id = "";
  content = "go on";
  created_at = 7;
}

abbrev cut_off : List Message
cut_off = asking ∷ answering "b" ∷ asked_again ∷ []

abbrev repaired_session : List Message
repaired_session = asking ∷ answering "b" ∷ unknown_outcome 9 (call "a") ∷ asked_again ∷ []

abbrev repaired_state : State
repaired_state = record {
  out = repaired_session;
  pending = [];
  got = [];
  seen = "b" ∷ "a" ∷ [];
  repaired = 1;
}

cut_off_repaired : close_interrupted 9 cut_off ≡ inr repaired_state
unfolding close_interrupted gopherharness.Recovery.loop gopherharness.Recovery.message
    gopherharness.Recovery.before gopherharness.Recovery.flush gopherharness.Recovery.missing
    gopherharness.Recovery.add_calls gopherharness.Recovery.take_receipt
    gopherharness.Closure.contains
cut_off_repaired = refl

close_interrupted-validate_closure_example : validate_closure (map view repaired_session) ≡ none
unfolding gopherharness.Recovery.Sync.is_well_formed
close_interrupted-validate_closure_example =
    close_interrupted-validate_closure 9 cut_off (refl, (refl, (refl, tt))) cut_off_repaired

close_interrupted-Unchanged_example :
    (s : State) × (close_interrupted 10 repaired_session ≡ inr s) × Unchanged repaired_session s
close_interrupted-Unchanged_example =
    close_interrupted-Unchanged 10 repaired_session close_interrupted-validate_closure_example
