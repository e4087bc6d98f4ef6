-- ===== src/Readiness/Tests.antt =====
-- A final answer after an unverified change (internal/governance/readiness.go).
use gopherharness.Base.{String, true, false, [], ◌∷◌, List}
use gopherharness.Readiness.{Evidence, Reason, evaluate}
use gopherharness.Readiness.Gate.{Blocks, evaluate-Blocks}

abbrev changed : Evidence
changed = record {
  changed_paths = "main.go" ∷ [];
  attempted = true;
  succeeded = false;
  running_workers = "w1" ∷ [];
  reminder_sent = false;
}

abbrev unsigned : List Reason → String
unsigned rs = "0"

evaluate-Blocks_example : Blocks true (evaluate unsigned "strict" changed)
evaluate-Blocks_example = evaluate-Blocks unsigned "strict" changed
