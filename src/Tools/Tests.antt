-- ===== src/Tools/Tests.antt =====
-- Batches of internal/tools/batch.go: two reads, a write and a read.
use gopherharness.Base.{
  ℕ, zero, suc, ◌≡◌, refl, arith, String, Bool, true, false, Option, none, some, List, [], ◌∷◌,
}
use gopherharness.Base.Table.{Table}
use gopherharness.Recovery.{Call}
use gopherharness.Tools.{
  Capability, read, write, ToolResult, Execution, returned, panicked, run_group, run_indexed_batch,
  group_size, is_aborted, failed_call,
}
use gopherharness.Tools.Groups.{IsGroup, group_size-IsGroup}

abbrev registry : Table Capability
registry =
    ("read_file", record { effect = read; concurrency_safe = true })
    ∷ ("write_file", record { effect = write; concurrency_safe = false })
    ∷ []

abbrev call : String → Call
call name = record { id = "c"; name = name; args = "{}" }

abbrev calls : List Call
calls = call "read_file" ∷ call "read_file" ∷ call "write_file" ∷ call "read_file" ∷ []

abbrev fine : Call → ToolResult
fine c = record (failed_call "" "" c) { status = "ok" }

abbrev run_well : ℕ → Call → Execution
run_well i c = returned (fine c)

-- The third call panics.
abbrev run_badly : ℕ → Call → Execution
run_badly (suc (suc zero)) c = panicked "index out of range"
run_badly i c = returned (fine c)

last_cancelled :
    run_indexed_batch registry 4 (λ _. none) run_badly calls
    ≡ fine (call "read_file")
      ∷ fine (call "read_file")
      ∷ failed_call "index out of range" "internal_panic" (call "write_file")
      ∷ failed_call "batch cancelled" "cancelled" (call "read_file")
      ∷ []
unfolding run_indexed_batch gopherharness.Tools.run_from gopherharness.Tools.run_group
    gopherharness.Tools.group_size gopherharness.Tools.safe_prefix gopherharness.Tools.capability
    gopherharness.Tools.cancelled gopherharness.Base.Table.lookup
last_cancelled = refl

group_size-IsGroup_example : IsGroup registry 2 calls (group_size registry 2 calls)
group_size-IsGroup_example =
    group_size-IsGroup registry 2 (call "read_file")
      (call "read_file" ∷ call "write_file" ∷ call "read_file" ∷ []) (omega arith)
