-- ===== src/Durable/Tests.antt =====
-- Replacements of a counter's file (internal/durable/file.go), and the theorem at a concrete run.
use gopherharness.Base.{ℕ, ◌+◌, ◌≡◌, refl, true, false, some, ltb, if◌then◌else◌}
use gopherharness.Durable.{Verdict, refuse, accept, unsynced, healthy, update}
use gopherharness.Durable.Rename.{
  Step, Answer, works, fails, dies, sync, write, absent, whole, Progress, replace_file,
}
use gopherharness.Durable.Refined.{Refines, replace_file-Refines}

-- Counts up to three, and refuses with the count.
abbrev tick : ℕ → Verdict ℕ ℕ ℕ
tick n = if ltb n 3 then accept n (n + 1) else refuse n

ticked : (update 0 tick unsynced (some 2)).file ≡ some 3
unfolding update
ticked = refl

stopped : (update 0 tick healthy (some 3)).file ≡ some 3
unfolding update
stopped = refl

-- The machine ends before the sync.
abbrev ends_early : Step → Answer
ends_early sync = dies
ends_early _ = works

-- The disk is full.
abbrev is_full : Step → Answer
is_full write = fails
is_full _ = works

abbrev replaced : (Step → Answer) → Progress ℕ
replaced disk = replace_file disk 3 (record { target = whole 2; temporary = absent })

old_kept : (replaced ends_early).directory.target ≡ whole 2
unfolding replace_file
old_kept = refl

cleaned_up : replaced is_full ≡ record {
  ok = false;
  is_running = true;
  directory = record { target = whole 2; temporary = absent };
}
unfolding replace_file
cleaned_up = refl

replace_file-Refines_example : Refines ℕ ℕ 2 3 (some 2) (replaced ends_early)
replace_file-Refines_example = replace_file-Refines ℕ ℕ 2 3 (some 2) ends_early
