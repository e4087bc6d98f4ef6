-- ===== src/Outbox/Tries.antt =====
-- How often `flush` of internal/memory/outbox.go tries a job and records the result. A try that is cut
-- off by a shutdown, or whose record the disk loses, is none of these.
use gopherharness.Base.{
  ℕ, ◌+◌, ◌-◌, String, str_eq, ◌||◌, Option, none, some, List, [], ◌∷◌, ltb, if◌then◌else◌,
}
use gopherharness.Base.Table.{lookup}
use gopherharness.Outbox.{
  WriteJob, WriteState, WriterOptions, Commit, not_committed, commit_error, committed,
}
use gopherharness.Outbox.Retries.{Op, prepares, flushes, retries, apply}

-- The tries that a job has left in its present round.
abbrev pub tries_left : ℕ → Option WriteJob → ℕ
tries_left max none = max
tries_left max (some j) = if j.is_done || j.is_failed then 0 else max - j.attempts

-- Whether `flush` reaches the report of a job's turn, and finds it committed or unreadable.
abbrev pub is_try : Commit → ℕ
is_try not_committed = 0
is_try (commit_error e) = 1
is_try (committed err) = 1

abbrev pub tried_job : Option WriteJob → ℕ → Commit → ℕ
tried_job none now c = 0
tried_job (some j) now c =
    if j.is_done || j.is_failed || ltb now j.next_attempt then 0 else is_try c

-- The tries of one job in a step, and whether an operator reopens it.
unfoldable pub tried_by : String → Op → WriteState → ℕ
tried_by key (prepares closed turn session evidence) s = 0
tried_by key (flushes now c k) s = if str_eq k key then tried_job (lookup k s.jobs) now c else 0
tried_by key (retries turn) s = 0

unfoldable pub reopens : String → Op → ℕ
reopens key (prepares closed turn session evidence) = 0
reopens key (flushes now c k) = 0
reopens key (retries turn) = if str_eq turn key then 1 else 0

unfoldable pub reopenings : String → List Op → ℕ
reopenings key [] = 0
reopenings key (op ∷ ops) = reopens key op + reopenings key ops

module _ (base clean : String → String) (o : WriterOptions) where
  unfoldable pub tries : String → List Op → WriteState → ℕ
  tries key [] s = 0
  tries key (op ∷ ops) s = tried_by key op s + tries key ops (apply base clean o op s)

  abbrev left : String → WriteState → ℕ
  left key s = tries_left o.max_attempts (lookup key s.jobs)
