-- ===== src/Outbox/Tests.antt =====
-- A turn that is written to memory at the second attempt (internal/memory/outbox.go), and the theorems
-- at inputs that meet their hypotheses.
use gopherharness.Base.{◌≡◌, refl, true, false, none, some, List, [], ◌∷◌, String}
use gopherharness.Base.Table.{lookup}
use gopherharness.Outbox.{WriteJob, WriterOptions, committed, new_job}
use gopherharness.Outbox.Retries.{Op, prepares, flushes, retries, after}
use gopherharness.Outbox.Tries.{tries}
use gopherharness.Outbox.Finished.{after-lookup}

abbrev same : String → String
same s = s

abbrev two_tries : WriterOptions
two_tries = record { retry_base = 10; max_attempts = 2 }

abbrev written : List Op
written =
    prepares false "t1" "s" []
    ∷ flushes 5 (committed (some "busy")) "t1"
    ∷ flushes 20 (committed none) "t1"
    ∷ retries "t1"
    ∷ []

-- A job that fails twice is not tried a third time.
given_up :
    tries same same two_tries "t1"
      (prepares false "t1" "s" []
        ∷ flushes 5 (committed (some "busy")) "t1"
        ∷ flushes 50 (committed (some "busy")) "t1"
        ∷ flushes 90 (committed none) "t1"
        ∷ [])
      (record { jobs = [] })
    ≡ 2
unfolding tries gopherharness.Outbox.Tries.tried_by gopherharness.Outbox.Retries.apply
    gopherharness.Outbox.prepare gopherharness.Outbox.sanitized gopherharness.Outbox.flush_job
    gopherharness.Outbox.record_result gopherharness.Outbox.attempted lookup
    gopherharness.Base.Table.insert
given_up = refl

abbrev done_job : WriteJob
done_job = record (new_job same "t1" "s" []) { attempts = 2; is_done = true }

after-lookup_example :
    lookup "t1" (after same same two_tries written (record { jobs = ("t1", done_job) ∷ [] })).jobs
    ≡ some done_job
unfolding lookup
after-lookup_example =
    after-lookup "t1" done_job refl same same two_tries written
      (record { jobs = ("t1", done_job) ∷ [] }) refl
