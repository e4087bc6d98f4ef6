-- ===== src/Worker/Tests.antt =====
-- A worker from its start to its end (internal/worker/manager.go), and the theorems at inputs that
-- meet their hypotheses.
use gopherharness.Base.{
  ℕ, ◌≡◌, ◌≤◌, ◌⊎◌, refl, true, false, none, some, [], ◌∷◌, arith, List, String, Option,
}
use gopherharness.Base.Table.{lookup}
use gopherharness.Durable.{healthy}
use gopherharness.Worker.Receipts.Pending.{acknowledge-is_pending}
use gopherharness.Worker.Receipts.{
  changed, opens, finishes, acknowledge, is_pending, interrupted_text,
}
use gopherharness.Worker.{
  Receipt, ResultState, queued_receipt, Worker, Manager, Start, ended, new_worker,
}
use gopherharness.Worker.Runs.{acquire, begin, return, release, finish}
use gopherharness.Worker.Slots.{IsOk}
use gopherharness.Worker.Quota.{in_hour, accepted, quota-accepted}
use gopherharness.Worker.Final.{Ended}
use gopherharness.Worker.Life.{
  Event, starts, moves, stops, seals, new_manager, event, managed, NewNames, managed-IsFinal,
}

abbrev plain : String → String
plain s = s

abbrev task : Start
task = record {
  origin_done = false;
  role = "review";
  prompt = "look";
  now = 10;
  id = "w1";
  disk = healthy;
}

quota-accepted_example :
    in_hour 3000 (
      accepted plain true
        (task ∷ record task { id = "w2"; now = 3000 } ∷ [])
        (new_manager 1 1)
        none)
    ≤ (new_manager 1 1).hourly_limit
unfolding new_manager
quota-accepted_example =
    quota-accepted plain true (task ∷ record task { id = "w2"; now = 3000 } ∷ []) (new_manager 1 1)
      none 3000 refl (omega arith, (omega arith, tt)) (omega arith)

abbrev whole_run : List Event
whole_run =
    starts task
    ∷ moves acquire "w1"
    ∷ moves (begin 11) "w1"
    ∷ moves (return "fine" none) "w1"
    ∷ moves release "w1"
    ∷ moves (finish 12) "w1"
    ∷ []

whole_run_names : NewNames plain true whole_run (new_manager 2 30, none)
unfolding event lookup new_manager
whole_run_names = (refl, (tt, (tt, (tt, (tt, (tt, tt))))))

abbrev finished_worker : Worker
finished_worker = record (new_worker "w1" "review" "look" 10) {
  status = "completed";
  result = "fine";
  finished_at = 12;
  stage = ended;
}

abbrev rested : Manager
rested = record (new_manager 2 30) { workers = ("w1", finished_worker) ∷ [] }

rested-IsOk : IsOk rested
unfolding new_manager gopherharness.Base.Table.sum_by
rested-IsOk = record { statuses = (refl, tt); exact = refl; fits = omega arith }

rested_names : NewNames plain true (stops "w1" ∷ seals ∷ []) (rested, none)
rested_names = (tt, (tt, tt))

managed-IsFinal_example :
    Ended "w1" "completed" "fine" "" (managed plain true (stops "w1" ∷ seals ∷ []) (rested, none)).0
unfolding lookup
managed-IsFinal_example =
    managed-IsFinal plain true "w1" (stops "w1" ∷ seals ∷ []) rested none rested-IsOk rested_names
      refl refl

abbrev ended_receipt : Receipt
ended_receipt = record (queued_receipt plain finished_worker) {
  status = "completed";
  result = "fine";
}

abbrev running_receipt : Receipt
running_receipt = record ended_receipt { id = "w2"; status = "running" }

abbrev receipts : ResultState
receipts = record {
  session = "s";
  principal = "p";
  records = ("w1", ended_receipt) ∷ ("w2", running_receipt) ∷ [];
  admissions = 10 ∷ [];
}

abbrev acknowledged_receipts : ResultState
acknowledged_receipts = record receipts {
  records = ("w1", record ended_receipt { acknowledged = true }) ∷ ("w2", running_receipt) ∷ [];
}

acknowledge-is_pending_example :
    (r : Receipt) × (lookup "w1"
        (changed plain
          (opens "s" "p" 20 ∷ finishes finished_worker ∷ [])
          acknowledged_receipts).records
      ≡ some r)
    × (is_pending r ≡ false)
unfolding acknowledge lookup gopherharness.Base.Table.insert
acknowledge-is_pending_example =
    acknowledge-is_pending plain "w1" (opens "s" "p" 20 ∷ finishes finished_worker ∷ []) receipts
      acknowledged_receipts refl

abbrev reopened : ResultState
reopened = record receipts {
  records =
      ("w1", ended_receipt)
      ∷ (
        "w2",
        record running_receipt {
          status = "interrupted";
          error = interrupted_text;
          finished_at = 20;
        },
      )
      ∷ [];
}
