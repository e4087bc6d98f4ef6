-- ===== src/Budget/Tests.antt =====
-- Runs of the budget account (internal/provider/budget.go), and its theorems at inputs that meet
-- their hypotheses.
use gopherharness.Base.{◌≡◌, ◌≢◌, refl, String, true, false, some, [], ◌∷◌, arith}
use gopherharness.Base.Int.{pos}
use gopherharness.Base.Table.{Table, lookup, insert, sum_by}
use gopherharness.Durable.{healthy, unsynced, accept, refuse, update, disk_error}
use gopherharness.Budget.{
  Attempt, reserved, sending, FixedPrice, Usage, Identity, ok, exhausted, cost, total, billable,
  round_up, budget_snapshot, budget_id, tally_all, tally_one, conclude,
}
use gopherharness.Budget.Totals.{
  IsSound, with_attempts, view_of, spent_sum, held_sum, snapshot_exact,
}
use gopherharness.Budget.Cost.{worst, full_usage, Within}
use gopherharness.Budget.Account.{
  new_attempt, reserve, recover, reconcile, reconciled, change, claim,
}
use gopherharness.Budget.Admission.{IsGood, Admits, reserve-Admits}
use gopherharness.Budget.Recovery.{Frees, Moves, recover-Frees}
use gopherharness.Budget.Run.{
  Script, run, admit, reserve_amount, send, settle, charge, settlement, actual, unsettled,
}
use gopherharness.Budget.Run.Holds.{FileGood}
use gopherharness.Budget.Run.Within.{ReplyWithin, run_stays_within}

abbrev key_a : String
key_a = "00112233445566778899aabbccddeeff"

abbrev key_b : String
key_b = "ffeeddccbbaa99887766554433221100"

abbrev nobody : Identity
nobody = record { trace_id = ""; span_id = "" }

-- Dollars per million tokens, in nano-dollars.
abbrev price : FixedPrice
price = record {
  input = pos 3000000000;
  output = pos 15000000000;
  cache_read = pos 300000000;
  cache_write = pos 3750000000;
}

abbrev used : Usage
used = record {
  input_tokens = pos 1000;
  output_tokens = pos 200;
  cache_read_tokens = pos 5001;
  cache_write_tokens = pos 0;
  complete = true;
}

abbrev waiting : Attempt
waiting = record {
  id = key_a;
  state = reserved;
  provider = "anthropic";
  model = "m";
  actual_model = "";
  reserved_nano_usd = pos 400;
  cost_nano_usd = pos 0;
  price = price;
  usage = used;
  identity = nobody;
  reason = "";
  needs_reconciliation = false;
  created_at = 1;
  updated_at = 1;
}

abbrev in_flight : Attempt
in_flight = record waiting { id = key_b; state = sending; reserved_nano_usd = pos 250 }

abbrev book : Table Attempt
book = (key_a, waiting) ∷ (key_b, in_flight) ∷ []

book_state : budget_snapshot (with_attempts (pos 1000) book) ≡ ok (view_of (pos 1000) book)
unfolding budget_snapshot tally_all tally_one conclude budget_id sum_by
book_state = refl

book-IsSound : IsSound (pos 1000) book
unfolding budget_id sum_by
book-IsSound = record {
  limit_ok = refl;
  entries_ok = ((refl, refl, refl, refl, refl), ((refl, refl, refl, refl, refl), tt));
  fits = omega arith;
}

snapshot_exact_example :
    (m : Table Attempt) × (with_attempts (pos 1000) book ≡ with_attempts (pos 1000) m)
    × IsSound (pos 1000) m
    × (view_of (pos 1000) book ≡ view_of (pos 1000) m)
snapshot_exact_example = snapshot_exact (with_attempts (pos 1000) book) book_state

-- 1000 * 3e9 + 200 * 15e9 + 5001 * 3e8 millionths come to 7500300 nano-dollars.
used-cost : cost price used ≡ ok 7500300
unfolding cost round_up total billable
used-cost = refl

used-Within : Within 8000 500 used
used-Within = record { input_fits = omega arith; output_fits = omega arith }

cost-worst : cost (worst price) (full_usage 8000 500) ≡ ok 35625000
unfolding cost round_up total billable worst full_usage
cost-worst = refl

abbrev key_c : String
key_c = "0123456789abcdef0123456789ABCDEF"

-- 650 of 1000 are held, so 350 can be reserved and 351 cannot.
reserved_350 :
    reserve
      (new_attempt key_c "anthropic" "m" price (pos 350) nobody 2)
      (with_attempts (pos 1000) book)
    ≡ accept tt (
        with_attempts
          (pos 1000)
          (insert key_c (new_attempt key_c "anthropic" "m" price (pos 350) nobody 2) book))
unfolding reserve budget_snapshot tally_all tally_one conclude budget_id new_attempt
reserved_350 = refl

refused_351 :
    reserve
      (new_attempt key_c "anthropic" "m" price (pos 351) nobody 2)
      (with_attempts (pos 1000) book)
    ≡ refuse exhausted
unfolding reserve budget_snapshot tally_all tally_one conclude budget_id new_attempt
refused_351 = refl

reserve-Admits_example : Admits key_c (pos 350) (with_attempts (pos 1000) book) (
    with_attempts
      (pos 1000)
      (insert key_c (new_attempt key_c "anthropic" "m" price (pos 350) nobody 2) book))
unfolding budget_id
reserve-Admits_example =
    reserve-Admits key_c "anthropic" "m" price (pos 350) nobody 2 (with_attempts (pos 1000) book)
      refl (omega arith) reserved_350

recover-Frees_example :
    (m' : Table Attempt) × (r' : Attempt) × (recover key_b 9 (with_attempts (pos 1000) book)
      ≡ accept tt (with_attempts (pos 1000) m'))
    × IsSound (pos 1000) m'
    × (spent_sum m' ≡ spent_sum book)
    × Frees in_flight (held_sum book) (held_sum m')
    × (lookup key_b m' ≡ some r')
    × Moves in_flight.state r'.state
    × ((k : String) → key_b ≢ k → lookup k m' ≡ lookup k book)
unfolding lookup
recover-Frees_example = recover-Frees key_b 9 (pos 1000) book in_flight book-IsSound refl

abbrev paid_book : Table Attempt
paid_book = insert key_b (reconciled (pos 300) "invoice 7" 9 in_flight) book

paid :
    reconcile key_b (pos 300) "invoice 7" 9 (with_attempts (pos 1000) book)
    ≡ accept tt (with_attempts (pos 1000) paid_book)
unfolding reconcile budget_snapshot tally_all tally_one conclude budget_id lookup insert
paid = refl

abbrev call : Script
call = record {
  nested = false;
  done_before = false;
  preflight_ok = true;
  window = pos 8000;
  max_configured = pos 4000;
  provider = "anthropic";
  model = "m";
  key = key_c;
  lease_granted = true;
  identity = nobody;
  now = 5;
  reserve_disk = healthy;
  claim_disk = healthy;
  done_after_claim = false;
  unsent_disk = healthy;
  reply = record { usage = used; actual_model = ""; failed = false };
  settle_disk = unsynced;
}

abbrev prices : Table FixedPrice
prices = ("m", price) ∷ []

call-ReplyWithin : ReplyWithin call (pos 500)
unfolding actual
call-ReplyWithin = record { same_model = refl; usage_within = used-Within }

book-IsGood : IsGood (pos 100000000) (with_attempts (pos 100000000) book)
unfolding budget_id sum_by
book-IsGood = record {
  table = book;
  shape = refl;
  sound = record {
    limit_ok = refl;
    entries_ok = ((refl, refl, refl, refl, refl), ((refl, refl, refl, refl, refl), tt));
    fits = omega arith;
  };
  within = omega arith;
}

run_stays_within_example :
    FileGood
      (pos 100000000)
      (run prices call (pos 500) (some (with_attempts (pos 100000000) book))).file
run_stays_within_example =
    run_stays_within (pos 100000000) prices call (pos 500) (omega arith) call-ReplyWithin
      (some (with_attempts (pos 100000000) book)) book-IsGood

-- The call is made and settled at its cost, although the last sync fails and is reported.
call_settles :
    let r = run prices call (pos 500) (some (with_attempts (pos 100000000) book)) in
    (r.called ≡ true) × (r.failures ≡ unsettled disk_error ∷ [])
unfolding run admit reserve_amount cost round_up total billable worst full_usage new_attempt reserve
    budget_snapshot tally_all tally_one conclude budget_id send change claim settle charge
    settlement update lookup insert actual
call_settles = (refl, refl)
