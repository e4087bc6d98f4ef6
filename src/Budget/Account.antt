-- ===== src/Budget/Account.antt =====
-- The operations of `BudgetAccount` and of a reservation (internal/provider/budget.go), as the
-- callbacks that they hand to `durable.File.Update`.
use gopherharness.Base.{
  ℕ, ◌+◌, String, str_eq, Bool, false, not, ◌||◌, Option, none, some, [], ltb, if◌then◌else◌,
  is_some,
}
use gopherharness.Base.Int.{ℤ, pos, is_neg, pos_part, ltb_ℤ, ◌==ℤ◌}
use gopherharness.Base.Table.{lookup, insert}
use gopherharness.Durable.{Verdict, refuse, accept}
use gopherharness.Budget.{
  Attempt, AttemptState, reserved, sending, unknown, settled, released, other, BudgetState,
  Snapshot, FixedPrice, Usage, Identity, Error, Result, ok, err, budget_snapshot, schema_name,
  accounting, exhausted, unknown_attempt, conflicting, not_awaiting, missing_reservation,
  already_claimed, cannot_release, missing_schema, schema_mismatch, invalid_state,
}

abbrev pub Callback : Type 0
Callback = BudgetState → Verdict Error (Unit {0}) BudgetState

-- `_, err := budgetSnapshot(*s); return err`
abbrev pub checked : BudgetState → Result Snapshot → Verdict Error (Unit {0}) BudgetState
checked s (ok v) = accept tt s
checked s (err e) = refuse e

-- `s.Attempts[id] = r`. A write to a nil map panics, so nothing is stored.
abbrev pub with_attempt : String → Attempt → BudgetState → BudgetState
with_attempt id r s = record s {
  attempts = elim s.attempts [ none ↦ none | some m ↦ some (insert id r m) ];
}

abbrev pub find : String → BudgetState → Option Attempt
find id s = elim s.attempts [ none ↦ none | some m ↦ lookup id m ]

-- `OpenBudget`: a new file gets its schema and limit, and an old one must have them.
abbrev fresh : ℤ → BudgetState
fresh limit = record { schema = schema_name; limit_nano_usd = limit; attempts = some [] }

abbrev same_budget : ℤ → Callback
same_budget limit s =
    if not (str_eq s.schema schema_name) || not (s.limit_nano_usd ==ℤ limit)
    then refuse schema_mismatch
    else checked s (budget_snapshot s)

unfoldable pub open_budget : Bool → ℤ → Callback
open_budget exists limit s =
    if str_eq s.schema ""
    then (if exists || is_some s.attempts || not (s.limit_nano_usd ==ℤ pos 0)
        then refuse missing_schema
        else same_budget limit (fresh limit))
    else same_budget limit s

-- The callback of `Recover` for one orphan whose lease was taken.
abbrev pub recover_state : AttemptState → AttemptState
recover_state reserved = released
recover_state sending = unknown
recover_state st = st

abbrev recover_reason : AttemptState → String → String
recover_reason reserved _ = "recovered before sending claim"
recover_reason sending _ = "process ended after sending claim; billing uncertain"
recover_reason _ reason = reason

unfoldable pub recover_attempt : ℕ → Attempt → Attempt
recover_attempt now r = record r {
  state = recover_state r.state;
  reason = recover_reason r.state r.reason;
  updated_at = now;
}

abbrev pub no_price : FixedPrice
no_price = record { input = pos 0; output = pos 0; cache_read = pos 0; cache_write = pos 0 }

abbrev no_usage : Usage
no_usage = record {
  input_tokens = pos 0;
  output_tokens = pos 0;
  cache_read_tokens = pos 0;
  cache_write_tokens = pos 0;
  complete = false;
}

-- What Go reads under a key that is missing.
abbrev pub zero_attempt : Attempt
zero_attempt = record {
  id = "";
  state = other "";
  provider = "";
  model = "";
  actual_model = "";
  reserved_nano_usd = pos 0;
  cost_nano_usd = pos 0;
  price = no_price;
  usage = no_usage;
  identity = record { trace_id = ""; span_id = "" };
  reason = "";
  needs_reconciliation = false;
  created_at = 0;
  updated_at = 0;
}

abbrev pub or_zero : Option Attempt → Attempt
or_zero none = zero_attempt
or_zero (some r) = r

unfoldable pub recover : String → ℕ → Callback
unfolding recover_attempt
recover id now s =
    if is_some s.attempts
    then accept tt (with_attempt id (recover_attempt now (or_zero (find id s))) s)
    else refuse invalid_state

-- The callback of `Reconcile`, by the state of the attempt.
abbrev pub reconciled : ℤ → String → ℕ → Attempt → Attempt
reconciled amount note now r = record r {
  state = settled;
  cost_nano_usd = amount;
  reason = note;
  needs_reconciliation = false;
  updated_at = now;
}

abbrev pub store_checked : String → Attempt → Callback
store_checked id r s = checked (with_attempt id r s) (budget_snapshot (with_attempt id r s))

unfoldable pub reconcile_state : AttemptState → String → ℤ → String → ℕ → Attempt → Callback
reconcile_state settled id amount note now r s =
    if r.cost_nano_usd ==ℤ amount then accept tt s else refuse conflicting
reconcile_state unknown id amount note now r s = store_checked id (reconciled amount note now r) s
reconcile_state sending id amount note now r s = store_checked id (reconciled amount note now r) s
reconcile_state _ id amount note now r s = refuse not_awaiting

abbrev reconcile_found : Option Attempt → String → ℤ → String → ℕ → Callback
reconcile_found none id amount note now s = refuse unknown_attempt
reconcile_found (some r) id amount note now s = reconcile_state r.state id amount note now r s

abbrev pub after_check :
    Result Snapshot
    → (Snapshot → Verdict Error (Unit {0}) BudgetState)
    → Verdict Error (Unit {0}) BudgetState
after_check (ok v) k = k v
after_check (err e) k = refuse e

unfoldable pub reconcile : String → ℤ → String → ℕ → Callback
unfolding reconcile_state
reconcile id amount note now s =
    after_check (budget_snapshot s) (λ v. reconcile_found (find id s) id amount note now s)

-- The callback of `reserve`.
unfoldable pub new_attempt : String → String → String → FixedPrice → ℤ → Identity → ℕ → Attempt
new_attempt key provider model price amount identity now = record {
  id = key;
  state = reserved;
  provider = provider;
  model = model;
  actual_model = "";
  reserved_nano_usd = amount;
  cost_nano_usd = pos 0;
  price = price;
  usage = no_usage;
  identity = identity;
  reason = "";
  needs_reconciliation = false;
  created_at = now;
  updated_at = now;
}

abbrev admit : Attempt → BudgetState → Snapshot → Verdict Error (Unit {0}) BudgetState
admit r s v =
    if v.frozen
    then refuse accounting
    else (if is_neg r.reserved_nano_usd
          || ltb (pos_part s.limit_nano_usd) (v.spent + v.held)
          || ltb_ℤ (pos v.remaining) r.reserved_nano_usd
        then refuse exhausted
        else accept tt (with_attempt r.id r s))

unfoldable pub reserve : Attempt → Callback
reserve r s = after_check (budget_snapshot s) (admit r s)

-- `reservation.update`: a change of one attempt between two checks.
abbrev changed : String → ℕ → Result Attempt → Callback
changed id now (err e) s = refuse e
changed id now (ok r) s = store_checked id (record r { updated_at = now }) s

abbrev change_found : Option Attempt → String → (Attempt → Result Attempt) → ℕ → Callback
change_found none id fn now s = refuse missing_reservation
change_found (some r) id fn now s = changed id now (fn r) s

unfoldable pub change : String → (Attempt → Result Attempt) → ℕ → Callback
change id fn now s = after_check (budget_snapshot s) (λ v. change_found (find id s) id fn now s)

-- The closures that `sending` and `unsent` hand to it.
abbrev send_state : AttemptState → Attempt → Result Attempt
send_state reserved r = ok (record r { state = sending })
send_state _ r = err already_claimed

unfoldable pub claim : Attempt → Result Attempt
claim r = send_state r.state r

abbrev pub released_attempt : Attempt → Attempt
released_attempt r = record r { state = released; reason = "sender did not invoke provider" }

abbrev unsent_state : AttemptState → Attempt → Result Attempt
unsent_state reserved r = ok (released_attempt r)
unsent_state sending r = ok (released_attempt r)
unsent_state _ r = err cannot_release

unfoldable pub unsent : Attempt → Result Attempt
unsent r = unsent_state r.state r
