-- ===== src/Budget/Run.antt =====
-- `Budgeted.run` of internal/provider/budget.go: one physical call of a provider between a
-- reservation and its settlement. What the contexts, the disk and the provider do is a script.
pub mod Holds
pub mod Within
use gopherharness.Base.{
  ℕ, String, str_eq, Bool, true, false, not, ◌||◌, Option, none, some, List, [], ◌∷◌, ◌++◌,
  if◌then◌else◌,
}
use gopherharness.Base.Int.{ℤ, pos, pos_part, leb_ℤ, ltb_ℤ}
use gopherharness.Base.Table.{Table, lookup}
use gopherharness.Durable.{Disk, Fault, update}
use gopherharness.Budget.{
  Attempt, AttemptState, sending, unknown, settled, BudgetState, FixedPrice, Usage, Identity, Error,
  Result, ok, err, budget_id, cost, nested_budget, cancelled, preflight, invalid_output,
  lease_failed, invalid_id, accounting, not_sending,
}
use gopherharness.Budget.Cost.{worst, full_usage}
use gopherharness.Budget.Account.{reserve, new_attempt, change, claim, unsent, no_price}

-- What the provider answers: the usage that it reports, the model that it names, and its error.
pub record Reply : Type 0 where
  pub usage : Usage
  pub actual_model : String
  pub failed : Bool

pub record Script : Type 0 where
  pub nested : Bool
  pub done_before : Bool
  pub preflight_ok : Bool
  pub window : ℤ
  pub max_configured : ℤ
  pub provider : String
  pub model : String
  pub key : String
  pub lease_granted : Bool
  pub identity : Identity
  pub now : ℕ
  pub reserve_disk : Disk
  pub claim_disk : Disk
  pub done_after_claim : Bool
  pub unsent_disk : Disk
  pub reply : Reply
  pub settle_disk : Disk

-- An error of `run`; `errors.Join` is a list of them.
pub data Failure : Type 0 where
  own : Error → Failure
  stored : Fault Error → Failure
  unsettled : Fault Error → Failure
  call_failed : Failure

-- What a caller of `run` sees, and the account's file afterwards. `called` tells whether the
-- provider was asked.
pub record Report : Type 0 where
  pub called : Bool
  pub failures : List Failure
  pub file : Option BudgetState

abbrev pub empty_state : BudgetState
empty_state = record { schema = ""; limit_nano_usd = pos 0; attempts = none }

-- `b.prices[model]`, by value.
abbrev pub price_for : Option FixedPrice → FixedPrice
price_for none = no_price
price_for (some p) = p

-- What the reply comes to: a charge, or a reservation that is kept, frozen or not.
pub data Charge : Type 0 where
  charged : ℕ → FixedPrice → Charge
  retained : Bool → Charge

abbrev priced : Result ℕ → FixedPrice → Charge
priced (ok c) p = charged c p
priced (err e) p = retained true

abbrev charge_at : Option FixedPrice → Usage → Charge
charge_at none u = retained true
charge_at (some p) u = if u.complete then priced (cost p u) p else retained false

unfoldable pub charge : Table FixedPrice → String → Usage → Charge
charge prices model u = charge_at (lookup model prices) u

unfoldable pub actual : Script → String
actual s = if str_eq s.reply.actual_model "" then s.model else s.reply.actual_model

-- The closure of the settlement.
abbrev record_charge : Charge → String → Usage → Attempt → Attempt
record_charge (charged c p) model u r = record r {
  actual_model = model;
  usage = u;
  state = settled;
  cost_nano_usd = pos c;
  price = p;
  reason = "settled from complete provider usage";
}
record_charge (retained frozen) model u r = record r {
  actual_model = model;
  usage = u;
  state = unknown;
  needs_reconciliation = frozen;
  reason =
      if frozen
      then "unpriced model or invalid usage; account frozen for reconciliation"
      else "missing complete provider usage; reservation retained";
}

abbrev settle_state : AttemptState → Charge → String → Usage → Attempt → Result Attempt
settle_state sending c model u r = ok (record_charge c model u r)
settle_state _ c model u r = err not_sending

unfoldable pub settlement : Charge → String → Usage → Attempt → Result Attempt
settlement c model u r = settle_state r.state c model u r

abbrev is_frozen : Charge → Bool
is_frozen (charged _ _) = false
is_frozen (retained f) = f

abbrev call_error : Script → List Failure
call_error s = if s.reply.failed then call_failed ∷ [] else []

abbrev settle_error : Option (Fault Error) → Bool → List Failure
settle_error (some f) frozen = unsettled f ∷ []
settle_error none frozen = if frozen then own accounting ∷ [] else []

-- The call itself, and its settlement.
unfoldable pub settle : Table FixedPrice → Script → Option BudgetState → Report
unfolding settlement
settle prices s file =
    let c = charge prices (actual s) s.reply.usage in
    let o =
      update empty_state (change s.key (settlement c (actual s) s.reply.usage) s.now) s.settle_disk
        file in
    record {
      called = true;
      failures = call_error s ++ settle_error o.failure (is_frozen c);
      file = o.file;
    }

abbrev joined : Option (Fault Error) → List Failure
joined none = []
joined (some f) = stored f ∷ []

-- `cleanup(reserved.unsent)`, behind the error that led to it.
unfoldable pub give_back : List Failure → Script → Option BudgetState → Report
give_back why s file =
    let o = update empty_state (change s.key unsent s.now) s.unsent_disk file in
    record { called = false; failures = why ++ joined o.failure; file = o.file }

-- `reserved.sending`, and the context after it.
abbrev claimed : Option (Fault Error) → Table FixedPrice → Script → Option BudgetState → Report
claimed (some f) prices s file = give_back (stored f ∷ []) s file
claimed none prices s file =
    if s.done_after_claim then give_back (own cancelled ∷ []) s file else settle prices s file

unfoldable pub send : Table FixedPrice → Script → Option BudgetState → Report
send prices s file =
    let o = update empty_state (change s.key claim s.now) s.claim_disk file in
    claimed o.failure prices s o.file

abbrev pub rejected : Error → Option BudgetState → Report
rejected e file = record { called = false; failures = own e ∷ []; file = file }

abbrev reserved_then :
    Option (Fault Error) → Table FixedPrice → Script → Option BudgetState → Report
reserved_then (some f) prices s file = record {
  called = false;
  failures = stored f ∷ [];
  file = file;
}
reserved_then none prices s file = send prices s file

-- `BudgetAccount.reserve`: the lease of the new key, then the transaction.
unfoldable pub admit : Table FixedPrice → Script → ℤ → Option BudgetState → Report
admit prices s amount file =
    if not (budget_id s.key)
    then rejected invalid_id file
    else (if not s.lease_granted
        then rejected lease_failed file
        else (let r =
              new_attempt s.key s.provider s.model (price_for (lookup s.model prices)) amount
                s.identity s.now in
            let o = update empty_state (reserve r) s.reserve_disk file in
            reserved_then o.failure prices s o.file))

abbrev amounted : Result ℕ → Table FixedPrice → Script → Option BudgetState → Report
amounted (ok n) prices s file = admit prices s (pos n) file
amounted (err e) prices s file = rejected e file

-- The amount that is reserved: every token of the window at its worst price.
unfoldable pub reserve_amount : FixedPrice → ℤ → ℤ → Result ℕ
reserve_amount p window max_output =
    cost (worst p) (full_usage (pos_part window) (pos_part max_output))

-- `maxOutput <= 0 || maxOutput > maxConfigured || maxOutput >= window`
abbrev pub bad_output : Script → ℤ → Bool
bad_output s max_output =
    leb_ℤ max_output (pos 0) || ltb_ℤ s.max_configured max_output || leb_ℤ s.window max_output

unfoldable pub run : Table FixedPrice → Script → ℤ → Option BudgetState → Report
run prices s max_output file =
    if s.nested
    then rejected nested_budget file
    else (if s.done_before
        then rejected cancelled file
        else (if not s.preflight_ok
            then rejected preflight file
            else (if bad_output s max_output
                then rejected invalid_output file
                else amounted
                    (reserve_amount (price_for (lookup s.model prices)) s.window max_output) prices
                    s file)))
