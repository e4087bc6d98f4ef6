-- ===== src/Budget.antt =====
-- internal/provider/budget.go: the durable account of what model calls may cost. Amounts are
-- int64 and token counts are int, both as integers; `big.Int` products are exact.
pub mod Totals
pub mod Cost
pub mod Account
pub mod Admission
pub mod Recovery
pub mod Run
mod Tests
use Prim.Native.Char.{code}
use gopherharness.Base.{
  ℕ, ◌≡◌, ◌⊎◌, inl, inr, refl, ◌+◌, ◌-◌, ◌*◌, ◌/◌, ◌%◌, String, str_eq, Bool, false, not, ◌&&◌,
  ◌||◌, Option, none, some, [], ◌∷◌, ltb, leb, ◌==◌, if◌then◌else◌,
}
use gopherharness.Base.Int.{ℤ, is_neg, pos_part, max_int64}
use gopherharness.Base.Table.{Table}

-- internal/tracing/tracing.go
pub record Identity : Type 0 where
  pub trace_id : String
  pub span_id : String

pub record FixedPrice : Type 0 where
  pub input : ℤ
  pub output : ℤ
  pub cache_read : ℤ
  pub cache_write : ℤ

-- internal/provider/provider.go
pub record Usage : Type 0 where
  pub input_tokens : ℤ
  pub output_tokens : ℤ
  pub cache_read_tokens : ℤ
  pub cache_write_tokens : ℤ
  pub complete : Bool

pub data Error : Type 0 where
  accounting cost_overflow invalid_state invalid_total invalid_attempt : Error
  invalid_attempt_state total_overflow exhausted unknown_attempt conflicting : Error
  not_awaiting missing_reservation already_claimed cannot_release not_sending : Error
  missing_schema schema_mismatch invalid_reconciliation invalid_id : Error
  invalid_limit nested_budget cancelled preflight invalid_output lease_failed : Error

pub data Result {ℓ} (A : Type ℓ) : Type ℓ where
  ok : A → Result A
  err : Error → Result A

pub Result-cases {ℓ} :
    {A : Type ℓ} (r : Result A) → ((a : A) × (r ≡ ok a)) ⊎ ((e : Error) × (r ≡ err e))
Result-cases (ok a) = inl (a, refl)
Result-cases (err e) = inr (e, refl)

infixl 5 ◌>>=◌
abbrev pub ◌>>=◌ {ℓ κ} : {A : Type ℓ} {B : Type κ} → Result A → (A → Result B) → Result B
ok a >>= f = f a
err e >>= f = err e

-- The state names that the code compares; any other text is `other`.
pub data AttemptState : Type 0 where
  reserved sending unknown settled released : AttemptState
  other : String → AttemptState

pub record Attempt : Type 0 where
  pub id : String
  pub state : AttemptState
  pub provider : String
  pub model : String
  pub actual_model : String
  pub reserved_nano_usd : ℤ
  pub cost_nano_usd : ℤ
  pub price : FixedPrice
  pub usage : Usage
  pub identity : Identity
  pub reason : String
  pub needs_reconciliation : Bool
  pub created_at : ℕ
  pub updated_at : ℕ

-- `attempts` is `none` for a nil map.
pub record BudgetState : Type 0 where
  pub schema : String
  pub limit_nano_usd : ℤ
  pub attempts : Option (Table Attempt)

pub record Snapshot : Type 0 where
  pub limit : ℤ
  pub spent : ℕ
  pub held : ℕ
  pub remaining : ℕ
  pub frozen : Bool

unfoldable pub valid : FixedPrice → Bool
valid p =
    not (is_neg p.input)
    && not (is_neg p.output)
    && not (is_neg p.cache_read)
    && not (is_neg p.cache_write)

unfoldable pub billable : FixedPrice → Usage → Bool
unfolding valid
billable p u =
    valid p
    && u.complete
    && not (is_neg u.input_tokens)
    && not (is_neg u.output_tokens)
    && not (is_neg u.cache_read_tokens)
    && not (is_neg u.cache_write_tokens)

-- The sum of rate times tokens. It is read only where no factor is negative.
unfoldable pub total : FixedPrice → Usage → ℕ
total p u =
    pos_part p.input * pos_part u.input_tokens
    + pos_part p.output * pos_part u.output_tokens
    + pos_part p.cache_read * pos_part u.cache_read_tokens
    + pos_part p.cache_write * pos_part u.cache_write_tokens

-- The quotient by a million, rounded upward.
unfoldable pub round_up : ℕ → ℕ
round_up n = if ltb 0 (n % 1000000) then n / 1000000 + 1 else n / 1000000

-- `FixedPrice.cost`
unfoldable pub cost : FixedPrice → Usage → Result ℕ
cost p u =
    let c = round_up (total p u) in
    if billable p u then (if leb c max_int64 then ok c else err cost_overflow) else err accounting

-- `hex.DecodeString` accepts an even number of hexadecimal digits; the code wants 16 bytes.
abbrev hex_digit : ℕ → Bool
hex_digit c = (leb b'0' c && leb c b'9') || (leb b'a' c && leb c b'f') || (leb b'A' c && leb c b'F')

hex_digits : String → ℕ → Bool
hex_digits String.[] n = n == 32
hex_digits (String.◌∷◌ c s) n = hex_digit (code c) && hex_digits s (n + 1)

unfoldable pub budget_id : String → Bool
unfolding hex_digits
budget_id s = hex_digits s 0

abbrev pub schema_name : String
schema_name = "gopherharness.budget.v1"

-- The running totals of `budgetSnapshot`.
pub record Tally : Type 0 where
  pub spent : ℕ
  pub held : ℕ
  pub frozen : Bool

-- The closure `add`; its test `*target > math.MaxInt64-value` is written as a sum.
unfoldable pub add : ℕ → ℤ → Result ℕ
add target v =
    if is_neg v || ltb max_int64 (target + pos_part v)
    then err invalid_total
    else ok (target + pos_part v)

-- The `switch` on the state of one attempt.
unfoldable pub tally_state : AttemptState → Attempt → Tally → Result Tally
unfolding add
tally_state reserved r t = add t.held r.reserved_nano_usd >>= λ n. ok (record t { held = n })
tally_state sending r t = add t.held r.reserved_nano_usd >>= λ n. ok (record t { held = n })
tally_state unknown r t = add t.held r.reserved_nano_usd >>= λ n. ok (record t { held = n })
tally_state settled r t = add t.spent r.cost_nano_usd >>= λ n. ok (record t { spent = n })
tally_state released r t = ok t
tally_state (other s) r t = err invalid_attempt_state

-- One round of the loop over the attempts.
unfoldable pub tally_one : String → Attempt → Tally → Result Tally
unfolding tally_state
tally_one id r t =
    if not (str_eq r.id id)
      || not (budget_id id)
      || is_neg r.reserved_nano_usd
      || is_neg r.cost_nano_usd
    then err invalid_attempt
    else (tally_state r.state r t >>= λ t'.
        ok (record t' { frozen = t'.frozen || r.needs_reconciliation }))

unfoldable pub tally_all : Table Attempt → Tally → Result Tally
tally_all [] t = ok t
tally_all ((id, r) ∷ m) t = tally_one id r t >>= λ t'. tally_all m t'

abbrev pub no_tally : Tally
no_tally = record { spent = 0; held = 0; frozen = false }

-- What `budgetSnapshot` does after its loop.
unfoldable pub conclude : ℤ → Tally → Result Snapshot
conclude limit t =
    if ltb max_int64 (t.spent + t.held)
    then err total_overflow
    else ok (record {
      limit = limit;
      spent = t.spent;
      held = t.held;
      remaining =
          if ltb (t.spent + t.held) (pos_part limit)
          then pos_part limit - (t.spent + t.held)
          else 0;
      frozen = t.frozen;
    })

abbrev pub snapshot_of : ℤ → Option (Table Attempt) → Result Snapshot
snapshot_of limit none = err invalid_state
snapshot_of limit (some m) = tally_all m no_tally >>= conclude limit

unfoldable pub budget_snapshot : BudgetState → Result Snapshot
budget_snapshot s =
    if not (str_eq s.schema schema_name) || is_neg s.limit_nano_usd
    then err invalid_state
    else snapshot_of s.limit_nano_usd s.attempts
