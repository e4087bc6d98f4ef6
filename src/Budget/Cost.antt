-- ===== src/Budget/Cost.antt =====
-- `FixedPrice.cost` of internal/provider/budget.go: rounding, and the worst case that a call
-- reserves.
use gopherharness.Base.{ℕ, ◌+◌, ◌-◌, ◌*◌, ◌≤◌, ◌<◌, ◌≡◌, refl, true, arith}
use native.Mathlib.Nat.{le_trans, le_refl, mul-le-mul}
use gopherharness.Base.Int.{pos, pos_part, max_ℤ, max_int64}
use gopherharness.Budget.{FixedPrice, Usage, ok, cost, total, round_up, billable, valid}

-- `worst` in `Budgeted.run`: every input token at the dearest of the three input rates.
unfoldable pub worst : FixedPrice → FixedPrice
worst p = record p { input = max_ℤ (max_ℤ p.input p.cache_read) p.cache_write }

-- The usage that `Budgeted.run` reserves for: the window less the output, and the output.
unfoldable pub full_usage : ℕ → ℕ → Usage
full_usage window output = record {
  input_tokens = pos (window - output);
  output_tokens = pos output;
  cache_read_tokens = pos 0;
  cache_write_tokens = pos 0;
  complete = true;
}

round_up_bounds : (n : ℕ) → (n ≤ round_up n * 1000000) × (round_up n * 1000000 < n + 1000000)
unfolding round_up
round_up_bounds n = ground arith

round_up_mono : (m n : ℕ) → m ≤ n → round_up m ≤ round_up n
unfolding round_up
round_up_mono m n h = ground arith

-- A cost, when there is one, is the exact sum of rates times tokens in millionths, rounded upward by
-- less than one unit, fits an int64, and is given only of a complete usage with no negative factor.
pub cost_rounds :
    (p : FixedPrice) (u : Usage) {c : ℕ}
    → cost p u ≡ ok c
    → (total p u ≤ c * 1000000)
      × (c * 1000000 < total p u + 1000000)
      × (c ≤ max_int64)
      × (billable p u ≡ true)
unfolding cost
cost_rounds p u h = ground (arith, round_up_bounds (total p u))

-- What one call may use: its input, cached or not, in the window less its output, and its output.
pub record Within (window output : ℕ) (u : Usage) : Type 0 where
  pub input_fits :
      pos_part u.input_tokens + pos_part u.cache_read_tokens + pos_part u.cache_write_tokens
      ≤ window - output
  pub output_fits : pos_part u.output_tokens ≤ output

three_rates :
    (a b c w x y z n : ℕ) → a ≤ w → b ≤ w → c ≤ w → x + y + z ≤ n → a * x + b * y + c * z ≤ w * n
three_rates a b c w x y z n p q r h =
    le_trans
      (omega (arith, mul-le-mul p (le_refl x), mul-le-mul q (le_refl y), mul-le-mul r (le_refl z)))
      (mul-le-mul (le_refl w) h)

worst-input :
    (p : FixedPrice)
    → valid p ≡ true
    → (pos_part p.input ≤ pos_part (worst p).input)
      × (pos_part p.cache_read ≤ pos_part (worst p).input)
      × (pos_part p.cache_write ≤ pos_part (worst p).input)
unfolding worst valid
worst-input p h = ground arith

worst-output : (p : FixedPrice) → (worst p).output ≡ p.output
unfolding worst
worst-output p = refl

total-full_usage :
    (q : FixedPrice) (window output : ℕ)
    → total q (full_usage window output)
      ≡ pos_part q.input * (window - output) + pos_part q.output * output
unfolding total full_usage
total-full_usage q window output = omega arith

billable-valid : (p : FixedPrice) (u : Usage) → billable p u ≡ true → valid p ≡ true
unfolding billable
billable-valid p u h = ground arith

total_regroup :
    (p : FixedPrice) (u : Usage) (w : ℕ) {n o : ℕ}
    → pos_part p.input ≤ w
    → pos_part p.cache_read ≤ w
    → pos_part p.cache_write ≤ w
    → pos_part u.input_tokens + pos_part u.cache_read_tokens + pos_part u.cache_write_tokens ≤ n
    → pos_part u.output_tokens ≤ o
    → total p u ≤ w * n + pos_part p.output * o
unfolding total
total_regroup p u w h k l f g =
    omega (arith, three_rates _ _ _ w _ _ _ _ h k l f, mul-le-mul (le_refl (pos_part p.output)) g)

total-worst :
    (p : FixedPrice) (u : Usage) (window output : ℕ)
    → billable p u ≡ true
    → Within window output u
    → total p u ≤ total (worst p) (full_usage window output)
total-worst p u window output b h =
    let (i, r, w) = worst-input p (billable-valid p u b) in
    rw (total-full_usage (worst p) window output) (
      rw (worst-output p)
        (total_regroup p u (pos_part (worst p).input) i r w h.input_fits h.output_fits))

-- Whatever a call uses within its window and its output, it costs no more than what `Budgeted.run`
-- computed for it beforehand, at the same price.
pub cost-le-worst :
    (p : FixedPrice) (u : Usage) (window output : ℕ) {c reserve : ℕ}
    → cost p u ≡ ok c
    → cost (worst p) (full_usage window output) ≡ ok reserve
    → Within window output u
    → c ≤ reserve
unfolding cost
cost-le-worst p u window output h k within =
    let b : billable p u ≡ true = (cost_rounds p u h).3 in
    ground (
      arith,
      round_up_mono (total p u) (total (worst p) (full_usage window output))
          (total-worst p u window output b within),
    )
