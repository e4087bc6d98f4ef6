-- ===== src/Resilient/Waits.antt =====
-- How long internal/provider/policy.go waits between two attempts.
use gopherharness.Base.{ℕ, ◌*◌, ◌≤◌, arith, Option, none, some, if_rule, All}
use gopherharness.Base.Int.{ℤ, pos, negsuc, pos_part, ltb_ℤ}
use gopherharness.Resilient.{
  Failure, HttpError, wait_for, second, backoff, min_ℤ, jittered, longer, first_http, faults, Round,
  Resilient, call,
}
use gopherharness.Resilient.Everywhere.{call-Everywhere}

abbrev pub AtMost : ℕ → ℤ → Type 0
AtMost n w = pos_part w ≤ n

min-AtMost : (n : ℕ) (w : ℤ) → AtMost n (min_ℤ (pos n) w)
min-AtMost n (pos m) =
    if_rule (λ z. AtMost n z) (ltb_ℤ (pos m) (pos n)) (λ t. ground (arith, t)) (λ f. omega arith)
min-AtMost n (negsuc m) =
    if_rule (λ z. AtMost n z) (ltb_ℤ (negsuc m) (pos n)) (λ t. omega arith) (λ f. omega arith)

jittered-AtMost :
    (w : ℤ) (random : ℕ) → AtMost (30 * second) w → AtMost (60 * second) (jittered w random)
jittered-AtMost (pos w) random h = omega (arith, h)
jittered-AtMost (negsuc w) random h = omega arith

longer-AtMost :
    (o : Option HttpError) (w : ℤ) → AtMost (60 * second) w → AtMost (60 * second) (longer o w)
longer-AtMost none w h = h
longer-AtMost (some e) w h =
    if_rule (λ z. AtMost (60 * second) z) (ltb_ℤ w (min_ℤ (pos (60 * second)) e.retry_after))
      (λ t. min-AtMost (60 * second) e.retry_after) (λ f. h)

-- A wait is never longer than a minute, whatever the delay, its overflow, the random number and the
-- header of the server.
wait_for-AtMost :
    (delay : ℤ) (n random : ℕ) (e : Failure) → AtMost (60 * second) (wait_for delay n random e)
unfolding wait_for
wait_for-AtMost delay n random e =
    longer-AtMost (first_http (faults e))
      (jittered (min_ℤ (pos (30 * second)) (backoff delay n)) random)
      (jittered-AtMost (min_ℤ (pos (30 * second)) (backoff delay n)) random
        (min-AtMost (30 * second) (backoff delay n)))

-- No wait of a call is longer than a minute, whatever its delay, the overflow of its doubling, the
-- random numbers and the headers of the server.
pub call-ShortWaits {ℓ} :
    {A : Type ℓ} (r : Resilient) (empty : A) (script : ℕ → ℕ → Round A)
    → All (AtMost (60 * second)) (call r empty script).waited
call-ShortWaits {A = A} r empty script =
    (call-Everywhere (λ (t : Round A). Unit) (AtMost (60 * second)) r empty script (λ c n. tt)
      (wait_for-AtMost r.delay)).waited
