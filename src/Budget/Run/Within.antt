-- ===== src/Budget/Run/Within.antt =====
-- The account of internal/provider/budget.go over one call of `Budgeted.run` whose reply stays within
-- what was reserved.
use gopherharness.Base.{ℕ, ◌≤◌, ◌≡◌, if_rule, subst, not, Option, arith, inl, inr, Option-cases}
use gopherharness.Base.Int.{ℤ, pos, pos_part, max_int64}
use gopherharness.Base.Table.{Table, lookup}
use gopherharness.Durable.{update, current}
use gopherharness.Durable.Atomic.{update-carries, update-establishes, Keeps-weaken}
use gopherharness.Budget.{BudgetState, FixedPrice, ok, Result-cases, budget_id, cost}
use gopherharness.Budget.Cost.{worst, full_usage, Within, cost-le-worst}
use gopherharness.Budget.Account.{reserve, new_attempt}
use gopherharness.Budget.Admission.{IsGood}
use gopherharness.Budget.Run.{
  Script, Report, run, admit, charge, charge_at, actual, charged, reserved_then, amounted,
  empty_state, price_for, reserve_amount, bad_output,
}
use gopherharness.Budget.Run.Holds.{Holds, Holds-IsGood, FileGood, send_good, reserve-Holds}

-- A reply is within what was reserved: it names the model that was priced, and uses no more tokens
-- than the window and the output allow.
pub record ReplyWithin (s : Script) (max_output : ℤ) : Type 0 where
  pub same_model : actual s ≡ s.model
  pub usage_within : Within (pos_part s.window) (pos_part max_output) s.reply.usage

charge-le :
    (prices : Table FixedPrice) (s : Script) (max_output : ℤ) (amount : ℕ)
    → ReplyWithin s max_output
    → reserve_amount (price_for (lookup s.model prices)) s.window max_output ≡ ok amount
    → (n : ℕ) (p : FixedPrice) → charge prices (actual s) s.reply.usage ≡ charged n p
    → n ≤ amount
unfolding charge reserve_amount
charge-le prices s max_output amount w k n p q =
    let at_model : charge_at (lookup s.model prices) s.reply.usage ≡ charged n p =
      subst (λ x. charge_at (lookup x prices) s.reply.usage ≡ charged n p) w.same_model q in
    elim (Option-cases (lookup s.model prices)) [
      | inl e ↦ absurd (ground arith)
      | inr (p', e) ↦
          let known : cost p' s.reply.usage ≡ ok n = ground arith in
          let reserved_for : cost (worst p') (full_usage (pos_part s.window) (pos_part max_output))
              ≡ ok amount =
            ground arith in
          cost-le-worst p' s.reply.usage (pos_part s.window) (pos_part max_output) known
            reserved_for w.usage_within
    ]

module _ (limit : ℤ) (prices : Table FixedPrice) (s : Script) (max_output : ℤ)
    (small : pos_part limit ≤ max_int64) (w : ReplyWithin s max_output) where
  admit_good :
      (amount : ℕ) (file : Option BudgetState)
      → reserve_amount (price_for (lookup s.model prices)) s.window max_output ≡ ok amount
      → FileGood limit file
      → FileGood limit (admit prices s (pos amount) file).file
  unfolding admit
  admit_good amount file k h =
      if_rule (λ (r : Report). FileGood limit r.file) (not (budget_id s.key)) (λ _. h)
        λ valid_key.
          if_rule (λ (r : Report). FileGood limit r.file) (not s.lease_granted) (λ _. h)
            λ _.
              let p = price_for (lookup s.model prices) in
              let fn =
                reserve (new_attempt s.key s.provider s.model p (pos amount) s.identity s.now) in
              let keep = λ (t : BudgetState) (g : IsGood limit t).
                reserve-Holds limit s p amount t (ground arith) small g in
              elim (Option-cases (update empty_state fn s.reserve_disk file).failure) [
                | inr (e, q) ↦
                    rw (q, reserved_then)
                      (update-carries empty_state (IsGood limit) (IsGood limit) fn s.reserve_disk
                        file (λ t g. g)
                        (λ t g.
                          Keeps-weaken (Holds limit s.key amount) (IsGood limit) (fn t)
                            (λ u. Holds-IsGood) (keep t g))
                        h)
                | inl q ↦
                    rw (q, reserved_then)
                      (send_good limit prices s amount
                        (update empty_state fn s.reserve_disk file).file
                        (charge-le prices s max_output amount w k)
                        (update-establishes empty_state (Holds limit s.key amount) fn s.reserve_disk
                          file (keep (current empty_state file) h) q))
              ]

  -- A call whose reply names the model that was priced, and uses no more tokens than the window and the
  -- output allow, leaves a sound account whose settled costs and outstanding reservations are within
  -- the limit, if they were before, whatever the contexts, the lease and the disk do at each step. The
  -- limit is to fit into 63 bits. Of a reply beyond that nothing is said: its cost is charged in full.
  pub run_stays_within :
      (file : Option BudgetState)
      → FileGood limit file
      → FileGood limit (run prices s max_output file).file
  unfolding run
  run_stays_within file h =
      let good = λ (r : Report). FileGood limit r.file in
      let price = price_for (lookup s.model prices) in
      if_rule good s.nested (λ _. h)
        λ _.
          if_rule good s.done_before (λ _. h)
            λ _.
              if_rule good (not s.preflight_ok) (λ _. h)
                λ _.
                  if_rule good (bad_output s max_output)
                    {y = amounted (reserve_amount price s.window max_output) prices s file} (λ _. h)
                    λ _. elim (Result-cases (reserve_amount price s.window max_output)) [
                      | inl (n, e) ↦ rw (e, amounted) (admit_good n file e h)
                      | inr (x, e) ↦ rw (e, amounted) h
                    ]
