-- ===== src/Budget/Recovery.antt =====
-- `Recover` and `Reconcile` of internal/provider/budget.go.
use gopherharness.Base.{
  ℕ, ◌+◌, ◌≤◌, ◌≡◌, ◌≢◌, ◌⊎◌, ◌==◌, if◌then◌else◌, refl, sym, ap, subst, String, some, arith, inl,
  inr, Option-cases,
}
use gopherharness.Budget.Account.{
  reconcile, reconcile_state, after_check, store_checked, reconciled,
}
use gopherharness.Base.Int.{ℤ, pos, pos_part}
use gopherharness.Base.Table.{
  Table, lookup, insert, lookup-insert_self, lookup-insert_ne, Entries-lookup, sum_by-insert,
}
use gopherharness.Durable.{accept, refuse}
use gopherharness.Budget.{
  Attempt, AttemptState, settled, other, conflicting, BudgetState, Result-cases, budget_snapshot,
  reserved, sending, unknown, released,
}
use gopherharness.Budget.Totals.{
  AttemptOk, IsSound, spent_of, held_of, spent_sum, held_sum, with_attempts, snapshot_exact,
  snapshot_total,
}
use gopherharness.Budget.Account.{recover, recover_attempt, recover_state}
use gopherharness.Budget.Admission.{put-IsSound, checked_at, table_of}

-- The states before and after a recovery: an attempt that was never claimed for sending is released,
-- one that was claimed becomes unknown, and every other one keeps its state.
abbrev pub Moves : AttemptState → AttemptState → Type 0
Moves old new =
    ((old ≡ reserved) × (new ≡ released))
    ⊎ (((old ≡ sending) × (new ≡ unknown)) ⊎ ((old ≢ reserved) × (old ≢ sending) × (new ≡ old)))

-- What a recovery frees: the reservation of an attempt that was not claimed, and nothing else.
abbrev pub Frees : Attempt → ℕ → ℕ → Type 0
Frees r before now =
    ((r.state ≡ reserved) × (now + pos_part r.reserved_nano_usd ≡ before))
    ⊎ ((r.state ≢ reserved) × (now ≡ before))

recover_attempt_lem :
    (id : String) (now : ℕ) (r : Attempt)
    → AttemptOk id r
    → AttemptOk id (recover_attempt now r)
      × (spent_of (recover_attempt now r) ≡ spent_of r)
      × (r.state ≡ reserved
          → (held_of (recover_attempt now r) ≡ 0) × (held_of r ≡ pos_part r.reserved_nano_usd))
      × (r.state ≢ reserved → held_of (recover_attempt now r) ≡ held_of r)
      × Moves r.state (recover_attempt now r).state
unfolding recover_attempt
recover_attempt_lem id now r h =
    (ground arith, ground arith, ground arith, ground arith, moves r.state)
  where
    moves : (st : AttemptState) → Moves st (recover_state st)
    moves reserved = inl (refl, refl)
    moves sending = inr (inl (refl, refl))
    moves unknown = inr (inr (λ q. absurd (cc), λ q. absurd (cc), refl))
    moves settled = inr (inr (λ q. absurd (cc), λ q. absurd (cc), refl))
    moves released = inr (inr (λ q. absurd (cc), λ q. absurd (cc), refl))
    moves (other x) = inr (inr (λ q. absurd (cc), λ q. absurd (cc), refl))

-- Recovery of one orphan, in the terms of what its attempt weighs.
recover_lem :
    (id : String) (now : ℕ) (limit : ℤ) (m : Table Attempt) (r : Attempt)
    → IsSound limit m
    → lookup id m ≡ some r
    → let m' = insert id (recover_attempt now r) m in
      (recover id now (with_attempts limit m) ≡ accept tt (with_attempts limit m'))
      × IsSound limit m'
      × (spent_sum m' ≡ spent_sum m)
      × (held_sum m' + held_of r ≡ held_sum m + held_of (recover_attempt now r))
unfolding recover
recover_lem id now limit m r h found =
    let (good, spent, freed, kept, moved) =
      recover_attempt_lem id now r (Entries-lookup AttemptOk id m h.entries_ok found) in
    let r' = recover_attempt now r in
    let spends : spent_sum (insert id r' m) + spent_of r ≡ spent_sum m + spent_of r' =
      rw found at (sum_by-insert spent_of id r' m) in
    let holds : held_sum (insert id r' m) + held_of r ≡ held_sum m + held_of r' =
      rw found at (sum_by-insert held_of id r' m) in
    let light : held_of r' ≤ held_of r = ground (arith, freed, kept) in
    (rw found, put-IsSound limit id r' m h good (omega (arith, h.fits)), omega arith, holds)

-- Recovery of any attempt of a sound budget is accepted and keeps the budget sound. It spends nothing
-- and touches no other attempt. It frees a reservation exactly if the attempt was never claimed for
-- sending: whatever may have been sent stays held in full.
pub recover-Frees :
    (id : String) (now : ℕ) (limit : ℤ) (m : Table Attempt) (r : Attempt)
    → IsSound limit m
    → lookup id m ≡ some r
    → (m' : Table Attempt) × (r' : Attempt) × (recover id now (with_attempts limit m)
        ≡ accept tt (with_attempts limit m'))
      × IsSound limit m'
      × (spent_sum m' ≡ spent_sum m)
      × Frees r (held_sum m) (held_sum m')
      × (lookup id m' ≡ some r')
      × Moves r.state r'.state
      × ((k : String) → id ≢ k → lookup k m' ≡ lookup k m)
recover-Frees id now limit m r h found =
    let (good, spent, freed, kept, moved) =
      recover_attempt_lem id now r (Entries-lookup AttemptOk id m h.entries_ok found) in
    let (took, sound, spends, holds) = recover_lem id now limit m r h found in
    let r' = recover_attempt now r in
    let frees : Frees r (held_sum m) (held_sum (insert id r' m)) = elim moved [
      | inl (st, _) ↦ inl (st, omega (arith, holds, freed st))
      | inr (inl (st, _)) ↦
          let sent : r.state ≢ reserved = λ q. absurd (cc) in
          inr (sent, omega (arith, holds, kept sent))
      | inr (inr (sent, _, _)) ↦ inr (sent, omega (arith, holds, kept sent))
    ] in
    (
      insert id r' m,
      r',
      took,
      sound,
      spends,
      frees,
      lookup-insert_self id r' m,
      moved,
      λ k q. lookup-insert_ne id k r' m q,
    )

reconcile_again :
    (id : String) (amount : ℕ) (note : String) (now : ℕ) (limit : ℤ) (m : Table Attempt)
    (r : Attempt)
    → IsSound limit m
    → lookup id m ≡ some r
    → r.state ≡ settled
    → r.cost_nano_usd ≡ pos amount
    → (n : ℕ)
    → reconcile id (pos n) note now (with_attempts limit m)
      ≡ (if amount == n then accept tt (with_attempts limit m) else refuse conflicting)
unfolding reconcile
reconcile_again id amount note now limit m r sound found done paid n =
    rw (snapshot_total limit m sound, after_check, found, done, paid)

reconcile_state_ok :
    (st : AttemptState) (id : String) (amount : ℕ) (note : String) (now : ℕ) (r : Attempt)
    (s : BudgetState) {s' : BudgetState}
    → reconcile_state st id (pos amount) note now r s ≡ accept tt s'
    → ((st ≡ settled) × (r.cost_nano_usd ≡ pos amount) × (s' ≡ s))
      ⊎ (store_checked id (reconciled (pos amount) note now r) s ≡ accept tt s')
unfolding reconcile_state
reconcile_state_ok settled id amount note now r s h = inl (refl, ground arith, ground arith)
reconcile_state_ok unknown id amount note now r s h = inr h
reconcile_state_ok sending id amount note now r s h = inr h
reconcile_state_ok reserved id amount note now r s h = absurd (cc)
reconcile_state_ok released id amount note now r s h = absurd (cc)
reconcile_state_ok (other x) id amount note now r s h = absurd (cc)

-- The last part of what an accepted reconciliation promises.
abbrev pub Settles : String → ℕ → ℤ → Table Attempt → BudgetState → Attempt → Type 0
Settles id amount limit m s' r =
    (s' ≡ with_attempts limit m)
    × (lookup id m ≡ some r)
    × (r.state ≡ settled)
    × (r.cost_nano_usd ≡ pos amount)
    × IsSound limit m
    × ((n : ℕ) (note : String) (later : ℕ)
        → reconcile id (pos n) note later s'
          ≡ (if amount == n then accept tt s' else refuse conflicting))

settles :
    (id : String) (amount : ℕ) (limit : ℤ) (m : Table Attempt) {s' : BudgetState} (r : Attempt)
    → s' ≡ with_attempts limit m
    → lookup id m ≡ some r
    → r.state ≡ settled
    → r.cost_nano_usd ≡ pos amount
    → IsSound limit m
    → Settles id amount limit m s' r
settles id amount limit m r stored found done paid sound = (
  stored,
  found,
  done,
  paid,
  sound,
  λ n note later.
      rw stored (reconcile_again id amount note later limit m r sound found done paid n),
)

from_state :
    (id : String) (amount : ℕ) (note : String) (now : ℕ) (limit : ℤ) (m : Table Attempt)
    (r : Attempt) {s' : BudgetState}
    → lookup id m ≡ some r
    → IsSound limit m
    → reconcile_state r.state id (pos amount) note now r (with_attempts limit m) ≡ accept tt s'
    → (r' : Attempt) × (m' : Table Attempt) × Settles id amount limit m' s' r'
from_state id amount note now limit m r {s' = s'} q good h =
    elim (reconcile_state_ok r.state id amount note now r (with_attempts limit m) {s' = s'} h) [
      | inl (done, paid, same) ↦ (r, m, settles id amount limit m r same q done paid good)
      | inr step ↦
          let r' = reconciled (pos amount) note now r in
          let (stored, sound) = checked_at limit (insert id r' m) step in
          (
            r',
            insert id r' m,
            settles id amount limit (insert id r' m) r' stored (lookup-insert_self id r' m) refl
                refl sound,
          )
    ]

-- An accepted reconciliation leaves the attempt settled at the confirmed cost in a sound budget; a
-- later one, whatever its note, changes nothing if it confirms the same cost and is refused if it
-- confirms another.
pub reconcile-Settles :
    (id : String) (amount : ℕ) (note : String) (now : ℕ) (limit : ℤ) (m : Table Attempt)
    {s' : BudgetState}
    → reconcile id (pos amount) note now (with_attempts limit m) ≡ accept tt s'
    → (r : Attempt) × (m' : Table Attempt) × Settles id amount limit m' s' r
unfolding reconcile
reconcile-Settles id amount note now limit m {s' = s'} h =
    elim (Result-cases (budget_snapshot (with_attempts limit m))) [
      | inr (x, e) ↦ absurd (ground arith)
      | inl (v, e) ↦ elim (Option-cases (lookup id m)) [
        | inl q ↦ absurd (ground arith)
        | inr (r, q) ↦
            let (n, shape, sound, same) = snapshot_exact (with_attempts limit m) e in
            let good : IsSound limit m = subst (IsSound limit) (sym (ap table_of shape)) sound in
            from_state id amount note now limit m r q good (ground arith)
      ]
    ]
