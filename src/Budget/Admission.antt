-- ===== src/Budget/Admission.antt =====
-- What each callback of internal/provider/budget.go does to the committed total, the settled costs
-- plus the outstanding reservations.
use gopherharness.Base.{
  ℕ, ◌+◌, ◌≤◌, ◌≡◌, refl, sym, ap, ◌∙◌, subst, [], String, true, false, none, some, arith, inl, inr,
  Option-cases,
}
use gopherharness.Base.Int.{ℤ, is_neg, pos_part, max_int64}
use gopherharness.Base.Table.{
  Table, lookup, insert, lookup-insert_self, Entries-insert, sum_by-insert,
}
use gopherharness.Durable.{accept}
use gopherharness.Budget.{
  Attempt, BudgetState, Result, ok, Result-cases, budget_snapshot, budget_id, FixedPrice, Identity,
  reserved, sending, released,
}
use gopherharness.Budget.Totals.{
  AttemptOk, IsSound, spent_of, held_of, spent_sum, held_sum, with_attempts, frozen_in,
  snapshot_exact,
}
use gopherharness.Budget.Account.{
  with_attempt, checked, reserve, new_attempt, change, claim, unsent,
}

abbrev pub committed : Table Attempt → ℕ
committed m = spent_sum m + held_sum m

abbrev pub weight : Attempt → ℕ
weight r = spent_of r + held_of r

-- A write of an entry that weighs no more keeps the committed total from growing.
pub committed-insert :
    (id : String) (r : Attempt) (m : Table Attempt)
    → committed (insert id r m) ≤ committed m + weight r
committed-insert id r m = omega (arith, sum_by-insert spent_of id r m, sum_by-insert held_of id r m)

pub committed-replace :
    (id : String) (r : Attempt) {old : Attempt} (m : Table Attempt)
    → lookup id m ≡ some old
    → committed (insert id r m) + weight old ≡ committed m + weight r
committed-replace id r {old = old} m h =
    omega
      (arith, (rw h at (sum_by-insert spent_of id r m)), (rw h at (sum_by-insert held_of id r m)))

-- A sound budget within its limit.
pub record IsGood (limit : ℤ) (s : BudgetState) : Type 0 where
  pub table : Table Attempt
  pub shape : s ≡ with_attempts limit table
  pub sound : IsSound limit table
  pub within : committed table ≤ pos_part limit

pub put-IsSound :
    (limit : ℤ) (id : String) (r : Attempt) (m : Table Attempt)
    → IsSound limit m
    → AttemptOk id r
    → committed (insert id r m) ≤ max_int64
    → IsSound limit (insert id r m)
put-IsSound limit id r m h good small = record {
  limit_ok = h.limit_ok;
  entries_ok = Entries-insert AttemptOk id r m good h.entries_ok;
  fits = small;
}

pub put-IsGood :
    (limit : ℤ) (id : String) (r : Attempt) (m : Table Attempt) (s : BudgetState)
    → s ≡ with_attempts limit m
    → IsSound limit m
    → AttemptOk id r
    → committed (insert id r m) ≤ pos_part limit
    → pos_part limit ≤ max_int64
    → IsGood limit (with_attempt id r s)
put-IsGood limit id r m s shape h good le small = record {
  table = insert id r m;
  shape = ap (with_attempt id r) shape;
  sound = put-IsSound limit id r m h good (omega arith);
  within = le;
}

-- What an admitted reservation tells of the account.
pub record Admitted (r : Attempt) (s s' : BudgetState) (m : Table Attempt) : Type 0 where
  pub shape : s ≡ with_attempts s.limit_nano_usd m
  pub sound : IsSound s.limit_nano_usd m
  pub thawed : frozen_in m false ≡ false
  pub positive : is_neg r.reserved_nano_usd ≡ false
  pub room : committed m + pos_part r.reserved_nano_usd ≤ pos_part s.limit_nano_usd
  pub stored : s' ≡ with_attempt r.id r s

pub admitted :
    (r : Attempt) (s : BudgetState) {s' : BudgetState}
    → reserve r s ≡ accept tt s'
    → (m : Table Attempt) × Admitted r s s' m
unfolding reserve
admitted r s {s' = s'} h = elim (Result-cases (budget_snapshot s)) [
  | inl (v, e) ↦
      let (m, shape, sound, same) = snapshot_exact s e in
      let limit_ok = sound.limit_ok in (m, ground arith)
  | inr (x, e) ↦ absurd (ground arith)
]

-- What an admission needs of the account before, and leaves.
pub record Admits (key : String) (amount : ℤ) (s s' : BudgetState) : Type 0 where
  pub before : Table Attempt
  pub shape : s ≡ with_attempts s.limit_nano_usd before
  pub thawed : frozen_in before false ≡ false
  pub room : committed before + pos_part amount ≤ pos_part s.limit_nano_usd
  pub good : IsGood s.limit_nano_usd s'
  pub attempt : Attempt
  pub found : lookup key good.table ≡ some attempt
  pub is_reserved : attempt.state ≡ reserved
  pub holds : attempt.reserved_nano_usd ≡ amount

-- A reservation that is admitted was asked of an account that is not frozen and has room for it above
-- its settled costs and outstanding reservations. It leaves a sound budget in which these, the new
-- reservation included, are within the limit, and the new one is outstanding with its whole amount.
pub reserve-Admits :
    (key provider model : String) (p : FixedPrice) (amount : ℤ) (who : Identity) (now : ℕ)
    (s : BudgetState) {s' : BudgetState}
    → budget_id key ≡ true
    → pos_part s.limit_nano_usd ≤ max_int64
    → reserve (new_attempt key provider model p amount who now) s ≡ accept tt s'
    → Admits key amount s s'
unfolding new_attempt
reserve-Admits key provider model p amount who now s {s' = s'} valid_key small h =
    let r = new_attempt key provider model p amount who now in
    let (m, a) = admitted r s h in
    let room = a.room in
    let sound =
      put-IsSound s.limit_nano_usd key r m a.sound (refl, valid_key, a.positive, refl, refl)
        (omega (arith, committed-insert key r m)) in
    record {
      before = m;
      shape = a.shape;
      thawed = a.thawed;
      room = a.room;
      good = record {
        table = insert key r m;
        shape = a.stored ∙ ap (with_attempt key r) a.shape;
        sound = sound;
        within = omega (arith, committed-insert key r m);
      };
      attempt = r;
      found = lookup-insert_self key r m;
      is_reserved = refl;
      holds = refl;
    }

abbrev pub table_of : BudgetState → Table Attempt
table_of s = elim s.attempts [ none ↦ [] | some m ↦ m ]

-- What an accepted check tells of the value that it checked.
pub checked_at :
    (limit : ℤ) (m : Table Attempt) {s' : BudgetState}
    → checked (with_attempts limit m) (budget_snapshot (with_attempts limit m)) ≡ accept tt s'
    → (s' ≡ with_attempts limit m) × IsSound limit m
checked_at limit m {s' = s'} h = elim (Result-cases (budget_snapshot (with_attempts limit m))) [
  | inl (v, e) ↦
      let (n, shape, sound, same) = snapshot_exact (with_attempts limit m) e in
      let there : n ≡ m = sym (ap table_of shape) in
      (ground arith, subst (IsSound limit) there sound)
  | inr (x, e) ↦ absurd (ground arith)
]

-- What an accepted `reservation.update` did: between two checks one attempt, found under its key,
-- was replaced by what the closure made of it.
pub record Changed (id : String) (fn : Attempt → Result Attempt) (limit : ℤ) (m : Table Attempt)
    (s' : BudgetState) : Type 0 where
  pub old : Attempt
  pub new : Attempt
  pub time : ℕ
  pub found : lookup id m ≡ some old
  pub made : fn old ≡ ok new
  pub stored : s' ≡ with_attempts limit (insert id (record new { updated_at = time }) m)
  pub sound_after : IsSound limit (insert id (record new { updated_at = time }) m)

pub change-Changed :
    (id : String) (fn : Attempt → Result Attempt) (now : ℕ) (limit : ℤ) (m : Table Attempt)
    {s' : BudgetState}
    → change id fn now (with_attempts limit m) ≡ accept tt s'
    → Changed id fn limit m s'
unfolding change
change-Changed id fn now limit m {s' = s'} h =
    elim (Result-cases (budget_snapshot (with_attempts limit m))) [
      | inr (x, e) ↦ absurd (ground arith)
      | inl (v, e) ↦ elim (Option-cases (lookup id m)) [
        | inl q ↦ absurd (ground arith)
        | inr (r, q) ↦ elim (Result-cases (fn r)) [
          | inr (x, d) ↦ absurd (ground arith)
          | inl (r', d) ↦
              let n = insert id (record r' { updated_at = now }) m in
              let step : checked (with_attempts limit n) (budget_snapshot (with_attempts limit n))
                  ≡ accept tt s' =
                ground arith in
              let (stored, sound) = checked_at limit n step in
              record {
                old = r;
                new = r';
                time = now;
                found = q;
                made = d;
                stored = stored;
                sound_after = sound;
              }
        ]
      ]
    ]

-- What a closure may do to the weight of an attempt: no more than its reservation allows.
pub change-IsGood :
    (id : String) (fn : Attempt → Result Attempt) (now : ℕ) (limit : ℤ) (m : Table Attempt)
    {s' : BudgetState}
    → committed m ≤ pos_part limit
    → ((r r' : Attempt) → lookup id m ≡ some r → fn r ≡ ok r' → weight r' ≤ weight r)
    → change id fn now (with_attempts limit m) ≡ accept tt s'
    → IsGood limit s'
change-IsGood id fn now limit m {s' = s'} within light h =
    let c = change-Changed id fn now limit m h in
    let new = record c.new { updated_at = c.time } in
    record {
      table = insert id new m;
      shape = c.stored;
      sound = c.sound_after;
      within = omega (arith, committed-replace id new m c.found, light c.old c.new c.found c.made);
    }

-- Claiming an attempt for sending, and giving it back unsent, never add to what is committed; the
-- first keeps its whole reservation held and the second frees it.
pub claim-unsent-weight :
    (r r' : Attempt)
    → (claim r ≡ ok r' → (weight r' ≡ weight r) × (r'.state ≡ sending) × (r.state ≡ reserved))
      × (unsent r ≡ ok r' → (weight r' ≡ 0) × (r'.state ≡ released))
unfolding claim unsent
claim-unsent-weight r r' = (λ h. ground arith, λ h. ground arith)
