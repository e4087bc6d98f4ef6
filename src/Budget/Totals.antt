-- ===== src/Budget/Totals.antt =====
-- `budgetSnapshot` of internal/provider/budget.go against the sums that it stands for.
use gopherharness.Base.{
  ℕ, ◌+◌, ◌-◌, ◌≤◌, ◌≡◌, refl, String, Bool, true, false, ◌||◌, none, some, [], ◌∷◌, arith, eq_iff,
  inl, inr, Bool-cases, Option,
}
use gopherharness.Base.Int.{ℤ, is_neg, pos_part, max_int64}
use gopherharness.Base.Table.{Table, Entries, sum_by}
use gopherharness.Budget.{
  Attempt, AttemptState, reserved, sending, unknown, settled, other, BudgetState, Snapshot, Tally,
  ok, Result-cases, tally_one, tally_all, no_tally, conclude, snapshot_of, budget_snapshot,
  budget_id, schema_name,
}

-- What an attempt counts as spent, and as held.
abbrev spent_in : AttemptState → ℤ → ℕ
spent_in settled c = pos_part c
spent_in _ c = 0

abbrev held_in : AttemptState → ℤ → ℕ
held_in reserved c = pos_part c
held_in sending c = pos_part c
held_in unknown c = pos_part c
held_in _ c = 0

abbrev pub spent_of : Attempt → ℕ
spent_of r = spent_in r.state r.cost_nano_usd

abbrev pub held_of : Attempt → ℕ
held_of r = held_in r.state r.reserved_nano_usd

abbrev pub is_known : AttemptState → Bool
is_known (other _) = false
is_known _ = true

-- What the loop requires of one entry.
abbrev pub AttemptOk : String → Attempt → Type 0
AttemptOk id r =
    (r.id ≡ id)
    × (budget_id id ≡ true)
    × (is_neg r.reserved_nano_usd ≡ false)
    × (is_neg r.cost_nano_usd ≡ false)
    × (is_known r.state ≡ true)

abbrev pub spent_sum : Table Attempt → ℕ
spent_sum = sum_by spent_of

abbrev pub held_sum : Table Attempt → ℕ
held_sum = sum_by held_of

abbrev pub frozen_in : Table Attempt → Bool → Bool
frozen_in [] b = b
frozen_in ((id, r) ∷ m) b = frozen_in m (b || r.needs_reconciliation)

-- The totals after an entry.
abbrev next : Attempt → Tally → Tally
next r t = record {
  spent = t.spent + spent_of r;
  held = t.held + held_of r;
  frozen = t.frozen || r.needs_reconciliation;
}

tally_one_ok :
    (id : String) (r : Attempt) (t : Tally) {t' : Tally}
    → tally_one id r t ≡ ok t'
    → AttemptOk id r × (t' ≡ next r t)
unfolding tally_one
tally_one_ok id r t h = ground (arith, eq_iff r.id id)

tally_one_total :
    (id : String) (r : Attempt) (t : Tally)
    → AttemptOk id r
    → t.spent + spent_of r ≤ max_int64
    → t.held + held_of r ≤ max_int64
    → tally_one id r t ≡ ok (next r t)
unfolding tally_one
tally_one_total id r t h ps ph = ground (arith, eq_iff r.id id)

-- The totals after all the entries.
abbrev sums : Table Attempt → Tally → Tally
sums m t = record {
  spent = t.spent + spent_sum m;
  held = t.held + held_sum m;
  frozen = frozen_in m t.frozen;
}

tally_all_ok :
    (m : Table Attempt) (t : Tally) {t' : Tally}
    → tally_all m t ≡ ok t'
    → Entries AttemptOk m × (t' ≡ sums m t)
unfolding tally_all sum_by
tally_all_ok [] t h = (tt, ground arith)
tally_all_ok ((id, r) ∷ m) t {t' = t'} h = elim (Result-cases (tally_one id r t)) [
  | inl (t'', e) ↦
      let (good, step) = tally_one_ok id r t e in
      let (rest, same) = tally_all_ok m t'' {t' = t'} (rw e at h) in ((good, rest), ground arith)
  | inr (x, e) ↦ absurd (ground arith)
]

tally_all_total :
    (m : Table Attempt) (t : Tally)
    → Entries AttemptOk m
    → t.spent + spent_sum m ≤ max_int64
    → t.held + held_sum m ≤ max_int64
    → tally_all m t ≡ ok (sums m t)
unfolding tally_all sum_by
tally_all_total [] t h ps ph = ground arith
tally_all_total ((id, r) ∷ m) t h ps ph =
    rw (tally_one_total id r t h.0 (omega arith) (omega arith))
      (ground (arith, tally_all_total m (next r t) h.1 (omega arith) (omega arith)))

-- A budget that `budgetSnapshot` accepts: its schema and limit, its entries, and totals whose sum
-- is an int64.
pub record IsSound (limit : ℤ) (m : Table Attempt) : Type 0 where
  pub limit_ok : is_neg limit ≡ false
  pub entries_ok : Entries AttemptOk m
  pub fits : spent_sum m + held_sum m ≤ max_int64

-- What a snapshot of sound attempts says.
abbrev pub view_of : ℤ → Table Attempt → Snapshot
view_of limit m = record {
  limit = limit;
  spent = spent_sum m;
  held = held_sum m;
  remaining = pos_part limit - (spent_sum m + held_sum m);
  frozen = frozen_in m false;
}

abbrev pub with_attempts : ℤ → Table Attempt → BudgetState
with_attempts limit m = record { schema = schema_name; limit_nano_usd = limit; attempts = some m }

conclude_ok :
    (limit : ℤ) (t : Tally) {v : Snapshot}
    → conclude limit t ≡ ok v
    → (t.spent + t.held ≤ max_int64)
      × (v ≡ record {
        limit = limit;
        spent = t.spent;
        held = t.held;
        remaining = pos_part limit - (t.spent + t.held);
        frozen = t.frozen;
      })
unfolding conclude
conclude_ok limit t h = ground arith

snapshot_of_ok :
    (limit : ℤ) (o : Option (Table Attempt)) {v : Snapshot}
    → is_neg limit ≡ false
    → snapshot_of limit o ≡ ok v
    → (m : Table Attempt) × (o ≡ some m) × IsSound limit m × (v ≡ view_of limit m)
unfolding conclude
snapshot_of_ok limit none p h = absurd (cc)
snapshot_of_ok limit (some m) {v = v} p h = elim (Result-cases (tally_all m no_tally)) [
  | inl (t, e) ↦
      let (entries, same) = tally_all_ok m no_tally e in
      let (small, figures) = conclude_ok limit t {v = v} (rw e at h) in
      let bound : spent_sum m + held_sum m ≤ max_int64 = ground arith in
      (m, refl, record { limit_ok = p; entries_ok = entries; fits = bound }, ground arith)
  | inr (x, e) ↦ absurd (ground arith)
]

-- A snapshot is given exactly of a sound budget, and its figures are the sums of the settled costs
-- and of the outstanding reservations, what is left of the limit, and whether an attempt awaits
-- reconciliation.
pub snapshot_exact :
    (s : BudgetState) {v : Snapshot}
    → budget_snapshot s ≡ ok v
    → (m : Table Attempt) × (s ≡ with_attempts s.limit_nano_usd m)
      × IsSound s.limit_nano_usd m
      × (v ≡ view_of s.limit_nano_usd m)
unfolding budget_snapshot
snapshot_exact s {v = v} h = elim (Bool-cases (is_neg s.limit_nano_usd)) [
  | inl p ↦ absurd (ground arith)
  | inr p ↦
      let (m, present, sound, same) =
        snapshot_of_ok s.limit_nano_usd s.attempts {v = v} p (ground arith) in
      (m, ground (arith, eq_iff s.schema schema_name), sound, same)
]

pub snapshot_total :
    (limit : ℤ) (m : Table Attempt)
    → IsSound limit m
    → budget_snapshot (with_attempts limit m) ≡ ok (view_of limit m)
unfolding budget_snapshot conclude
snapshot_total limit m h =
    rw (tally_all_total m no_tally h.entries_ok (omega (arith, h.fits)) (omega (arith, h.fits)))
      (ground (arith, h))
