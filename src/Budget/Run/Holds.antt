-- ===== src/Budget/Run/Holds.antt =====
-- A reservation that is outstanding in a good account, through the steps of `Budgeted.run`
-- (internal/provider/budget.go).
use gopherharness.Base.{
  ℕ, ◌+◌, ◌≤◌, ◌≡◌, refl, some_inj, if_rule, sym, ◌∙◌, ap, subst, List, String, true, Option, none,
  some, [], ◌∷◌, arith,
}
use gopherharness.Base.Int.{ℤ, pos, pos_part, max_int64}
use gopherharness.Base.Table.{Table, lookup, insert, lookup-insert_self}
use gopherharness.Durable.{Fault, accept, update, current}
use gopherharness.Durable.Atomic.{Keeps, Keeps-intro, update-FileHas, update-carries}
use gopherharness.Budget.{
  Attempt, BudgetState, Error, FixedPrice, Usage, Result, ok, budget_id, cancelled,
}
use gopherharness.Budget.Totals.{IsSound, with_attempts}
use gopherharness.Budget.Account.{reserve, new_attempt, change, claim, unsent, with_attempt}
use gopherharness.Budget.Admission.{
  IsGood, committed, weight, committed-replace, change-Changed, change-IsGood, put-IsSound,
  committed-insert, admitted, claim-unsent-weight,
}
use gopherharness.Budget.Run.{
  Script, Report, send, settle, give_back, charge, settlement, actual, Charge, charged, retained,
  Failure, stored, own, claimed, empty_state,
}

-- A good account in which the attempt under `key` weighs `amount`.
pub record Holds (limit : ℤ) (key : String) (amount : ℕ) (s : BudgetState) : Type 0 where
  pub table : Table Attempt
  pub shape : s ≡ with_attempts limit table
  pub sound : IsSound limit table
  pub within : committed table ≤ pos_part limit
  pub attempt : Attempt
  pub found : lookup key table ≡ some attempt
  pub weighs : weight attempt ≡ amount

pub Holds-IsGood :
    {limit : ℤ} {key : String} {amount : ℕ} {s : BudgetState}
    → Holds limit key amount s
    → IsGood limit s
Holds-IsGood h = record { table = h.table; shape = h.shape; sound = h.sound; within = h.within }

-- A change that adds no weight to the attempt keeps the account good.
pub change-lighter :
    (limit : ℤ) (key : String) (amount now : ℕ) (fn : Attempt → Result Attempt) (s : BudgetState)
    → ((r r' : Attempt) → weight r ≡ amount → fn r ≡ ok r' → weight r' ≤ amount)
    → Holds limit key amount s
    → Keeps (IsGood limit) (change key fn now s)
change-lighter limit key amount now fn s light h =
    Keeps-intro (IsGood limit) (change key fn now s) λ a t q.
      change-IsGood key fn now limit h.table h.within
        (λ r r' f m.
          let same : r ≡ h.attempt = some_inj (sym f ∙ h.found) in
          let heavy : weight r ≡ amount = ap weight same ∙ h.weighs in
          omega (arith, light r r' heavy m))
        (subst (λ u. change key fn now u ≡ accept a t) h.shape q)

-- A change that keeps the attempt's weight keeps it held.
change-same :
    (limit : ℤ) (key : String) (amount now : ℕ) (fn : Attempt → Result Attempt) (s : BudgetState)
    → ((r r' : Attempt) → weight r ≡ amount → fn r ≡ ok r' → weight r' ≡ amount)
    → Holds limit key amount s
    → Keeps (Holds limit key amount) (change key fn now s)
change-same limit key amount now fn s same h =
    Keeps-intro (Holds limit key amount) (change key fn now s) λ a t q.
      let c =
        change-Changed key fn now limit h.table
          (subst (λ u. change key fn now u ≡ accept a t) h.shape q) in
      let new = record c.new { updated_at = c.time } in
      let known : c.old ≡ h.attempt = some_inj (sym c.found ∙ h.found) in
      let old_weight : weight c.old ≡ amount = ap weight known ∙ h.weighs in
      let new_weight : weight new ≡ amount = same c.old c.new old_weight c.made in
      record {
        table = insert key new h.table;
        shape = c.stored;
        sound = c.sound_after;
        within = omega (arith, committed-replace key new h.table c.found, h.within);
        attempt = new;
        found = lookup-insert_self key new h.table;
        weighs = new_weight;
      }

settlement-weight :
    (c : Charge) (model : String) (u : Usage) (amount : ℕ)
    → ((n : ℕ) (p : FixedPrice) → c ≡ charged n p → n ≤ amount)
    → (r r' : Attempt) → weight r ≡ amount
    → settlement c model u r ≡ ok r'
    → weight r' ≤ amount
unfolding settlement
settlement-weight (charged n p) model u amount h r r' w q = ground (arith, h n p refl)
settlement-weight (retained f) model u amount h r r' w q = ground arith

-- A file whose value is good, or holds the reservation.
abbrev pub FileGood : ℤ → Option BudgetState → Type 0
FileGood limit f = IsGood limit (current empty_state f)

abbrev pub FileHolds : ℤ → String → ℕ → Option BudgetState → Type 0
FileHolds limit key amount f = Holds limit key amount (current empty_state f)

module _ (limit : ℤ) (prices : Table FixedPrice) (s : Script) (amount : ℕ) where
  give_back_good :
      (why : List Failure) (file : Option BudgetState)
      → FileHolds limit s.key amount file
      → FileGood limit (give_back why s file).file
  unfolding give_back
  give_back_good why file h =
      update-carries empty_state (Holds limit s.key amount) (IsGood limit)
        (change s.key unsent s.now) s.unsent_disk file (λ t. Holds-IsGood)
        (λ t.
          change-lighter limit s.key amount s.now unsent t
            (λ r r' w q. omega (arith, (claim-unsent-weight r r').1 q)))
        h

  settle_good :
      (file : Option BudgetState)
      → ((n : ℕ) (p : FixedPrice)
          → charge prices (actual s) s.reply.usage ≡ charged n p
          → n ≤ amount)
      → FileHolds limit s.key amount file
      → FileGood limit (settle prices s file).file
  unfolding settle
  settle_good file cheap h =
      let c = charge prices (actual s) s.reply.usage in
      let fn = settlement c (actual s) s.reply.usage in
      update-carries empty_state (Holds limit s.key amount) (IsGood limit) (change s.key fn s.now)
        s.settle_disk file (λ t. Holds-IsGood)
        (λ t.
          change-lighter limit s.key amount s.now fn t
            (settlement-weight c (actual s) s.reply.usage amount cheap))
        h

  pub send_good :
      (file : Option BudgetState)
      → ((n : ℕ) (p : FixedPrice)
          → charge prices (actual s) s.reply.usage ≡ charged n p
          → n ≤ amount)
      → FileHolds limit s.key amount file
      → FileGood limit (send prices s file).file
  unfolding send
  send_good file cheap h =
      let held =
        update-FileHas empty_state (Holds limit s.key amount) (change s.key claim s.now)
          s.claim_disk file
          (λ t.
            change-same limit s.key amount s.now claim t
              (λ r r' w q. omega (arith, (claim-unsent-weight r r').0 q)))
          h in
      claimed_good (update empty_state (change s.key claim s.now) s.claim_disk file).failure
        (update empty_state (change s.key claim s.now) s.claim_disk file).file held
    where
      claimed_good :
          (e : Option (Fault Error)) (f : Option BudgetState)
          → FileHolds limit s.key amount f
          → FileGood limit (claimed e prices s f).file
      claimed_good (some e) f k = give_back_good (stored e ∷ []) f k
      claimed_good none f k =
          if_rule (λ (r : Report). FileGood limit r.file) s.done_after_claim
            (λ _. give_back_good (own cancelled ∷ []) f k) (λ _. settle_good f cheap k)

-- A reservation that is stored holds its amount.
pub reserve-Holds :
    (limit : ℤ) (s : Script) (p : FixedPrice) (amount : ℕ) (t : BudgetState)
    → budget_id s.key ≡ true
    → pos_part limit ≤ max_int64
    → IsGood limit t
    → Keeps
        (Holds limit s.key amount)
        (reserve (new_attempt s.key s.provider s.model p (pos amount) s.identity s.now) t)
unfolding new_attempt
reserve-Holds limit s p amount t valid_key small h =
    let r = new_attempt s.key s.provider s.model p (pos amount) s.identity s.now in
    Keeps-intro (Holds limit s.key amount) (reserve r t) λ a t' q.
      let (m, adm) = admitted r t q in
      let same : t.limit_nano_usd ≡ limit = ap (λ (u : BudgetState). u.limit_nano_usd) h.shape in
      let room : committed m + amount ≤ pos_part limit =
        subst (λ l. committed m + amount ≤ pos_part l) same adm.room in
      let sound : IsSound limit m = subst (λ l. IsSound l m) same adm.sound in
      let shape : t ≡ with_attempts limit m = subst (λ l. t ≡ with_attempts l m) same adm.shape in
      let fits : committed (insert s.key r m) ≤ pos_part limit =
        omega (arith, committed-insert s.key r m) in
      record {
        table = insert s.key r m;
        shape = adm.stored ∙ ap (with_attempt s.key r) shape;
        sound = put-IsSound limit s.key r m sound (refl, valid_key, refl, refl, refl) (omega arith);
        within = fits;
        attempt = r;
        found = lookup-insert_self s.key r m;
        weighs = omega arith;
      }
