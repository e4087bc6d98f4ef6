-- ===== src/Approval/History.antt =====
-- Histories of an approval store (internal/permission/store.go): however creations, decisions,
-- claims and receipts follow one another, an approval is claimed at most once.
pub mod Spent
pub mod Effects
use Spent.{IsSpent, IdsOk, Effect, same, Effect-IsSpent, Effect-IdsOk, live_status, spent_status}
use Effects.{decide-Effect, finish-Effect, create-Effect, claim-Effect}
use gopherharness.Approval.Claims.{claim-Granted}
use gopherharness.Base.Table.{lookup, insert, lookup-insert_self}
use gopherharness.Base.{
  ℕ, ◌+◌, ◌≤◌, ◌≡◌, ◌≢◌, ◌⊎◌, refl, sym, ap, subst, ◌∙◌, some_inj, if_rule, String, str_eq, eq_iff,
  true, false, Bool, Option, none, some, List, [], ◌∷◌, arith, inl, inr, if_cases, Bool-cases,
  Option-cases, if◌then◌else◌,
}
use gopherharness.Base.Int.{ℤ}
use gopherharness.Durable.{Verdict, accept, refuse}
use gopherharness.Approval.{
  Action, ApprovalRecord, ApprovalState, Error, Claim, granted, lapsed, claimed, store, create,
  decide, Decision, claim, finish,
}

-- The operations with their arguments and times.
pub data Op : Type 0 where
  create_op : Action → ℤ → ℕ → Op
  decide_op : String → String → Bool → ℕ → ℕ → Op
  claim_op : String → String → Action → String → ℕ → ℕ → Op
  finish_op : String → String → String → String → ℕ → Op

-- The stored value after an operation, and whether a token was handed out.
abbrev after : {A : Type 0} → Verdict Error A ApprovalState → ApprovalState → ApprovalState
after (refuse e) s = s
after (accept a t) s = t

abbrev handed : Verdict Error Claim ApprovalState → ℕ
handed (accept (granted r token) t) = 1
handed _ = 0

not_spent :
    (r : ApprovalRecord) {r' : ApprovalRecord}
    → r.status ≡ "approved"
    → r' ≡ r
    → spent_status r'.status ≡ true
    → ⊥
not_spent r {r' = r'} st e sp =
    let at : r'.status ≡ "approved" = ap (λ (x : ApprovalRecord). x.status) e ∙ st in
    let clash : true ≡ false = sym sp ∙ ap spent_status at in absurd (cc)

module _ (digest : Action → Option String) (hash : String → String → String → String → String) where
  unfoldable pub apply : Op → ApprovalState → ApprovalState
  apply (create_op a ttl now) s = after (create digest hash a ttl now s) s
  apply (decide_op id principal allow now stamp) s = after (decide id principal allow now stamp s) s
  apply (claim_op id principal a token now stamp) s =
      after (claim digest hash id principal a token now stamp s) s
  apply (finish_op id token outcome receipt stamp) s =
      after (finish id token outcome receipt stamp s) s

  -- How many tokens an operation hands out for one approval.
  unfoldable pub grants : String → Op → ApprovalState → ℕ
  grants id (claim_op id' principal a token now stamp) s =
      if str_eq id' id then handed (claim digest hash id' principal a token now stamp s) else 0
  grants id (create_op a ttl now) s = 0
  grants id (decide_op id' principal allow now stamp) s = 0
  grants id (finish_op id' token outcome receipt stamp) s = 0

  unfoldable pub total_grants : String → List Op → ApprovalState → ℕ
  total_grants id [] s = 0
  total_grants id (op ∷ ops) s = grants id op s + total_grants id ops (apply op s)

  apply-Effect : (op : Op) (s : ApprovalState) → IdsOk s → Effect s (apply op s)
  unfolding apply
  apply-Effect (create_op a ttl now) s ok = go (create digest hash a ttl now s) refl
    where
      go :
          (v : Verdict Error ApprovalRecord ApprovalState)
          → create digest hash a ttl now s ≡ v
          → Effect s (after v s)
      go (refuse e) q = same refl
      go (accept r t) q = create-Effect digest hash a ttl now s q
  apply-Effect (decide_op id principal allow now stamp) s ok =
      go (decide id principal allow now stamp s) refl
    where
      go :
          (v : Verdict Error Decision ApprovalState)
          → decide id principal allow now stamp s ≡ v
          → Effect s (after v s)
      go (refuse e) q = same refl
      go (accept r t) q = decide-Effect id principal allow now stamp s ok q
  apply-Effect (claim_op id principal a token now stamp) s ok =
      go (claim digest hash id principal a token now stamp s) refl
    where
      go :
          (v : Verdict Error Claim ApprovalState)
          → claim digest hash id principal a token now stamp s ≡ v
          → Effect s (after v s)
      go (refuse e) q = same refl
      go (accept r t) q = claim-Effect digest hash id principal a token now stamp s ok q
  apply-Effect (finish_op id token outcome receipt stamp) s ok =
      go (finish id token outcome receipt stamp s) refl
    where
      go :
          (v : Verdict Error (Unit {0}) ApprovalState)
          → finish id token outcome receipt stamp s ≡ v
          → Effect s (after v s)
      go (refuse e) q = same refl
      go (accept r t) q = finish-Effect id token outcome receipt stamp s q

  -- A token is handed out only of an approval that is not spent, and it is spent afterwards.
  handed-claim :
      (id principal : String) (a : Action) (token : String) (now stamp : ℕ) (s : ApprovalState)
      → let v = claim digest hash id principal a token now stamp s in
        (handed v ≡ 0) ⊎ ((handed v ≡ 1) × (¬ (IsSpent id s)) × IsSpent id (after v s))
  handed-claim id principal a token now stamp s =
      go (claim digest hash id principal a token now stamp s) refl
    where
      go :
          (v : Verdict Error Claim ApprovalState)
          → claim digest hash id principal a token now stamp s ≡ v
          → (handed v ≡ 0) ⊎ ((handed v ≡ 1) × (¬ (IsSpent id s)) × IsSpent id (after v s))
      go (refuse e) q = inl refl
      go (accept lapsed t) q = inl refl
      go (accept (granted r0 tk) t) q =
          let (r, found, dg, owner, caller, approved, what) =
            claim-Granted digest hash id principal a token now stamp s q in
          elim what [
            | inr (late, given, stored) ↦ absurd (cc)
            | inl (early, given, stored) ↦ inr (
              refl,
              λ (h : IsSpent id s). not_spent r approved (some_inj (sym h.found ∙ found)) h.spent,
              subst (IsSpent id) (sym stored) (record {
                of = claimed r token stamp;
                found = lookup-insert_self id (claimed r token stamp) s.records;
                spent = refl;
              }),
            )
          ]

  grants-cases :
      (id : String) (op : Op) (s : ApprovalState)
      → (grants id op s ≡ 0) ⊎ ((grants id op s ≡ 1) × (¬ (IsSpent id s)) × IsSpent id (apply op s))
  unfolding grants apply
  grants-cases id (create_op a ttl now) s = inl refl
  grants-cases id (decide_op id' principal allow now stamp) s = inl refl
  grants-cases id (finish_op id' token outcome receipt stamp) s = inl refl
  grants-cases id (claim_op id' principal a token now stamp) s =
      if_rule
        (λ n.
          (n ≡ 0)
          ⊎ ((n ≡ 1)
              × (¬ (IsSpent id s))
              × IsSpent id (after (claim digest hash id' principal a token now stamp s) s)))
        (str_eq id' id)
        (λ e.
          subst
            (λ j.
              let v = claim digest hash j principal a token now stamp s in
              (handed v ≡ 0) ⊎ ((handed v ≡ 1) × (¬ (IsSpent id s)) × IsSpent id (after v s)))
            (sym ((eq_iff id' id).0 e)) (handed-claim id principal a token now stamp s))
        (λ _. inl refl)

  total_grants_spent :
      (id : String) (ops : List Op) (s : ApprovalState)
      → IdsOk s
      → IsSpent id s
      → total_grants id ops s ≡ 0
  unfolding total_grants
  total_grants_spent id [] s ok h = refl
  total_grants_spent id (op ∷ ops) s ok h = elim (grants-cases id op s) [
    | inl z ↦
        let e = apply-Effect op s ok in
        omega (
          arith,
          z,
          total_grants_spent id ops (apply op s) (Effect-IdsOk e ok) (Effect-IsSpent id e h),
        )
    | inr (one, free, sp) ↦ absurd (free h)
  ]

  -- Over any sequence of creations, decisions, claims and receipts, by any principals and at any
  -- times, at most one claim of an approval is handed out.
  pub claimed_at_most_once :
      (id : String) (ops : List Op) (s : ApprovalState) → IdsOk s → total_grants id ops s ≤ 1
  unfolding total_grants
  claimed_at_most_once id [] s ok = omega arith
  claimed_at_most_once id (op ∷ ops) s ok =
      let e = apply-Effect op s ok in
      let ok' = Effect-IdsOk e ok in
      elim (grants-cases id op s) [
        | inl z ↦ omega (arith, z, claimed_at_most_once id ops (apply op s) ok')
        | inr (one, free, sp) ↦ omega (arith, one, total_grants_spent id ops (apply op s) ok' sp)
      ]
