-- ===== src/Approval/History/Effects.antt =====
-- What each operation of internal/permission/store.go may do to the records.
use gopherharness.Base.{
  ℕ, ◌≡◌, refl, String, str_eq, true, not, Bool, ◌||◌, ◌&&◌, Option, none, some, arith, inl, inr,
  if_cases, Option-cases, ltb, is_empty,
}
use gopherharness.Base.Int.{ℤ}
use gopherharness.Base.Table.{lookup}
use gopherharness.Durable.{accept}
use gopherharness.Approval.{
  Action, ApprovalRecord, ApprovalState, Claim, Decision, create, approval_id, complete_identity,
  is_outcome, decide, decide_record, claim, finish, finish_record, with_status, wanted, claimed,
  finished, new_record,
}
use gopherharness.Approval.Claims.{claim-Granted}
use gopherharness.Approval.History.Spent.{
  Effect, same, live, spend, IdsOk, own_id, live_at, spent_status,
}

none-some : {A : Type 0} {o : Option A} {a : A} → o ≡ none → o ≡ some a → ⊥
none-some p q = absurd (cc)

decide_record-Effect :
    (id : String) (r : ApprovalRecord) (allow : Bool) (now stamp : ℕ) (s : ApprovalState)
    {d : Decision} {t : ApprovalState}
    → r.id ≡ id
    → lookup id s.records ≡ some r
    → decide_record r id allow now stamp s ≡ accept d t
    → Effect s t
unfolding decide_record
decide_record-Effect id r allow now stamp s {d = d} {t = t} own q h =
    elim (if_cases (str_eq r.status "pending" && not (ltb now r.expires_at)) h) [
      | inl (b, x) ↦
          live id (with_status r "expired" stamp) own (live_at id r s q (ground arith))
            (ground arith)
      | inr (_, h₂) ↦ elim (if_cases (str_eq r.status (wanted allow)) h₂) [
        | inl (b, x) ↦ same (ground arith)
        | inr (_, h₃) ↦
            elim (if_cases
              (not (str_eq r.status "pending") && not (str_eq r.status "approved" && not allow))
              h₃) [
                | inl (b, x) ↦ absurd (cc)
                | inr (b, x) ↦
                    live id (with_status r (wanted allow) stamp) own
                      (live_at id r s q (ground arith)) (ground arith)
              ]
      ]
    ]

pub decide-Effect :
    (id principal : String) (allow : Bool) (now stamp : ℕ) (s : ApprovalState) {d : Decision}
    {t : ApprovalState}
    → IdsOk s
    → decide id principal allow now stamp s ≡ accept d t
    → Effect s t
unfolding decide
decide-Effect id principal allow now stamp s {d = d} {t = t} ok h =
    elim (Option-cases (lookup id s.records)) [
      | inl q ↦ absurd (ground arith)
      | inr (r, q) ↦
          decide_record-Effect id r allow now stamp s {d = d} (own_id id r s ok q) q (ground arith)
    ]

finish_record-Effect :
    (r : ApprovalRecord) (token outcome receipt : String) (stamp : ℕ) (s : ApprovalState)
    {u : Unit {0}} {t : ApprovalState}
    → spent_status outcome ≡ true
    → finish_record r token outcome receipt stamp s ≡ accept u t
    → Effect s t
unfolding finish_record
finish_record-Effect r token outcome receipt stamp s {u = u} {t = t} sp h =
    elim (if_cases (is_empty token || not (str_eq r.claim_token token)) h) [
      | inl (b, x) ↦ absurd (cc)
      | inr (_, h₂) ↦ elim (if_cases (str_eq r.status outcome && str_eq r.receipt receipt) h₂) [
        | inl (b, x) ↦ same (ground arith)
        | inr (_, h₃) ↦ elim (if_cases (not (str_eq r.status "claimed")) h₃) [
          | inl (b, x) ↦ absurd (cc)
          | inr (b, x) ↦ spend r.id (finished r outcome receipt stamp) refl sp (ground arith)
        ]
      ]
    ]

outcome_spent :
    (o : String)
    → (str_eq o "completed" || str_eq o "failed" || str_eq o "unknown") ≡ true
    → spent_status o ≡ true
outcome_spent o h = ground arith

pub finish-Effect :
    (id token outcome receipt : String) (stamp : ℕ) (s : ApprovalState) {u : Unit {0}}
    {t : ApprovalState}
    → finish id token outcome receipt stamp s ≡ accept u t
    → Effect s t
unfolding finish
finish-Effect id token outcome receipt stamp s {u = u} {t = t} h =
    elim (if_cases (not (is_outcome outcome)) h) [
      | inl (b, x) ↦ absurd (cc)
      | inr (b, x) ↦ elim (Option-cases (lookup id s.records)) [
        | inl q ↦ absurd (ground arith)
        | inr (r, q) ↦
            finish_record-Effect r token outcome receipt stamp s {u = u}
              (outcome_spent outcome (ground arith)) (ground arith)
      ]
    ]

module _ (digest : Action → Option String) (hash : String → String → String → String → String) where
  pub create-Effect :
      (a : Action) (ttl : ℤ) (now : ℕ) (s : ApprovalState) {r : ApprovalRecord} {t : ApprovalState}
      → create digest hash a ttl now s ≡ accept r t
      → Effect s t
  unfolding create
  create-Effect a ttl now s {r = r} {t = t} h =
      let id = approval_id digest hash a in
      elim (if_cases (complete_identity a) h) [
        | inr (b, x) ↦ absurd (cc)
        | inl (b, x) ↦ elim (Option-cases (digest a)) [
          | inl q ↦ absurd (ground arith)
          | inr (dg, q) ↦ elim (Option-cases (lookup id s.records)) [
            | inr (old, p) ↦ same (ground arith)
            | inl p ↦
                live id (new_record id dg a now ttl) refl (λ r' p'. absurd (none-some p p'))
                  (ground arith)
          ]
        ]
      ]

  pub claim-Effect :
      (id principal : String) (a : Action) (token : String) (now stamp : ℕ) (s : ApprovalState)
      {c : Claim} {t : ApprovalState}
      → IdsOk s
      → claim digest hash id principal a token now stamp s ≡ accept c t
      → Effect s t
  claim-Effect id principal a token now stamp s {c = c} {t = t} ok h =
      let (r, q, dg, owner, caller, approved, what) =
        claim-Granted digest hash id principal a token now stamp s h in
      let own = own_id id r s ok q in
      let alive = live_at id r s q (rw approved refl) in
      elim what [
        | inl (early, given, stored) ↦ live id (claimed r token stamp) own alive stored
        | inr (late, given, stored) ↦ live id (with_status r "expired" stamp) own alive stored
      ]
