-- ===== src/Approval/Claims.antt =====
-- What an accepted claim tells of the approval (internal/permission/store.go).
use gopherharness.Base.{
  ℕ, ◌≤◌, ◌<◌, ◌≡◌, ◌⊎◌, String, str_eq, eq_iff, true, not, ◌||◌, Option, some, arith, inl, inr,
  if_cases, Option-cases, if◌then◌else◌,
}
use gopherharness.Base.Int.{ℤ}
use gopherharness.Base.Table.{lookup, lookup-insert_self}
use gopherharness.Durable.{accept, refuse}
use gopherharness.Approval.{
  Action, ApprovalRecord, ApprovalState, Claim, granted, lapsed, claim, claim_record, create,
  approval_id, complete_identity, new_record, claimed, with_status, store, changed,
}

-- A grant of a record, or its expiry.
abbrev pub Granted :
    ApprovalRecord → String → String → ℕ → ℕ → ApprovalState → Claim → ApprovalState → Type 0
Granted r id token now stamp s c s' =
    ((now < r.expires_at)
      × (c ≡ granted (claimed r token stamp) token)
      × (s' ≡ store (claimed r token stamp) id s))
    ⊎ ((r.expires_at ≤ now) × (c ≡ lapsed) × (s' ≡ store (with_status r "expired" stamp) id s))

claim_record_ok :
    (r : ApprovalRecord) (id principal digest : String) (current : Action) (token : String)
    (now stamp : ℕ) (s : ApprovalState) {c : Claim} {s' : ApprovalState}
    → claim_record r id principal digest current token now stamp s ≡ accept c s'
    → (r.action.principal ≡ principal)
      × (current.principal ≡ principal)
      × (r.digest ≡ digest)
      × (r.status ≡ "approved")
      × Granted r id token now stamp s c s'
unfolding claim_record
claim_record_ok r id principal digest current token now stamp s {c = c} {s' = s'} h =
    elim (if_cases
      (not (str_eq r.action.principal principal) || not (str_eq current.principal principal)) h) [
        | inl (_, x) ↦ absurd (cc)
        | inr (who, h₂) ↦ elim (if_cases (not (str_eq r.digest digest)) h₂) [
          | inl (_, x) ↦ absurd (cc)
          | inr (what, h₃) ↦ elim (if_cases (not (str_eq r.status "approved")) h₃) [
            | inl (_, x) ↦ absurd (cc)
            | inr (st, h₄) ↦ (
              ground (arith, eq_iff r.action.principal principal),
              ground (arith, eq_iff current.principal principal),
              ground (arith, eq_iff r.digest digest),
              ground (arith, eq_iff r.status "approved"),
              ground arith,
            )
          ]
        ]
      ]

module _ (digest : Action → Option String) (hash : String → String → String → String → String) where
  -- A claim that is not refused was made by the principal of an approved record, of exactly the
  -- action whose digest was approved; before the deadline it hands out the token and leaves the
  -- record claimed under it, and from the deadline on it hands out nothing and leaves it expired.
  pub claim-Granted :
      (id principal : String) (current : Action) (token : String) (now stamp : ℕ)
      (s : ApprovalState) {c : Claim} {s' : ApprovalState}
      → claim digest hash id principal current token now stamp s ≡ accept c s'
      → (r : ApprovalRecord) × (lookup id s.records ≡ some r)
        × (digest current ≡ some r.digest)
        × (r.action.principal ≡ principal)
        × (current.principal ≡ principal)
        × (r.status ≡ "approved")
        × Granted r id token now stamp s c s'
  unfolding claim
  claim-Granted id principal current token now stamp s {c = c} {s' = s'} h =
      elim (Option-cases (digest current)) [
        | inl q ↦ absurd (ground arith)
        | inr (d, q) ↦ elim (Option-cases (lookup id s.records)) [
          | inl p ↦ absurd (ground arith)
          | inr (r, p) ↦
              let (owner, caller, same, approved, what) =
                claim_record_ok r id principal d current token now stamp s {c = c} {s' = s'}
                  (ground arith) in
              (r, p, cc, owner, caller, approved, what)
        ]
      ]

  -- After an accepted `Create`, another one under the same identity changes nothing: it returns the
  -- record as it stands if the digest of its action is the recorded one, and is refused otherwise.
  pub create_again :
      (a a' : Action) (ttl ttl' : ℤ) (now now' : ℕ) (d : String) (s : ApprovalState)
      {r : ApprovalRecord} {t : ApprovalState}
      → create digest hash a ttl now s ≡ accept r t
      → approval_id digest hash a' ≡ approval_id digest hash a
      → complete_identity a' ≡ true
      → digest a' ≡ some d
      → create digest hash a' ttl' now' t
        ≡ (if str_eq r.digest d then accept r t else refuse changed)
  unfolding create
  create_again a a' ttl ttl' now now' d s {r = r} {t = t} h same full dg =
      elim (if_cases (complete_identity a) h) [
        | inr (b, x) ↦ absurd (cc)
        | inl (b, x) ↦ elim (Option-cases (digest a)) [
          | inl q ↦ absurd (ground arith)
          | inr (d0, q) ↦
              let id = approval_id digest hash a in
              let there : lookup id t.records ≡ some r = elim (Option-cases (lookup id s.records)) [
                | inl p ↦
                    ground (arith, lookup-insert_self id (new_record id d0 a now ttl) s.records)
                | inr (old, p) ↦ ground arith
              ] in
              rw (full, dg, same, there)
        ]
      ]
