-- ===== src/Approval/History/Spent.antt =====
-- An approval that was claimed stays claimed or settled (internal/permission/store.go).
use gopherharness.Base.{
  ◌≡◌, refl, sym, subst, ◌∙◌, String, str_eq, eq_iff, true, false, Bool, ◌||◌, some, arith, inl,
  inr, Bool-cases, some_inj,
}
use gopherharness.Base.Text.{ne_of_test}
use gopherharness.Base.Table.{
  lookup, insert, lookup-insert_self, lookup-insert_ne, Entries, Entries-insert, Entries-lookup,
}
use gopherharness.Approval.{ApprovalRecord, ApprovalState, store}

-- The statuses that a claim leads to.
abbrev pub spent_status : String → Bool
spent_status st =
    str_eq st "claimed" || (str_eq st "completed" || (str_eq st "failed" || str_eq st "unknown"))

pub record IsSpent (id : String) (s : ApprovalState) : Type 0 where
  pub of : ApprovalRecord
  pub found : lookup id s.records ≡ some of
  pub spent : spent_status of.status ≡ true

-- Every record stands under its own id.
abbrev pub IdsOk : ApprovalState → Type 0
IdsOk s = Entries (λ k r. r.id ≡ k) s.records

or_rule : {A : Type 0} (a b : Bool) → (a || b) ≡ true → (a ≡ true → A) → (b ≡ true → A) → A
or_rule true b h f g = f refl
or_rule false b h f g = g h

-- No spent status is one of the others that the code tests.
spent_others :
    (st : String)
    → spent_status st ≡ true
    → (str_eq st "pending" ≡ false) × (str_eq st "approved" ≡ false) × (str_eq st "denied" ≡ false)
spent_others st h = or_rule (str_eq st "claimed") _ h (is "claimed" (refl, refl, refl)) λ h₂.
    or_rule (str_eq st "completed") _ h₂ (is "completed" (refl, refl, refl)) λ h₃.
      or_rule (str_eq st "failed") _ h₃ (is "failed" (refl, refl, refl))
        (is "unknown" (refl, refl, refl))
  where
    is :
        (w : String)
        → (str_eq w "pending" ≡ false) × (str_eq w "approved" ≡ false) × (str_eq w "denied" ≡ false)
        → str_eq st w ≡ true
        → (str_eq st "pending" ≡ false)
          × (str_eq st "approved" ≡ false)
          × (str_eq st "denied" ≡ false)
    is w t e =
        subst
          (λ x.
            (str_eq x "pending" ≡ false)
            × (str_eq x "approved" ≡ false)
            × (str_eq x "denied" ≡ false))
          (sym ((eq_iff st w).0 e)) t

-- What an operation may do to the records: nothing, a write over no record or over one that is not
-- spent, or a write of a record that is spent.
pub data Effect (s : ApprovalState) : ApprovalState → Type 0 where
  same : {t : ApprovalState} → t ≡ s → Effect s t
  live :
      (k : String) (r : ApprovalRecord) {t : ApprovalState}
      → r.id ≡ k
      → ((r' : ApprovalRecord) → lookup k s.records ≡ some r' → spent_status r'.status ≡ false)
      → t ≡ store r k s
      → Effect s t
  spend :
      (k : String) (r : ApprovalRecord) {t : ApprovalState}
      → r.id ≡ k
      → spent_status r.status ≡ true
      → t ≡ store r k s
      → Effect s t

IsSpent-store_ne :
    (id k : String) (r : ApprovalRecord) (s : ApprovalState)
    → str_eq k id ≡ false
    → IsSpent id s
    → IsSpent id (store r k s)
IsSpent-store_ne id k r s ne h = record {
  of = h.of;
  found = lookup-insert_ne k id r s.records (ne_of_test k id ne) ∙ h.found;
  spent = h.spent;
}

IsSpent-store_self :
    (id k : String) (r : ApprovalRecord) (s : ApprovalState)
    → k ≡ id
    → spent_status r.status ≡ true
    → IsSpent id (store r k s)
IsSpent-store_self id k r s e h = record {
  of = r;
  found =
      subst (λ j. lookup j (insert k r s.records) ≡ some r) e (lookup-insert_self k r s.records);
  spent = h;
}

pub Effect-IsSpent : (id : String) {s t : ApprovalState} → Effect s t → IsSpent id s → IsSpent id t
Effect-IsSpent id (same e) h = subst (IsSpent id) (sym e) h
Effect-IsSpent id {s = s} (live k r own free e) h =
    subst (IsSpent id) (sym e) (elim (Bool-cases (str_eq k id)) [
      | inl q ↦
          let there : lookup k s.records ≡ some h.of =
            subst (λ j. lookup j s.records ≡ some h.of) (sym ((eq_iff k id).0 q)) h.found in
          let clash : true ≡ false = sym h.spent ∙ free h.of there in absurd (cc)
      | inr q ↦ IsSpent-store_ne id k r s q h
    ])
Effect-IsSpent id {s = s} (spend k r own sp e) h =
    subst (IsSpent id) (sym e) (elim (Bool-cases (str_eq k id)) [
      | inl q ↦ IsSpent-store_self id k r s ((eq_iff k id).0 q) sp
      | inr q ↦ IsSpent-store_ne id k r s q h
    ])

pub Effect-IdsOk : {s t : ApprovalState} → Effect s t → IdsOk s → IdsOk t
Effect-IdsOk (same e) h = subst IdsOk (sym e) h
Effect-IdsOk {s = s} (live k r own free e) h =
    subst IdsOk (sym e) (Entries-insert (λ j (q : ApprovalRecord). q.id ≡ j) k r s.records own h)
Effect-IdsOk {s = s} (spend k r own sp e) h =
    subst IdsOk (sym e) (Entries-insert (λ j (q : ApprovalRecord). q.id ≡ j) k r s.records own h)

pub own_id :
    (id : String) (r : ApprovalRecord) (s : ApprovalState)
    → IdsOk s
    → lookup id s.records ≡ some r
    → r.id ≡ id
own_id id r s h q = Entries-lookup (λ k (x : ApprovalRecord). x.id ≡ k) id s.records h q

-- A record that is pending or approved is not spent.
pub live_status :
    (st : String) → (str_eq st "pending" || str_eq st "approved") ≡ true → spent_status st ≡ false
live_status st h = elim (Bool-cases (spent_status st)) [
  | inr e ↦ e
  | inl e ↦ let (p, a, d) = spent_others st e in absurd (ground arith)
]

pub live_at :
    (id : String) (r : ApprovalRecord) (s : ApprovalState)
    → lookup id s.records ≡ some r
    → (str_eq r.status "pending" || str_eq r.status "approved") ≡ true
    → (r' : ApprovalRecord) → lookup id s.records ≡ some r'
    → spent_status r'.status ≡ false
live_at id r s q l r' q' =
    let equal : r ≡ r' = some_inj (sym q ∙ q') in
    subst (λ (x : ApprovalRecord). spent_status x.status ≡ false) equal (live_status r.status l)
