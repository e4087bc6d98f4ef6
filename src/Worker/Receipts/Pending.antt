-- ===== src/Worker/Receipts/Pending.antt =====
-- Which receipts of internal/worker/results.go are announced, and which are not any more.
use gopherharness.Base.{
  ℕ, ◌≡◌, ◌⊎◌, refl, sym, ◌∙◌, ap, subst, arith, String, str_eq, eq_iff, true, false, not, ◌&&◌,
  ◌||◌, Option, none, some, List, [], ◌∷◌, if_rule, if_cases, is_empty, inl, inr, Bool-cases,
  some_inj,
}
use gopherharness.Base.Text.{ne_of_test}
use gopherharness.Base.Table.{Table, lookup, insert, lookup-insert_self, lookup-insert_ne}
use gopherharness.Durable.{Verdict, accept}
use gopherharness.Worker.{Receipt, ResultState, Worker, Error, active}
use gopherharness.Worker.Receipts.{
  interrupt, interrupt_all, open_results, finished_receipt, finish_found, persist_finished,
  acknowledge_found, acknowledge, revoke_all, revoke_notifications, is_pending, Change, opens,
  finishes, acknowledges, revokes, or_same, change, changed,
}

-- A receipt that is not announced any more.
abbrev pub Quiet : String → ResultState → Type 0
Quiet id s =
    (r : Receipt) × (lookup id s.records ≡ some r) × ((r.acknowledged ≡ true) ⊎ (r.revoked ≡ true))

Quiet-insert :
    (id k : String) (r r' : Receipt) (s : ResultState)
    → lookup k s.records ≡ some r
    → (r.acknowledged ≡ true → r'.acknowledged ≡ true)
    → (r.revoked ≡ true → r'.revoked ≡ true)
    → Quiet id s
    → Quiet id (record s { records = insert k r' s.records })
Quiet-insert id k r r' s found ack rev (x, there, q) = elim (Bool-cases (str_eq k id)) [
  | inl p ↦
      let p' : k ≡ id = ground (arith, eq_iff k id) in
      let r_is_x : r ≡ x = some_inj (sym found ∙ ap (λ z. lookup z s.records) p' ∙ there) in
      (
        r',
        subst (λ z. lookup z (insert k r' s.records) ≡ some r') p'
            (lookup-insert_self k r' s.records),
        elim q [
          | inl a ↦ inl (ack (ap (λ (z : Receipt). z.acknowledged) r_is_x ∙ a))
          | inr a ↦ inr (rev (ap (λ (z : Receipt). z.revoked) r_is_x ∙ a))
        ],
      )
  | inr p ↦ (x, lookup-insert_ne k id r' s.records (ne_of_test k id p) ∙ there, q)
]

lookup-interrupt_all :
    (now : ℕ) (id : String) (m : Table Receipt) {r : Receipt}
    → lookup id m ≡ some r
    → lookup id (interrupt_all now m) ≡ some (interrupt now r)
unfolding lookup interrupt_all
lookup-interrupt_all now id [] h = absurd (cc)
lookup-interrupt_all now id ((k, x) ∷ m) {r = r} h = elim (Bool-cases (str_eq k id)) [
  | inl p ↦ rw p (ap (λ z. some (interrupt now z)) (some_inj (rw p at h)))
  | inr p ↦ rw p (lookup-interrupt_all now id m (rw p at h))
]

lookup-revoke_all :
    (id : String) (m : Table Receipt) {r : Receipt}
    → lookup id m ≡ some r
    → lookup id (revoke_all m) ≡ some (record r { revoked = true })
unfolding lookup revoke_all
lookup-revoke_all id [] h = absurd (cc)
lookup-revoke_all id ((k, x) ∷ m) {r = r} h = elim (Bool-cases (str_eq k id)) [
  | inl p ↦ rw p (ap (λ (z : Receipt). some (record z { revoked = true })) (some_inj (rw p at h)))
  | inr p ↦ rw p (lookup-revoke_all id m (rw p at h))
]

accept_inj :
    {v : Verdict Error (Unit {0}) ResultState} {s t : ResultState}
    → v ≡ accept tt s
    → v ≡ accept tt t
    → s ≡ t
accept_inj p q = cc

unless_active : (now : ℕ) (r : Receipt) → (active r.status ≡ true) ⊎ (interrupt now r ≡ r)
unfolding interrupt
unless_active now r =
    if_rule (λ (x : Receipt). (active r.status ≡ true) ⊎ (x ≡ r)) (active r.status) (λ a. inl a)
      (λ a. inr refl)

interrupt_keeps :
    (now : ℕ) (r : Receipt)
    → ((interrupt now r).acknowledged ≡ r.acknowledged)
      × ((interrupt now r).revoked ≡ r.revoked)
      × (active (interrupt now r).status ≡ false)
unfolding interrupt
interrupt_keeps now r =
    if_rule
      (λ (x : Receipt).
        (x.acknowledged ≡ r.acknowledged) × (x.revoked ≡ r.revoked) × (active x.status ≡ false))
      (active r.status) (λ a. (refl, refl, refl)) (λ a. (refl, refl, a))

module _ (redact : String → String) (id : String) where
  open-Quiet :
      (session principal : String) (now : ℕ) (s : ResultState)
      → Quiet id s
      → Quiet id (or_same (open_results session principal now s) s)
  unfolding open_results
  open-Quiet session principal now s (r, found, q) =
      if_rule (λ v. Quiet id (or_same v s))
        (not (is_empty s.session)
          && (not (str_eq s.session session) || not (str_eq s.principal principal)))
        (λ a. (r, found, q))
        (λ a.
          let (ack, rev, off) = interrupt_keeps now r in
          (
            interrupt now r,
            lookup-interrupt_all now id s.records found,
            elim q [ inl x ↦ inl (ack ∙ x) | inr x ↦ inr (rev ∙ x) ],
          ))

  finish-Quiet :
      (w : Worker) (s : ResultState)
      → Quiet id s
      → Quiet id (or_same (persist_finished redact w s) s)
  unfolding persist_finished
  finish-Quiet w s q = from (lookup w.id s.records) refl
    where
      from :
          (o : Option Receipt)
          → lookup w.id s.records ≡ o
          → Quiet id (or_same (finish_found o redact w s) s)
      from none e = q
      from (some r) e =
          Quiet-insert id w.id r (finished_receipt redact w r) s e (λ a. a) (λ a. ground (arith, a))
            q

  acknowledge-Quiet :
      (k : String) (s : ResultState) → Quiet id s → Quiet id (or_same (acknowledge k s) s)
  unfolding acknowledge
  acknowledge-Quiet k s q = from (lookup k s.records) refl
    where
      from :
          (o : Option Receipt)
          → lookup k s.records ≡ o
          → Quiet id (or_same (acknowledge_found o k s) s)
      from none e = q
      from (some r) e =
          if_rule (λ v. Quiet id (or_same v s)) (active r.status) (λ a. q)
            (λ a. Quiet-insert id k r (record r { acknowledged = true }) s e (λ b. refl) (λ b. b) q)

  revoke-Quiet : (s : ResultState) → Quiet id s → Quiet id (or_same (revoke_notifications s) s)
  unfolding revoke_notifications
  revoke-Quiet s (r, found, q) =
      (record r { revoked = true }, lookup-revoke_all id s.records found, inr refl)

  change-Quiet :
      (c : Change) (s : ResultState) → Quiet id s → Quiet id (or_same (change redact c s) s)
  unfolding change
  change-Quiet (opens session principal now) s q = open-Quiet session principal now s q
  change-Quiet (finishes w) s q = finish-Quiet w s q
  change-Quiet (acknowledges k) s q = acknowledge-Quiet k s q
  change-Quiet revokes s q = revoke-Quiet s q

  changed-Quiet : (cs : List Change) (s : ResultState) → Quiet id s → Quiet id (changed redact cs s)
  unfolding changed
  changed-Quiet [] s q = q
  changed-Quiet (c ∷ cs) s q = changed-Quiet cs _ (change-Quiet c s q)

  -- Once the acknowledgement of a receipt is accepted, it is never pending again: whatever sessions
  -- open, workers finish, and acknowledgements and revocations follow, the receipt is there and the
  -- test of `PendingResults` fails on it.
  pub acknowledge-is_pending :
      (cs : List Change) (s t : ResultState)
      → acknowledge id s ≡ accept tt t
      → (r : Receipt) × (lookup id (changed redact cs t).records ≡ some r) × (is_pending r ≡ false)
  unfolding acknowledge is_pending
  acknowledge-is_pending cs s t h =
      let (r, found, q) = changed-Quiet cs t (from (lookup id s.records) refl h) in
      (r, found, ground (arith, q))
    where
      from :
          (o : Option Receipt)
          → lookup id s.records ≡ o
          → acknowledge_found o id s ≡ accept tt t
          → Quiet id t
      from none e h = absurd (cc)
      from (some r) e h = elim (if_cases (active r.status) h) [
        | inl (a, x) ↦ absurd (cc)
        | inr (a, x) ↦
            let r' : Receipt = record r { acknowledged = true } in
            subst (Quiet id) (accept_inj refl x) (r', lookup-insert_self id r' s.records, inl refl)
      ]

-- When a session is opened by its owner, no receipt is active any more, and one that was not keeps
-- everything.
pub open_results-interrupt :
    (session principal id : String) (now : ℕ) (s t : ResultState) {r : Receipt}
    → open_results session principal now s ≡ accept tt t
    → lookup id s.records ≡ some r
    → (r' : Receipt) × (lookup id t.records ≡ some r')
      × (active r'.status ≡ false)
      × ((active r.status ≡ true) ⊎ (r' ≡ r))
unfolding open_results
open_results-interrupt session principal id now s t {r = r} h found =
    elim (if_cases
      (not (is_empty s.session)
        && (not (str_eq s.session session) || not (str_eq s.principal principal)))
      h) [
        | inl (a, x) ↦ absurd (cc)
        | inr (a, x) ↦
            let there = lookup-interrupt_all now id s.records found in
            (
              interrupt now r,
              subst (λ (z : ResultState). lookup id z.records ≡ some (interrupt now r))
                  (accept_inj refl x) there,
              (interrupt_keeps now r).2,
              unless_active now r,
            )
      ]
