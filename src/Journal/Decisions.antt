-- ===== src/Journal/Decisions.antt =====
-- What `Resolve` of internal/journal/journal.go may do, by the operator's decision.
use gopherharness.Base.{
  ℕ, ◌≡◌, ◌≢◌, ◌⊎◌, refl, sym, subst, String, str_eq, eq_iff, true, false, Option, none, some, [],
  ◌∷◌, ◌++◌, arith, inl, inr, if_cases, Option-cases, ◌&&◌, ◌||◌, not, is_some, if◌then◌else◌,
}
use gopherharness.Base.Table.{lookup, insert, lookup-insert_self}
use gopherharness.Base.Text.{blank}
use gopherharness.Durable.{Verdict, accept, refuse}
use gopherharness.Journal.{
  Payload, message_id, Resolution, Entry, Error, State, key, new_entry, not_unresolved,
}
use gopherharness.Journal.Resolve.{
  resolve, recover_with, decide, recover_result, unresolved, resolved, store,
}

none_ne : {A : Type 0} {a : A} → some a ≢ none
none_ne h = absurd (cc)

-- The four decisions, and what each makes of the entry.
abbrev pub Decided : String → Resolution → Option Payload → Entry → Entry → Type 0
Decided kind d recovered e e' =
    ((d.action ≡ "abandon") × (e'.state ≡ "abandoned") × (e'.result ≡ e.result))
    ⊎ (((kind ≡ "outbox")
          × (d.action ≡ "delivered")
          × (blank d.receipt ≡ false)
          × (e'.state ≡ "delivered")
          × (e'.result ≡ some (message_id d.receipt)))
        ⊎ (((kind ≡ "outbox")
              × (d.action ≡ "confirmed_not_sent")
              × (e'.state ≡ "pending")
              × (e'.result ≡ e.result))
            ⊎ ((kind ≡ "inbox")
                × (d.action ≡ "recover_result")
                × (e'.state ≡ "completed")
                × (e'.result ≡ recovered)
                × (recovered ≢ none))))

-- The entry that a decision leaves under its key, with the decision recorded behind the earlier
-- ones and its payload kept.
abbrev Leaves : String → String → Resolution → Option Payload → Entry → State → Type 0
Leaves kind id d recovered e s' =
    (e' : Entry) × (lookup (key kind id) s'.entries ≡ some e')
    × (e'.payload ≡ e.payload)
    × (e'.resolutions ≡ e.resolutions ++ d ∷ [])
    × Decided kind d recovered e e'

stored :
    (kind id to : String) (r : Option Payload) (d : Resolution) (recovered : Option Payload)
    (e : Entry) (s : State) {s' : State}
    → Decided kind d recovered e (resolved e to r d)
    → ◌≡◌ {A = Verdict Error (Unit {0}) State}
        (accept tt (store (key kind id) (resolved e to r d) s))
        (accept tt s')
    → Leaves kind id d recovered e s'
stored kind id to r d recovered e s {s' = s'} how h =
    let e' = resolved e to r d in
    let same : s'.entries ≡ insert (key kind id) e' s.entries = ground arith in
    (e', rw same (lookup-insert_self (key kind id) e' s.entries), refl, refl, how)

recover-Leaves :
    (epoch : ℕ) (kind id : String) (d : Resolution) (recovered : Option Payload) (e : Entry)
    (s : State) {s' : State}
    → kind ≡ "inbox"
    → d.action ≡ "recover_result"
    → recover_with recovered epoch id d e s ≡ accept tt s'
    → Leaves kind id d recovered e s'
unfolding recover_result
recover-Leaves epoch kind id d none e s k a h = absurd (cc)
recover-Leaves epoch kind id d (some m) e s {s' = s'} k a h =
    elim (if_cases (is_some (lookup (key "outbox" id) s.entries)) h) [
      | inl (b, x) ↦ absurd (cc)
      | inr (b, x) ↦
          subst (λ kd. Leaves kd id d (some m) e s') (sym k)
            (stored "inbox" id "completed" (some m) d (some m) e
              (store (key "outbox" id) (new_entry "outbox" id m epoch d.at) s) {s' = s'}
              (inr (inr (inr (refl, a, refl, refl, λ q. none_ne q)))) x)
    ]

decide-Leaves :
    (epoch : ℕ) (kind id : String) (d : Resolution) (recovered : Option Payload) (e : Entry)
    (s : State) {s' : State}
    → decide epoch kind id d recovered e s ≡ accept tt s'
    → Leaves kind id d recovered e s'
unfolding decide
decide-Leaves epoch kind id d recovered e s {s' = s'} h =
    let is = λ (w : String) (b : str_eq d.action w ≡ true). (eq_iff d.action w).0 b in
    let at = λ (w : String) (b : str_eq kind w ≡ true). (eq_iff kind w).0 b in
    elim (if_cases (str_eq d.action "abandon") h) [
      | inl (b, x) ↦
          stored kind id "abandoned" e.result d recovered e s {s' = s'}
            (inl (is "abandon" b, refl, refl)) x
      | inr (_, h₂) ↦
          elim (if_cases
            (str_eq kind "outbox" && str_eq d.action "delivered" && not (blank d.receipt)) h₂) [
              | inl (b, x) ↦
                  stored kind id "delivered" (some (message_id d.receipt)) d recovered e s {s' = s'}
                    (inr (
                      inl (
                        at "outbox" (ground arith),
                        is "delivered" (ground arith),
                        ground arith,
                        refl,
                        refl,
                      )))
                    x
              | inr (_, h₃) ↦
                  elim (if_cases (str_eq kind "outbox" && str_eq d.action "confirmed_not_sent")
                    h₃) [
                      | inl (b, x) ↦
                          stored kind id "pending" e.result d recovered e s {s' = s'}
                            (inr (
                              inr (
                                inl (
                                  at "outbox" (ground arith),
                                  is "confirmed_not_sent" (ground arith),
                                  refl,
                                  refl,
                                ))))
                            x
                      | inr (_, h₄) ↦
                          elim (if_cases (str_eq kind "inbox" && str_eq d.action "recover_result")
                            h₄) [
                              | inl (b, x) ↦
                                  recover-Leaves epoch kind id d recovered e s
                                    (at "inbox" (ground arith)) (is "recover_result" (ground arith))
                                    x
                              | inr (_, x) ↦ absurd (ground arith)
                            ]
                    ]
            ]
    ]

-- What an accepted `Resolve` did: the entry was unresolved, the decision named its operator, reason
-- and evidence, and one of four things happened, the decision recorded behind the earlier
-- ones and the payload kept. In particular an outbound entry is queued again only on the decision
-- that it was not sent, and nothing is ever put back to running or sending.
pub resolve-Decided :
    (epoch : ℕ) (kind id : String) (d : Resolution) (recovered : Option Payload) (now : ℕ)
    (s : State) {s' : State}
    → resolve epoch kind id d recovered now s ≡ accept tt s'
    → (e : Entry) × (e' : Entry) × (lookup (key kind id) s.entries ≡ some e)
      × (lookup (key kind id) s'.entries ≡ some e')
      × (unresolved kind e ≡ true)
      × ((blank d.actor || blank d.reason || blank d.evidence) ≡ false)
      × (e'.payload ≡ e.payload)
      × (e'.resolutions ≡ e.resolutions ++ record d { at = now } ∷ [])
      × Decided kind (record d { at = now }) recovered e e'
unfolding resolve
resolve-Decided epoch kind id d recovered now s {s' = s'} h =
    elim (if_cases (blank d.actor || blank d.reason || blank d.evidence) h) [
      | inl (b, x) ↦ absurd (cc)
      | inr (complete, x) ↦ elim (Option-cases (lookup (key kind id) s.entries)) [
        | inl q ↦ absurd (ground arith)
        | inr (e, q) ↦
            let step : (if unresolved kind e
                  then decide epoch kind id (record d { at = now }) recovered e s
                  else refuse not_unresolved)
                ≡ accept tt s' =
              rw q at x in
            elim (if_cases (unresolved kind e) step) [
              | inr (_, y) ↦ absurd (cc)
              | inl (open_one, y) ↦
                  let (e', there, kept, recorded, how) =
                    decide-Leaves epoch kind id (record d { at = now }) recovered e s y in
                  (e, e', q, there, open_one, complete, kept, recorded, how)
            ]
      ]
    ]
