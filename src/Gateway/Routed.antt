-- ===== src/Gateway/Routed.antt =====
-- What a recovered result of internal/gateway/reconcile.go publishes.
use gopherharness.Base.{
  ℕ, ◌≡◌, refl, sym, ◌∙◌, subst, arith, String, str_eq, true, false, not, ◌||◌, Option, none, some,
  if◌then◌else◌, if_rule, if_cases, Option-cases, inl, inr, is_none, is_some,
}
use gopherharness.Base.Text.{blank}
use gopherharness.Base.Table.{lookup, lookup-insert_self, lookup-insert_ne}
use gopherharness.Durable.{Disk, accept, refuse, current, read}
use gopherharness.Durable.Atomic.{read_lem}
use gopherharness.Journal.{
  Owner, State, Entry, Payload, Resolution, empty_state, key, new_entry, not_unresolved,
}
use gopherharness.Journal.Resolve.{resolve, unresolved, decide, recover_result, resolved, store}
use gopherharness.Journal.Publish.{Queued}
use gopherharness.Journal.Changes.{mutate_committed}
use gopherharness.Journal.Lifecycle.{inbox-ne-outbox}
use gopherharness.Delivery.{Message}
use gopherharness.Gateway.{Event, list_entries, find_id}
use gopherharness.Gateway.Reconcile.{
  Reconciled, resolve_failed, recovered_message, settle_event, settle_entry, settle_listed,
  reconcile,
}

-- What an accepted `recover_result` publishes.
abbrev Publishes : ℕ → String → Payload → ℕ → State → State → Type 0
Publishes epoch id m now s t =
    (lookup (key "outbox" id) s.entries ≡ none)
    × (lookup (key "outbox" id) t.entries ≡ some (new_entry "outbox" id m epoch now))

decide-Publishes :
    (epoch : ℕ) (id : String) (d : Resolution) (m : Payload) (e : Entry) (s : State) {t : State}
    → d.action ≡ "recover_result"
    → decide epoch "inbox" id d (some m) e s ≡ accept tt t
    → Publishes epoch id m d.at s t
unfolding decide recover_result
decide-Publishes epoch id d m e s {t = t} a h =
    let other : str_eq d.action "abandon" ≡ false = rw a refl in
    let this : str_eq d.action "recover_result" ≡ true = rw a refl in
    let step : recover_result epoch id d m e s ≡ accept tt t = rw (other, this) at h in
    elim (if_cases (is_some (lookup (key "outbox" id) s.entries)) step) [
      | inl (b, x) ↦ absurd (cc)
      | inr (b, x) ↦
          let same : t.entries
              ≡ (store (key "inbox" id) (resolved e "completed" (some m) d)
                  (store (key "outbox" id) (new_entry "outbox" id m epoch d.at) s)).entries =
            ground arith in
          (
            ground (arith, b),
            rw same (
                lookup-insert_ne (key "inbox" id) (key "outbox" id) _ _ (inbox-ne-outbox id id)
                ∙ lookup-insert_self (key "outbox" id) _ s.entries),
          )
    ]

resolve-Publishes :
    (epoch : ℕ) (id : String) (d : Resolution) (m : Payload) (now : ℕ) (s : State) {t : State}
    → d.action ≡ "recover_result"
    → resolve epoch "inbox" id d (some m) now s ≡ accept tt t
    → Publishes epoch id m now s t
unfolding resolve
resolve-Publishes epoch id d m now s {t = t} a h =
    elim (if_cases (blank d.actor || blank d.reason || blank d.evidence) h) [
      | inl (b, x) ↦ absurd (cc)
      | inr (b, x) ↦ elim (Option-cases (lookup (key "inbox" id) s.entries)) [
        | inl q ↦ absurd (ground arith)
        | inr (e, q) ↦
            let step : (if unresolved "inbox" e
                  then decide epoch "inbox" id (record d { at = now }) (some m) e s
                  else refuse not_unresolved)
                ≡ accept tt t =
              rw q at x in
            elim (if_cases (unresolved "inbox" e) step) [
              | inl (u, y) ↦ decide-Publishes epoch id (record d { at = now }) m e s {t = t} a y
              | inr (u, y) ↦ absurd (cc)
            ]
      ]
    ]

-- The unresolved request under an id and its event, as the journal's file has them.
abbrev pub Stored : (Payload → Option Event) → String → Option State → Event → Type 0
Stored decode id file ev =
    (e : Entry) × (find_id id
        (list_entries "inbox" "needs_reconcile" (current empty_state file).entries)
      ≡ some e)
    × (decode e.payload ≡ some ev)

abbrev pub outbound_entry : String → Option State → Option Entry
outbound_entry id file = lookup (key "outbox" id) (current empty_state file).entries

no_failure :
    {F : Type 0} {o : Option F}
    → (if is_none o then none else some resolve_failed) ≡ none
    → o ≡ none
no_failure {o = none} h = refl
no_failure {o = some f} h = absurd (cc)

module _ (decode : Payload → Option Event) (encode_message : Message → Payload) where
  -- A result that was recovered without an error, which had no outbound entry, has one that is pending,
  -- with the message of the operator's text whose route and trace are those of the event that was
  -- stored unresolved under the id.
  pub reconcile-Routed :
      (o : Owner) (kind id : String) (d : Resolution) (text : String) (now : ℕ)
      (list_disk disk : Disk) (file : Option State)
      → d.action ≡ "recover_result"
      → (reconcile decode encode_message (some o) kind id d text now list_disk disk file).failure
        ≡ none
      → (ev : Event) × Stored decode id file ev
        × (outbound_entry id file ≡ none)
        × Queued id
            (encode_message
              (record { id = id; source = ev.request.source; text = text; identity = ev.identity }))
            (outbound_entry id
              (reconcile decode encode_message
                (some o)
                kind
                id
                d
                text
                now
                list_disk
                disk
                file).file)
  unfolding reconcile
  reconcile-Routed o kind id d text now list_disk disk file a h =
      let this : str_eq d.action "recover_result" ≡ true = rw a refl in
      if_rule Routed (not (str_eq d.action "recover_result"))
        (λ n. absurd (ground (arith, n, this)))
        (λ _.
          if_rule Routed (not (str_eq kind "inbox") || blank text) (λ _ q. absurd (cc))
            (λ _. listed (read empty_state list_disk file) (read_lem empty_state list_disk file)))
        h
    where
      Routed : Reconciled → Type 0
      Routed r =
          r.failure ≡ none
          → (ev : Event) × Stored decode id file ev
            × (outbound_entry id file ≡ none)
            × Queued id
                (encode_message (record {
                  id = id;
                  source = ev.request.source;
                  text = text;
                  identity = ev.identity;
                }))
                (outbound_entry id r.file)

      decoded :
          (e : Entry) (x : Option Event)
          → find_id id (list_entries "inbox" "needs_reconcile" (current empty_state file).entries)
            ≡ some e
          → decode e.payload ≡ x
          → Routed (settle_event decode encode_message x o id d text now disk file)
      decoded e none f q = λ z. absurd (cc)
      decoded e (some ev) f q = λ z.
          let m = encode_message (recovered_message id text ev) in
          let (_, t, accepted, stored, _) =
            mutate_committed o (resolve o.epoch "inbox" id d (some m) now) disk file
              (no_failure z) in
          let (absent, there) =
            resolve-Publishes o.epoch id d m now (current empty_state file) a accepted in
          let queued : Queued id m (outbound_entry id (some t)) =
            (new_entry "outbox" id m o.epoch now, there, refl, refl, refl, refl) in
          (
            ev,
            (e, f, q),
            absent,
            subst (λ x. Queued id m (outbound_entry id x)) (sym stored) queued,
          )

      found :
          (x : Option Entry)
          → find_id id (list_entries "inbox" "needs_reconcile" (current empty_state file).entries)
            ≡ x
          → Routed (settle_entry decode encode_message x o id d text now disk file)
      found none f = λ z. absurd (cc)
      found (some e) f = decoded e (decode e.payload) f refl

      listed :
          (x : Option State)
          → ((s : State) → x ≡ some s → s ≡ current empty_state file)
          → Routed (settle_listed decode encode_message x o id d text now disk file)
      listed none same = λ z. absurd (cc)
      listed (some s) same =
          subst
            (λ (v : State). Routed (
              settle_entry decode encode_message
                (find_id id (list_entries "inbox" "needs_reconcile" v.entries)) o id d text now disk
                file))
            (sym (same s refl)) (found _ refl)
