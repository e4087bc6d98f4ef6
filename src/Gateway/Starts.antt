-- ===== src/Gateway/Starts.antt =====
-- A request runs only once its entry in the journal is claimed (internal/gateway/gateway.go).
use gopherharness.Base.{
  ℕ, ◌≡◌, ◌≢◌, refl, sym, ap, ◌∙◌, subst, arith, String, str_eq, eq_iff, Bool, true, Option, none,
  some, if_rule, Bool-cases, inl, inr, is_some, some_inj,
}
use gopherharness.Base.Text.{ne_of_test}
use gopherharness.Base.Table.{lookup, lookup-insert_self}
use gopherharness.Durable.{Disk, current}
use gopherharness.Durable.Atomic.{Keeps}
use gopherharness.Journal.{Owner, State, Entry, Payload, empty_state, key, put, move, moved}
use gopherharness.Journal.Changes.{mutate-FileHas, mutate_committed}
use gopherharness.Journal.Lifecycle.{move_lem}
use gopherharness.Scheduler.{Source}
use gopherharness.Gateway.Cases.{publish_rule, resume_rule}
use gopherharness.Gateway.{
  Event, Gateway, Script, Result, Claim, give_up, go, event_key, admit_event, traced, by_claim,
  publish, resume, take_slot, record_event, move_entry,
}

-- What stands under the key of an inbound request.
abbrev pub entry_at : String → Option State → Option Entry
entry_at k file = lookup (key "inbox" k) (current empty_state file).entries

abbrev pub Running : String → Option State → Type 0
Running k file = (e : Entry) × (entry_at k file ≡ some e) × (e.state ≡ "running")

abbrev pub Unstarted : Option Entry → Type 0
Unstarted none = Unit
Unstarted (some e) = e.state ≡ "pending"

abbrev pub Started : String → State → Type 0
Started k s = (e : Entry) × (lookup (key "inbox" k) s.entries ≡ some e) × (e.state ≢ "pending")

put-Started :
    (epoch : ℕ) (k : String) (p : Payload) (now : ℕ) (s : State)
    → Started k s
    → Keeps (Started k) (put epoch "inbox" k p now s)
unfolding put
put-Started epoch k p now s (e, found, st) = rw found (e, found, st)

pub claimed :
    (oj : Option Owner) (k : String) (now : ℕ) (d : Disk) (file : Option State)
    → is_some oj ≡ true
    → (move_entry oj k "pending" "running" none now d file).ok ≡ true
    → Running k (move_entry oj k "pending" "running" none now d file).file
      × ((e : Entry) × (entry_at k file ≡ some e) × (e.state ≡ "pending"))
claimed none k now d file j h = absurd (cc)
claimed (some o) k now d file j h =
    let (a, t, accepted, stored, _) =
      mutate_committed o (move "inbox" k "pending" "running" none now) d file (ground (arith, h)) in
    let (e, found, pending, same) =
      move_lem "inbox" k "pending" "running" none now (current empty_state file) accepted in
    let there : lookup (key "inbox" k) t.entries ≡ some (moved e "running" none now) = rw same (
      lookup-insert_self (key "inbox" k) (moved e "running" none now)
        (current empty_state file).entries) in
    (subst (Running k) (sym stored) (moved e "running" none now, there, refl), (e, found, pending))

-- What was recorded and is pending afterwards was not started before.
recorded :
    (oj : Option Owner) (allowed : Option (Source → Bool)) (encode : Event → Payload)
    (decode : Payload → Option Event) (k : String) (ev : Event) (w : Script) (file : Option State)
    {e : Entry}
    → entry_at k (record_event allowed encode decode oj k ev w file).file ≡ some e
    → e.state ≡ "pending"
    → Unstarted (entry_at k file)
unfolding record_event
recorded none allowed encode decode k ev w file {e = e} h p = rw h p
recorded (some o) allowed encode decode k ev w file {e = e} h p = before (entry_at k file) refl
  where
    before : (x : Option Entry) → entry_at k file ≡ x → Unstarted x
    before none q = tt
    before (some x) q = elim (Bool-cases (str_eq x.state "pending")) [
      | inl t ↦ (eq_iff x.state "pending").0 t
      | inr t ↦
          let (y, found, st) =
            mutate-FileHas o (put o.epoch "inbox" k (encode ev) w.put_at) w.put_disk file
              (Started k) (put-Started o.epoch k (encode ev) w.put_at)
              (x, q, ne_of_test x.state "pending" t) in
          absurd (st (ap (λ (z : Entry). z.state) (some_inj (sym found ∙ h)) ∙ p))
    ]

-- A key that was submitted is running now and was not started before.
abbrev pub Submits : Option String → Option State → Option State → Type 0
Submits none before now = Unit
Submits (some k) before now = Running k now × Unstarted (entry_at k before)

abbrev Ok : Option State → Result → Type 0
Ok before r = Submits r.submitted before r.gateway.file

module _ (allowed : Option (Source → Bool)) (encode : Event → Payload)
    (decode : Payload → Option Event) where
  claim-Ok :
      (k : String) (w : Script) (g : Gateway) (c : Claim) (before : Option State)
      → is_some g.journal ≡ true
      → ((e : Entry)
          → entry_at k g.file ≡ some e
          → e.state ≡ "pending"
          → Unstarted (entry_at k before))
      → Ok before (by_claim k w g c)
  claim-Ok k w g (give_up st) before j h = tt
  claim-Ok k w g (go e) before j h =
      if_rule (Ok before)
        (move_entry g.journal k "pending" "running" none w.move_at w.move_disk g.file).ok
        (λ m.
          let (running, (x, found, pending)) =
            claimed g.journal k w.move_at w.move_disk g.file j m in
          if_rule (Ok before) (w.submits _ e.request) (λ _. (running, h x found pending)) (λ _. tt))
        (λ _. tt)

  admit-Ok :
      (e : Event) (w : Script) (g : Gateway)
      → is_some g.journal ≡ true
      → Ok g.file (admit_event allowed encode decode e w g)
  unfolding admit_event
  admit-Ok e w g j =
      let c = record_event allowed encode decode g.journal (event_key e) (traced e w) w g.file in
      claim-Ok (event_key e) w (record g { file = c.file }) c.claim g.file j
        (λ x found p.
          recorded g.journal allowed encode decode (event_key e) (traced e w) w g.file {e = x} found
            p)

  -- With a journal, whatever `publish` and its wake from waiting hand to the scheduler is running in
  -- the journal's file afterwards, and before the call its entry was pending or was not there: what
  -- is running, completed, merged or unresolved is not handed over again, also by a gateway that was
  -- started later on the same file.
  pub publish-Submits :
      (wait : Bool) (e : Event) (w : Script) (g : Gateway)
      → is_some g.journal ≡ true
      → Submits
          (publish allowed encode decode wait e w g).submitted
          g.file
          (publish allowed encode decode wait e w g).gateway.file
        × Submits
            (resume allowed encode decode e w g).submitted
            g.file
            (resume allowed encode decode e w g).gateway.file
  publish-Submits wait e w g j = (
    publish_rule allowed encode decode (Ok g.file) e w g (λ _. tt)
        (λ _ _. admit-Ok e w (take_slot g) j) wait,
    resume_rule allowed encode decode (Ok g.file) e w g (λ _. tt)
        (λ _ _. admit-Ok e w (take_slot g) j) (λ _. tt),
  )
