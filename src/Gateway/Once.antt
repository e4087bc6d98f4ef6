-- ===== src/Gateway/Once.antt =====
-- A gateway submits an event once (internal/gateway/gateway.go).
use gopherharness.Base.{
  ◌≡◌, refl, arith, String, eq_iff, subst, Bool, false, Option, none, some, List, [], ◌∷◌, All,
  if_rule, if_false,
}
use gopherharness.Journal.{Payload}
use gopherharness.Delivery.{Message}
use gopherharness.Scheduler.{Source}
use gopherharness.Gateway.Cases.{publish_rule, resume_rule}
use gopherharness.Gateway.{
  Event, Waiter, Gateway, Script, Result, Claim, give_up, go, contains, event_key, admit_event,
  traced, by_claim, submit_event, publish, resume, take_slot, record_event, move_entry,
}
use gopherharness.Gateway.Steps.{
  Step, publishes, resumes, finishes, closes, finish, finish_found, find_waiter, step, and_key,
  submissions,
}

-- A call that submits a key submits a new one and notes it; any other keeps what is noted.
abbrev pub Noted : Option String → List String → List String → Type 0
Noted none seen seen' = seen' ≡ seen
Noted (some k) seen seen' = (contains k seen ≡ false) × (seen' ≡ k ∷ seen)

abbrev Notes : List String → Result → Type 0
Notes seen r = Noted r.submitted seen r.gateway.seen

abbrev New : List String → List String → Type 0
New seen ks = All (λ k. contains k seen ≡ false) ks

abbrev pub Distinct : List String → Type 0
Distinct [] = Unit
Distinct (k ∷ ks) = (contains k ks ≡ false) × Distinct ks

-- Keys that are new beside a key are new, and none is that key.
apart :
    (k : String) (seen ks : List String)
    → All (λ j. contains j (k ∷ seen) ≡ false) ks
    → All (λ j. contains j seen ≡ false) ks × (contains k ks ≡ false)
unfolding contains
apart k seen [] h = (tt, refl)
apart k seen (j ∷ js) h =
    let (more, off) = apart k seen js h.1 in
    ((ground (arith, h.0), more), ground (arith, h.0, off, eq_iff k j, eq_iff j k))

more_keys :
    (o : Option String) (seen seen' ks : List String)
    → Noted o seen seen'
    → New seen' ks × Distinct ks
    → New seen (and_key o ks) × Distinct (and_key o ks)
more_keys none seen seen' ks n h = (subst (λ l. New l ks) n h.0, h.1)
more_keys (some k) seen seen' ks n h =
    let (new, off) = apart k seen ks (subst (λ l. New l ks) n.1 h.0) in ((n.0, new), (off, h.1))

module _ (allowed : Option (Source → Bool)) (encode : Event → Payload)
    (decode : Payload → Option Event) where
  submit-Notes :
      (k : String) (e : Event) (w : Script) (g : Gateway)
      → contains k g.seen ≡ false
      → Notes g.seen (submit_event k e w g)
  submit-Notes k e w g new =
      if_rule (Notes g.seen) (w.submits _ e.request) (λ _. (new, if_false _ _ _ new)) (λ _. refl)

  claim-Notes :
      (k : String) (w : Script) (g : Gateway) (c : Claim)
      → contains k g.seen ≡ false
      → Notes g.seen (by_claim k w g c)
  claim-Notes k w g (give_up st) new = refl
  claim-Notes k w g (go e) new =
      if_rule (Notes g.seen)
        (move_entry g.journal k "pending" "running" none w.move_at w.move_disk g.file).ok
        (λ _.
          submit-Notes k e w
            (record g {
              file =
                  (move_entry g.journal k "pending" "running" none w.move_at w.move_disk
                    g.file).file;
            })
            new)
        (λ _. refl)

  admit-Notes :
      (e : Event) (w : Script) (g : Gateway)
      → contains (event_key e) g.seen ≡ false
      → Notes g.seen (admit_event allowed encode decode e w g)
  unfolding admit_event
  admit-Notes e w g new =
      let c = record_event allowed encode decode g.journal (event_key e) (traced e w) w g.file in
      claim-Notes (event_key e) w (record g { file = c.file }) c.claim new

  publish-Notes :
      (wait : Bool) (e : Event) (w : Script) (g : Gateway)
      → Notes g.seen (publish allowed encode decode wait e w g)
  publish-Notes wait e w g =
      publish_rule allowed encode decode (Notes g.seen) e w g (λ _. refl)
        (λ new _. admit-Notes e w (take_slot g) new) wait

  resume-Notes :
      (e : Event) (w : Script) (g : Gateway) → Notes g.seen (resume allowed encode decode e w g)
  resume-Notes e w g =
      resume_rule allowed encode decode (Notes g.seen) e w g (λ _. refl)
        (λ new _. admit-Notes e w (take_slot g) new) (λ _. refl)

  module _ (error_payload : String → Payload) (encode_message : Message → Payload) where
    step-Notes :
        (s : Step) (g : Gateway)
        → Notes g.seen (step allowed encode decode error_payload encode_message s g)
    unfolding step finish
    step-Notes (publishes wait e w) g = publish-Notes wait e w g
    step-Notes (resumes e w) g = resume-Notes e w g
    step-Notes closes g = refl
    step-Notes (finishes k t now d) g = found (find_waiter k g.waiters)
      where
        found :
            (o : Option Waiter)
            → (finish_found error_payload encode_message o k t now d g).seen ≡ g.seen
        found none = refl
        found (some v) = refl

    abbrev submitted_by : List Step → Gateway → List String
    submitted_by = submissions allowed encode decode error_payload encode_message

    submissions-New :
        (ss : List Step) (g : Gateway)
        → New g.seen (submitted_by ss g) × Distinct (submitted_by ss g)
    unfolding submissions
    submissions-New [] g = (tt, tt)
    submissions-New (s ∷ ss) g =
        let r = step allowed encode decode error_payload encode_message s g in
        more_keys r.submitted g.seen r.gateway.seen (submitted_by ss r.gateway) (step-Notes s g)
          (submissions-New ss r.gateway)

    -- Whatever is published, resumed and finished, and whatever the journal and the scheduler do, no
    -- key is submitted twice, and none that the gateway has seen before.
    pub submissions-Distinct :
        (ss : List Step) (g : Gateway)
        → Distinct (submissions allowed encode decode error_payload encode_message ss g)
          × All
              (λ k. contains k g.seen ≡ false)
              (submissions allowed encode decode error_payload encode_message ss g)
    submissions-Distinct ss g = let (new, apart_all) = submissions-New ss g in (apart_all, new)
