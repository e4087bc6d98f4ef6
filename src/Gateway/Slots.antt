-- ===== src/Gateway/Slots.antt =====
-- The slots of internal/gateway/gateway.go are those of the requests that are waited for.
use gopherharness.Base.{
  ◌+◌, ◌≤◌, ◌≡◌, refl, arith, String, str_eq, Bool, true, Option, none, some, List, [], ◌∷◌,
  if_rule, if_cases, ltb, length, length-append, inl, inr,
}
use gopherharness.Journal.{Owner, Payload, State}
use gopherharness.Delivery.{Message}
use gopherharness.Scheduler.{Source}
use gopherharness.Gateway.Cases.{publish_rule, resume_rule}
use gopherharness.Gateway.{
  Event, Waiter, Gateway, Script, Result, Claim, give_up, go, event_key, admit_event, traced,
  by_claim, publish, resume, take_slot, record_event, move_entry,
}
use gopherharness.Gateway.Steps.{
  Step, publishes, resumes, finishes, closes, finish, finish_found, find_waiter, drop_waiter, step,
  after, new_gateway,
}

-- One slot for each goroutine, and no more than there are.
abbrev pub SlotsOk : Gateway → Type 0
SlotsOk g = (g.slots ≡ length g.waiters) × (g.slots ≤ 128)

-- One slot more than goroutines, as while a call is being admitted.
abbrev Held : Gateway → Type 0
Held g = (g.slots ≡ 1 + length g.waiters) × (g.slots ≤ 128)

abbrev Ok : Result → Type 0
Ok r = SlotsOk r.gateway

pub length-drop_waiter :
    (k : String) (vs : List Waiter) {v : Waiter}
    → find_waiter k vs ≡ some v
    → length vs ≡ 1 + length (drop_waiter k vs)
unfolding find_waiter drop_waiter
length-drop_waiter k [] h = absurd (cc)
length-drop_waiter k (u ∷ us) {v = v} h = elim (if_cases (str_eq u.key k) h) [
  | inl (t, e) ↦ rw t (omega arith)
  | inr (t, e) ↦ rw t (omega (arith, length-drop_waiter k us {v = v} e))
]

module _ (allowed : Option (Source → Bool)) (encode : Event → Payload)
    (decode : Payload → Option Event) where
  claim-Ok : (k : String) (w : Script) (g : Gateway) (c : Claim) → Held g → Ok (by_claim k w g c)
  claim-Ok k w g (give_up st) h = (omega (arith, h.0), omega (arith, h.1))
  claim-Ok k w g (go e) h =
      if_rule Ok (move_entry g.journal k "pending" "running" none w.move_at w.move_disk g.file).ok
        (λ _.
          if_rule Ok (w.submits _ e.request)
            (λ _. (omega (arith, h.0, length-append g.waiters (_ ∷ [])), h.1))
            (λ _. (omega (arith, h.0), omega (arith, h.1))))
        (λ _. (omega (arith, h.0), omega (arith, h.1)))

  admit-Ok :
      (e : Event) (w : Script) (g : Gateway)
      → SlotsOk g
      → ltb g.slots 128 ≡ true
      → Ok (admit_event allowed encode decode e w (take_slot g))
  unfolding admit_event
  admit-Ok e w g h free =
      let c = record_event allowed encode decode g.journal (event_key e) (traced e w) w g.file in
      claim-Ok (event_key e) w (record (take_slot g) { file = c.file }) c.claim
        (omega (arith, h.0), ground (arith, free))

  publish-Ok :
      (wait : Bool) (e : Event) (w : Script) (g : Gateway)
      → SlotsOk g
      → Ok (publish allowed encode decode wait e w g)
  publish-Ok wait e w g h =
      publish_rule allowed encode decode Ok e w g (λ _. h) (λ _ free. admit-Ok e w g h free) wait

  resume-Ok :
      (e : Event) (w : Script) (g : Gateway) → SlotsOk g → Ok (resume allowed encode decode e w g)
  resume-Ok e w g h =
      resume_rule allowed encode decode Ok e w g (λ _. h) (λ _ free. admit-Ok e w g h free)
        (λ _. (omega (arith, h.0), omega (arith, h.1)))

  module _ (error_payload : String → Payload) (encode_message : Message → Payload) where
    step-Ok :
        (s : Step) (g : Gateway)
        → SlotsOk g
        → Ok (step allowed encode decode error_payload encode_message s g)
    unfolding step finish
    step-Ok (publishes wait e w) g h = publish-Ok wait e w g h
    step-Ok (resumes e w) g h = resume-Ok e w g h
    step-Ok closes g h = h
    step-Ok (finishes k t now d) g h = found (find_waiter k g.waiters) refl
      where
        found :
            (o : Option Waiter)
            → find_waiter k g.waiters ≡ o
            → SlotsOk (finish_found error_payload encode_message o k t now d g)
        found none e = h
        found (some v) e =
            let less = length-drop_waiter k g.waiters {v = v} e in
            (omega (arith, h.0, less), omega (arith, h.1))

    keeps :
        (ss : List Step) (g : Gateway)
        → SlotsOk g
        → SlotsOk (after allowed encode decode error_payload encode_message ss g)
    unfolding after
    keeps [] g h = h
    keeps (s ∷ ss) g h =
        keeps ss (step allowed encode decode error_payload encode_message s g).gateway
          (step-Ok s g h)

    -- From a new gateway on, the slots in use are those of the goroutines that have not ended, and at
    -- most 128: no branch of an error keeps a slot, and none gives one back twice.
    pub after-SlotsOk :
        (o : Option Owner) (file : Option State) (ss : List Step)
        → SlotsOk (after allowed encode decode error_payload encode_message ss (new_gateway o file))
    after-SlotsOk o file ss = keeps ss (new_gateway o file) (refl, omega arith)
