-- ===== src/Gateway/Cases.antt =====
-- The branches of `publish` and of its wake in internal/gateway/gateway.go.
use gopherharness.Base.{◌≡◌, Bool, true, false, Option, none, some, if_rule, leb, ltb, length}
use gopherharness.Journal.{Payload}
use gopherharness.Scheduler.{Source}
use gopherharness.Gateway.{
  Event, Gateway, Script, Result, Status, Error, ends, contains, event_key, check, by_check,
  admit_event, publish, resume, take_slot, release_slot,
}

module _ (allowed : Option (Source → Bool)) (encode : Event → Payload)
    (decode : Payload → Option Event) (P : Result → Type 0) (e : Event) (w : Script) (g : Gateway)
    (stays : (st : Status) → P (ends st g))
    (admits : contains (event_key e) g.seen ≡ false
      → ltb g.slots 128 ≡ true
      → P (admit_event allowed encode decode e w (take_slot g))) where
  -- The state stays as it is, or the event is admitted.
  pub publish_rule : (wait : Bool) → P (publish allowed encode decode wait e w g)
  unfolding publish
  publish_rule wait = checked (check allowed e)
    where
      checked : (o : Option Error) → P (by_check allowed encode decode wait e w g o)
      checked (some er) = stays _
      checked none =
          if_rule P g.closed (λ _. stays _)
            (λ _.
              if_rule P (contains (event_key e) g.seen) (λ _. stays _)
                (λ new.
                  if_rule P (leb 100000 (length g.seen)) (λ _. stays _)
                    (λ _.
                      if_rule P (ltb g.slots 128) (λ free. admits new free)
                        (λ _. if_rule P wait (λ _. stays _) (λ _. stays _)))))

  -- The slot is given back at once, or the event is admitted.
  pub resume_rule :
      ((st : Status) → P (ends st (release_slot (take_slot g))))
      → P (resume allowed encode decode e w g)
  unfolding resume
  resume_rule back =
      if_rule P (ltb g.slots 128)
        (λ free.
          if_rule P g.closed (λ _. back _)
            (λ _. if_rule P (contains (event_key e) g.seen) (λ _. back _) (λ new. admits new free)))
        (λ _. stays _)
