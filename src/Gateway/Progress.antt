-- ===== src/Gateway/Progress.antt =====
-- A call that waits for a slot of internal/gateway/gateway.go goes on once a request has ended.
use gopherharness.Base.{
  ℕ, ◌≡◌, ◌≢◌, arith, String, Bool, true, false, Option, none, some, if_rule, ltb, lt→ltb,
}
use gopherharness.Durable.{Disk, Fault, read}
use gopherharness.Journal.{
  Owner, Entry, State, Payload, Error as JournalError, empty_state, mutate, put,
}
use gopherharness.Delivery.{Message}
use gopherharness.Scheduler.{Source}
use gopherharness.Gateway.{
  Event, Waiter, Gateway, Script, Result, waits, Claim, give_up, go, permits, contains, event_key,
  decoded, reread, after_put, record_event, admit_event, traced, by_claim, move_entry, resume,
  take_slot, list_entries, find_id,
}
use gopherharness.Gateway.Steps.{TurnEnd, finish, finish_found, find_waiter}
use gopherharness.Gateway.Slots.{SlotsOk, length-drop_waiter}

-- A call that has ended, with or without an error.
abbrev pub Ends : Result → Type 0
Ends r = r.status ≢ waits

abbrev Decides : Claim → Type 0
Decides (give_up st) = st ≢ waits
Decides (go e) = Unit

module _ (allowed : Option (Source → Bool)) (encode : Event → Payload)
    (decode : Payload → Option Event) where
  reread-Decides : (o : Option Entry) → Decides (reread allowed encode decode o)
  reread-Decides none = λ q. absurd (cc)
  reread-Decides (some e) = event (decode e.payload)
    where
      event : (o : Option Event) → Decides (decoded allowed encode decode o)
      event none = λ q. absurd (cc)
      event (some e) =
          if_rule Decides (permits allowed e.request.source) (λ _. tt) (λ _ q. absurd (cc))

  put-Decides :
      (k : String) (e : Event) (f : Option (Fault JournalError)) (c : Option Bool)
      (s : Option State)
      → Decides (after_put allowed encode decode k e f c s)
  put-Decides k e (some f) c s = λ q. absurd (cc)
  put-Decides k e none none s = tt
  put-Decides k e none (some true) s = tt
  put-Decides k e none (some false) none = λ q. absurd (cc)
  put-Decides k e none (some false) (some s) =
      reread-Decides (find_id k (list_entries "inbox" "pending" s.entries))

  record-Decides :
      (o : Option Owner) (k : String) (e : Event) (w : Script) (file : Option State)
      → Decides (record_event allowed encode decode o k e w file).claim
  unfolding record_event
  record-Decides none k e w file = tt
  record-Decides (some o) k e w file =
      let r = mutate o (put o.epoch "inbox" k (encode e) w.put_at) w.put_disk file in
      put-Decides k e r.failure r.out (read empty_state w.list_disk r.file)

  claim-Ends :
      (k : String) (w : Script) (g : Gateway) (c : Claim) → Decides c → Ends (by_claim k w g c)
  claim-Ends k w g (give_up st) h = h
  claim-Ends k w g (go e) h =
      if_rule Ends (move_entry g.journal k "pending" "running" none w.move_at w.move_disk g.file).ok
        (λ _. if_rule Ends (w.submits _ e.request) (λ _ q. absurd (cc)) (λ _ q. absurd (cc)))
        (λ _ q. absurd (cc))

  admit-Ends :
      (e : Event) (w : Script) (g : Gateway) → Ends (admit_event allowed encode decode e w g)
  unfolding admit_event
  admit-Ends e w g =
      let c = record_event allowed encode decode g.journal (event_key e) (traced e w) w g.file in
      claim-Ends (event_key e) w (record g { file = c.file }) c.claim
        (record-Decides g.journal (event_key e) (traced e w) w g.file)

  resume-Ends :
      (e : Event) (w : Script) (g : Gateway)
      → ltb g.slots 128 ≡ true
      → Ends (resume allowed encode decode e w g)
  unfolding resume
  resume-Ends e w g free =
      if_rule Ends (ltb g.slots 128)
        (λ _.
          if_rule Ends g.closed (λ _ q. absurd (cc))
            (λ _.
              if_rule Ends (contains (event_key e) g.seen) (λ _ q. absurd (cc))
                (λ _. admit-Ends e w (take_slot g))))
        (λ full. absurd (cc))

  module _ (error_payload : String → Payload) (encode_message : Message → Payload) where
    -- In a gateway whose slots are those of its waiting requests, the end of any of them, however it
    -- ends and whatever the disk does, lets a call that waits for a slot run to its end.
    pub finish-Ends :
        (k : String) (t : TurnEnd) (now : ℕ) (d : Disk) (e : Event) (w : Script) (g : Gateway)
        {v : Waiter}
        → SlotsOk g
        → find_waiter k g.waiters ≡ some v
        → Ends (resume allowed encode decode e w (finish error_payload encode_message k t now d g))
    unfolding finish
    finish-Ends k t now d e w g {v = v} h found = rw found (
        resume-Ends e w (finish_found error_payload encode_message (some v) k t now d g)
          (lt→ltb _ _ (omega (arith, h.0, h.1, length-drop_waiter k g.waiters {v = v} found))))
