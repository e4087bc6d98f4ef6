-- ===== src/Gateway/Restart.antt =====
-- A request that was running when the program ended is not run again (internal/gateway/gateway.go and
-- `Open` of internal/journal/journal.go).
use gopherharness.Base.{
  ℕ, ◌≡◌, ◌≢◌, ◌⊎◌, refl, sym, ap, ◌∙◌, subst, String, Bool, true, Option, none, some, List, [],
  ◌∷◌, All, if_rule, inl, inr, is_some, some_inj,
}
use gopherharness.Base.Text.{ne_of_test}
use gopherharness.Base.Table.{lookup}
use gopherharness.Durable.{Disk, current, update}
use gopherharness.Durable.Atomic.{FileHas, update_committed}
use gopherharness.Journal.{
  Owner, State, Entry, Payload, empty_state, key, put, move, complete, open_journal,
}
use gopherharness.Journal.Changes.{mutate-FileHas}
use gopherharness.Journal.Lifecycle.{open-Reopened, Reopened, Carried}
use gopherharness.Delivery.{Message}
use gopherharness.Scheduler.{Source}
use gopherharness.Gateway.Kept.{put-Keeps, move-Keeps, complete-Keeps}
use gopherharness.Gateway.Cases.{publish_rule, resume_rule}
use gopherharness.Gateway.Starts.{
  Started, Running, entry_at, claimed, Submits, Unstarted, publish-Submits,
}
use gopherharness.Gateway.{
  Event, Waiter, Gateway, Script, Result, Claim, give_up, go, event_key, admit_event, traced,
  by_claim, record_event, move_entry, take_slot,
}
use gopherharness.Gateway.Steps.{
  TurnEnd, ended_badly, merged, answered, Step, publishes, resumes, finishes, closes, conclude,
  outbound, finish, finish_found, find_waiter, step, and_key, submissions, new_gateway,
}

abbrev FileStarted : String → Option State → Type 0
FileStarted k file = FileHas empty_state (Started k) file

-- What the steps of a gateway keep.
abbrev Kept : String → Gateway → Type 0
Kept k g = (is_some g.journal ≡ true) × FileStarted k g.file

move_entry-Started :
    (oj : Option Owner) (k j from to : String) (r : Option Payload) (now : ℕ) (d : Disk)
    (file : Option State)
    → (to ≢ "pending") ⊎ (key "inbox" j ≢ key "inbox" k)
    → FileStarted k file
    → FileStarted k (move_entry oj j from to r now d file).file
move_entry-Started none k j from to r now d file how h = h
move_entry-Started (some o) k j from to r now d file how h =
    mutate-FileHas o (move "inbox" j from to r now) d file (Started k)
      (λ s. move-Keeps k j from to r now s how) h

Carried-ne :
    {old new : String} → old ≡ "running" → new ≢ "running" → Carried old new → new ≢ "pending"
Carried-ne was not_running (inl same) = λ _. not_running (same ∙ was)
Carried-ne was not_running (inr (inl (_, now))) =
    λ p. ne_of_test "needs_reconcile" "pending" refl (sym now ∙ p)
Carried-ne was not_running (inr (inr (_, now))) =
    λ p. ne_of_test "unknown" "pending" refl (sym now ∙ p)

module _ (allowed : Option (Source → Bool)) (encode : Event → Payload)
    (decode : Payload → Option Event) (k : String) where
  record_event-Started :
      (oj : Option Owner) (j : String) (e : Event) (w : Script) (file : Option State)
      → FileStarted k file
      → FileStarted k (record_event allowed encode decode oj j e w file).file
  unfolding record_event
  record_event-Started none j e w file h = h
  record_event-Started (some o) j e w file h =
      mutate-FileHas o (put o.epoch "inbox" j (encode e) w.put_at) w.put_disk file (Started k)
        (λ s. put-Keeps o.epoch k j (encode e) w.put_at s) h

  claim-Kept :
      (j : String) (w : Script) (g : Gateway) (c : Claim)
      → Kept k g
      → Kept k (by_claim j w g c).gateway
  claim-Kept j w g (give_up st) h = h
  claim-Kept j w g (go e) (owned, h) =
      let m = move_entry g.journal j "pending" "running" none w.move_at w.move_disk g.file in
      let after : FileStarted k m.file =
        move_entry-Started g.journal k j "pending" "running" none w.move_at w.move_disk g.file
          (inl (ne_of_test "running" "pending" refl)) h in
      if_rule (λ (r : Result). Kept k r.gateway) m.ok
        (λ ok.
          let (_, (x, found, pending)) =
            claimed g.journal j w.move_at w.move_disk g.file owned ok in
          let other : key "inbox" j ≢ key "inbox" k = λ q.
            let (e', found', st) = h in
            let there : entry_at k g.file ≡ some x =
              subst (λ i. lookup i (current empty_state g.file).entries ≡ some x) q found in
            st (ap (λ (z : Entry). z.state) (some_inj (sym found' ∙ there)) ∙ pending) in
          if_rule (λ (r : Result). Kept k r.gateway) (w.submits _ e.request) (λ _. (owned, after))
            (λ _. (
              owned,
              move_entry-Started g.journal k j "running" "pending" none w.undo_at w.undo_disk m.file
                  (inr other) after,
            )))
        (λ _. (owned, after))

  admit-Kept :
      (e : Event) (w : Script) (g : Gateway)
      → Kept k g
      → Kept k (admit_event allowed encode decode e w g).gateway
  unfolding admit_event
  admit-Kept e w g (owned, h) =
      let c = record_event allowed encode decode g.journal (event_key e) (traced e w) w g.file in
      claim-Kept (event_key e) w (record g { file = c.file }) c.claim
        (owned, record_event-Started g.journal (event_key e) (traced e w) w g.file h)

  -- A started request is not what is submitted.
  Submits-ne :
      (o : Option String) (before now : Option State)
      → FileStarted k before
      → Submits o before now
      → o ≢ some k
  Submits-ne none before now h s = λ q. absurd (cc)
  Submits-ne (some j) before now (e, found, st) (_, free) = λ q.
      let at_k : Unstarted (entry_at k before) =
        subst (λ i. Unstarted (entry_at i before)) (some_inj q) free in
      st (subst Unstarted found at_k)

  module _ (error_payload : String → Payload) (encode_message : Message → Payload) where
    conclude-Started :
        (oj : Option Owner) (v : Waiter) (t : TurnEnd) (now : ℕ) (d : Disk) (file : Option State)
        → FileStarted k file
        → FileStarted k (conclude error_payload encode_message oj v t now d file).file
    unfolding conclude
    conclude-Started oj v (ended_badly e) now d file h =
        move_entry-Started oj k v.key "running" "needs_reconcile" (some (error_payload e)) now d
          file (inl (ne_of_test "needs_reconcile" "pending" refl)) h
    conclude-Started oj v merged now d file h =
        move_entry-Started oj k v.key "running" "merged" none now d file
          (inl (ne_of_test "merged" "pending" refl)) h
    conclude-Started none v (answered text) now d file h = h
    conclude-Started (some o) v (answered text) now d file h =
        let m = encode_message (outbound error_payload encode_message v text) in
        mutate-FileHas o (complete o.epoch v.key m now) d file (Started k)
          (λ s. complete-Keeps o.epoch k v.key m now s) h

    abbrev Fine : Gateway → Result → Type 0
    Fine g r = Kept k r.gateway × (r.submitted ≢ some k)

    step-Fine :
        (s : Step) (g : Gateway)
        → Kept k g
        → Fine g (step allowed encode decode error_payload encode_message s g)
    unfolding step finish
    step-Fine (publishes wait e w) g h = (
      publish_rule allowed encode decode (λ r. Kept k r.gateway) e w g (λ _. h)
          (λ _ _. admit-Kept e w (take_slot g) h) wait,
      Submits-ne _ g.file _ h.1 (publish-Submits allowed encode decode wait e w g h.0).0,
    )
    step-Fine (resumes e w) g h = (
      resume_rule allowed encode decode (λ r. Kept k r.gateway) e w g (λ _. h)
          (λ _ _. admit-Kept e w (take_slot g) h) (λ _. h),
      Submits-ne _ g.file _ h.1 (publish-Submits allowed encode decode true e w g h.0).1,
    )
    step-Fine closes g h = (h, λ q. absurd (cc))
    step-Fine (finishes j t now d) g h = (found (find_waiter j g.waiters), λ q. absurd (cc))
      where
        found :
            (o : Option Waiter) → Kept k (finish_found error_payload encode_message o j t now d g)
        found none = h
        found (some v) = (h.0, conclude-Started g.journal v t now d g.file h.1)

    and_key-All :
        (o : Option String) (ks : List String)
        → o ≢ some k
        → All (λ j. j ≢ k) ks
        → All (λ j. j ≢ k) (and_key o ks)
    and_key-All none ks ne h = h
    and_key-All (some j) ks ne h = (λ q. ne (ap some q), h)

    submissions-Other :
        (ss : List Step) (g : Gateway)
        → Kept k g
        → All (λ j. j ≢ k) (submissions allowed encode decode error_payload encode_message ss g)
    unfolding submissions
    submissions-Other [] g h = tt
    submissions-Other (s ∷ ss) g h =
        let r = step allowed encode decode error_payload encode_message s g in
        let (kept, ne) = step-Fine s g h in
        and_key-All r.submitted _ ne (submissions-Other ss r.gateway kept)

    reopened :
        (d : Disk) (file : Option State)
        → Running k file
        → (update empty_state open_journal d file).failure ≡ none
        → FileStarted k (update empty_state open_journal d file).file
    reopened d file (e, found, running) h =
        let (n, t, accepted, stored, _) = update_committed empty_state open_journal d file h in
        let (e', there, (not_running, _), carried, _, _, _) : Reopened (some e)
            (lookup (key "inbox" k) t.entries) =
          subst (λ o. Reopened o (lookup (key "inbox" k) t.entries)) found
            (open-Reopened (current empty_state file) (key "inbox" k) accepted) in
        rw stored (e', there, Carried-ne running not_running carried)

    -- Once a request runs, and the program ends and starts again on the same journal: whatever is
    -- published, replayed and finished from then on, and whatever the disk and the scheduler do, the
    -- gateway does not hand the request to the scheduler again.
    pub restart-Never :
        (d : Disk) (file : Option State) (o : Owner) (ss : List Step)
        → Running k file
        → (update empty_state open_journal d file).failure ≡ none
        → All
            (λ j. j ≢ k)
            (submissions allowed encode decode error_payload encode_message ss
              (new_gateway (some o) (update empty_state open_journal d file).file))
    restart-Never d file o ss running opened =
        submissions-Other ss (new_gateway (some o) (update empty_state open_journal d file).file)
          (refl, reopened d file running opened)
