-- ===== src/Delivery/Bound.antt =====
-- A result that was posted stays bound to its id (internal/delivery/durable.go).
use gopherharness.Base.{
  ℕ, ◌≡◌, ◌≢◌, refl, sym, ap, ◌∙◌, subst, arith, String, str_eq, eq_iff, Bool, true, false, not,
  ◌||◌, Option, none, some, is_empty, is_some, if_rule, if_cases, inl, inr, some_inj,
}
use gopherharness.Base.Text.{ne_of_test}
use gopherharness.Base.Table.{lookup, insert, lookup-insert_self}
use gopherharness.Durable.{Disk, Fault, Outcome, accept, current, read}
use gopherharness.Durable.Atomic.{read_lem}
use gopherharness.Journal.{
  Owner, State, Entry, Payload, Error as JournalError, empty_state, key, mutate, put, new_entry,
}
use gopherharness.Journal.Changes.{mutate_committed}
use gopherharness.Scheduler.{Source, Identity, same_source}
use gopherharness.Delivery.{Message}
use gopherharness.Delivery.Posting.{
  Posted, same_result, with_trace, post, post_saved, post_found, post_again, after_put,
  post_recorded, post_durable,
}

-- The same id, destination and text; the trace may be another.
abbrev pub Same : Message → Message → Type 0
Same a b = (a.id ≡ b.id) × (a.source ≡ b.source) × (a.text ≡ b.text)

abbrev pub posted_entry : String → Option State → Option Entry
posted_entry id file = lookup (key "outbox" id) (current empty_state file).entries

-- What is queued is the result that was asked for, and only what is pending is queued.
abbrev pub Queues : Option Message → Message → Entry → Type 0
Queues none m e = e.state ≢ "pending"
Queues (some q) m e = Same q m × (e.state ≡ "pending")

abbrev pub Bound : (Payload → Option Message) → Message → Posted → Type 0
Bound decode m r =
    (e : Entry) × (saved : Message) × (posted_entry m.id r.file ≡ some e)
    × (decode e.payload ≡ some saved)
    × Same saved m
    × Queues r.queued m e

same_result_lem : (a b : Message) → same_result a b ≡ true → Same a b
same_result_lem a b h = (
  ground (arith, h, eq_iff a.id b.id),
  source_lem a.source b.source (ground (arith, h)),
  ground (arith, h, eq_iff a.text b.text),
)
  where
    source_lem : (s t : Source) → same_source s t ≡ true → s ≡ t
    source_lem s t h =
        let c : s.channel ≡ t.channel = ground (arith, h, eq_iff s.channel t.channel) in
        let d : s.chat_id ≡ t.chat_id = ground (arith, h, eq_iff s.chat_id t.chat_id) in
        let e : s.sender_id ≡ t.sender_id = ground (arith, h, eq_iff s.sender_id t.sender_id) in cc

retrace :
    (o : Option Message) (m : Message) (i : Identity) (e : Entry)
    → Queues o (record m { identity = i }) e
    → Queues o m e
retrace none m i e h = h
retrace (some q) m i e h = h

put_created :
    (epoch : ℕ) (id : String) (p : Payload) (now : ℕ) (s : State) {t : State}
    → put epoch "outbox" id p now s ≡ accept true t
    → lookup (key "outbox" id) t.entries ≡ some (new_entry "outbox" id p epoch now)
unfolding put
put_created epoch id p now s {t = t} h =
    elim (if_cases (is_some (lookup (key "outbox" id) s.entries)) h) [
      | inl (b, x) ↦ absurd (ground arith)
      | inr (b, x) ↦
          let same : t.entries
              ≡ insert (key "outbox" id) (new_entry "outbox" id p epoch now) s.entries =
            ground arith in
          rw same (lookup-insert_self (key "outbox" id) _ s.entries)
    ]

module _ (encode : Message → Payload) (decode : Payload → Option Message)
    (posts : Message → Bool) where
  abbrev Binds : Message → Posted → Type 0
  Binds m r = r.failure ≡ none → Bound decode m r

  post-Binds :
      (q m : Message) (e : Entry) (saved : Message) (file : Option State)
      → posted_entry m.id file ≡ some e
      → decode e.payload ≡ some saved
      → Same saved m
      → Same q m
      → e.state ≡ "pending"
      → Binds m (post encode decode posts q file)
  post-Binds q m e saved file found d s same p =
      if_rule (Binds m) (posts q) (λ _ _. (e, saved, found, d, s, (same, p))) (λ _ x. absurd (cc))

  saved-Binds :
      (e : Entry) (o : Option Message) (m : Message) (file : Option State)
      → posted_entry m.id file ≡ some e
      → decode e.payload ≡ o
      → Binds m (post_saved encode decode posts e o m file)
  saved-Binds e none m file found d = λ x. absurd (cc)
  saved-Binds e (some saved) m file found d =
      if_rule (Binds m) (not (same_result saved m)) (λ _ x. absurd (cc))
        (λ n.
          let same = same_result_lem saved m (ground (arith, n)) in
          if_rule (Binds m) (not (str_eq e.state "pending"))
            (λ p _. (e, saved, found, d, same, ne_of_test e.state "pending" (ground (arith, p))))
            (λ p.
              post-Binds saved m e saved file found d same same
                ((eq_iff e.state "pending").0 (ground (arith, p)))))

  again-Binds :
      (o : Option State) (m : Message) (file : Option State)
      → ((s : State) → o ≡ some s → s ≡ current empty_state file)
      → Binds m (post_again encode decode posts o m file)
  again-Binds none m file same = λ x. absurd (cc)
  again-Binds (some s) m file same =
      found (lookup (key "outbox" m.id) s.entries)
        (ap (λ (v : State). lookup (key "outbox" m.id) v.entries) (sym (same s refl)))
    where
      found :
          (o : Option Entry)
          → posted_entry m.id file ≡ o
          → Binds m (post_found encode decode posts o m file)
      found none q = λ x. absurd (cc)
      found (some e) q = saved-Binds e (decode e.payload) m file q refl

  recorded-Binds :
      (o : Owner) (m : Message) (put_disk get_disk : Disk) (now : ℕ) (file : Option State)
      → decode (encode m) ≡ some m
      → Binds m (post_recorded encode decode posts o m put_disk get_disk now file)
  recorded-Binds o m put_disk get_disk now file round = by_put r.failure r.out refl refl
    where
      r : Outcome JournalError Bool State
      r = mutate o (put o.epoch "outbox" m.id (encode m) now) put_disk file

      by_put :
          (f : Option (Fault JournalError)) (c : Option Bool)
          → r.failure ≡ f
          → r.out ≡ c
          → Binds m (after_put encode decode posts f c (read empty_state get_disk r.file) m r.file)
      by_put (some f) c q p = λ x. absurd (cc)
      by_put none (some false) q p =
          again-Binds (read empty_state get_disk r.file) m r.file
            (read_lem empty_state get_disk r.file)
      by_put none (some true) q p =
          let (a, t, accepted, stored, out) =
            mutate_committed o (put o.epoch "outbox" m.id (encode m) now) put_disk file q in
          let fresh : put o.epoch "outbox" m.id (encode m) now (current empty_state file)
              ≡ accept true t =
            subst
              (λ b.
                put o.epoch "outbox" m.id (encode m) now (current empty_state file) ≡ accept b t)
              (some_inj (sym out ∙ p)) accepted in
          let e = new_entry "outbox" m.id (encode m) o.epoch now in
          let found : posted_entry m.id r.file ≡ some e =
            ap (λ v. posted_entry m.id v) stored
            ∙ put_created o.epoch m.id (encode m) now (current empty_state file) fresh in
          post-Binds m m e m r.file found round (refl, refl, refl) (refl, refl, refl) refl
      by_put none none q p =
          let (a, t, accepted, stored, out) =
            mutate_committed o (put o.epoch "outbox" m.id (encode m) now) put_disk file q in
          absurd (cc)

  -- A durable post without an error leaves a record under the message's id with the same destination
  -- and text, whatever was recorded before; what is queued is that result, and it is queued only while
  -- its record is pending. The decoding is to give back the message that is encoded.
  pub post_durable-Bound :
      (o : Option Owner) (i : Identity) (m : Message) (put_disk get_disk : Disk) (now : ℕ)
      (file : Option State)
      → decode (encode (with_trace i m)) ≡ some (with_trace i m)
      → (post_durable encode decode posts o i m put_disk get_disk now file).failure ≡ none
      → Bound decode m (post_durable encode decode posts o i m put_disk get_disk now file)
  unfolding post_durable
  post_durable-Bound none i m put_disk get_disk now file round = λ x. absurd (cc)
  post_durable-Bound (some o) i m put_disk get_disk now file round =
      if_rule (Binds m) (is_empty m.id || is_empty m.source.channel || is_empty m.source.chat_id)
        (λ _ x. absurd (cc))
        (λ _.
          if_rule
            (λ (x : Message).
              decode (encode x) ≡ some x
              → Binds m (post_recorded encode decode posts o x put_disk get_disk now file))
            (is_empty m.identity.trace_id)
            (λ _ back h.
              let (e, saved, found, d, same, q) =
                recorded-Binds o (record m { identity = i }) put_disk get_disk now file back h in
              (e, saved, found, d, same, retrace _ m i e q))
            (λ _ back. recorded-Binds o m put_disk get_disk now file back) round)
