-- ===== src/Delivery/Claimed.antt =====
-- `send` in internal/delivery/hub.go and the journal: a message is tried only once it is claimed.
use gopherharness.Base.{
  ℕ, ◌+◌, ◌≤◌, ◌≡◌, ◌≢◌, ◌⊎◌, refl, sym, ◌∙◌, ap, subst, inl, inr, arith, String, Option, none,
  some, Option-cases,
}
use gopherharness.Base.Text.{ne_of_test}
use gopherharness.Base.Table.{lookup, lookup-insert_self}
use gopherharness.Durable.{Disk, Verdict, accept, Fault, Outcome, current}
use gopherharness.Durable.Atomic.{FileHas, Keeps, Keeps-intro}
use gopherharness.Journal.{
  Owner, State, Entry, Payload, Error, message_id, empty_state, key, mutate, move, moved,
}
use gopherharness.Journal.Changes.{mutate-FileHas, mutate_committed}
use gopherharness.Journal.Lifecycle.{move_lem}
use gopherharness.Delivery.{
  Message, Record, World, fresh, tries, Sent, finish_send, claimed_send, send, recorded,
}
use gopherharness.Delivery.Attempts.{Ran, Ends, tries-Ran}

-- An entry under the key that is not pending, as a claimed message has.
abbrev Taken : String → State → Type 0
Taken id s = (e : Entry) × (lookup (key "outbox" id) s.entries ≡ some e) × (e.state ≢ "pending")

-- What `Move` leaves under the key of the message.
abbrev Stands : String → String → State → Type 0
Stands id st s = (e : Entry) × (lookup (key "outbox" id) s.entries ≡ some e) × (e.state ≡ st)

move-Stands :
    (id from to : String) (r : Option Payload) (now : ℕ) (s : State) {t : State}
    → move "outbox" id from to r now s ≡ accept tt t
    → Stands id to t
move-Stands id from to r now s h =
    let (e, found, was, q) = move_lem "outbox" id from to r now s h in
    subst (Stands id to) (sym q)
      (moved e to r now, lookup-insert_self (key "outbox" id) (moved e to r now) s.entries, refl)

Stands-Taken : (id st : String) (s : State) → st ≢ "pending" → Stands id st s → Taken id s
Stands-Taken id st s ne (e, found, q) = (e, found, λ p. ne (sym q ∙ p))

move-Keeps :
    (id from to : String) (r : Option Payload) (now : ℕ) (s : State)
    → to ≢ "pending"
    → Keeps (Taken id) (move "outbox" id from to r now s)
move-Keeps id from to r now s ne =
    Keeps-intro (Taken id) (move "outbox" id from to r now s)
      (λ a t h. Stands-Taken id to t ne (move-Stands id from to r now s h))

Ends-ne :
    (m : Message) (w : World) (n : ℕ) (q : Record)
    → Ends (w.replies n) "dropped" q
    → q.outcome ≢ "pending"
Ends-ne m w n q (inl (a, b)) = λ p. ne_of_test "delivered" "pending" refl (sym a ∙ p)
Ends-ne m w n q (inr (inl (a, b))) = λ p. ne_of_test "unknown" "pending" refl (sym a ∙ p)
Ends-ne m w n q (inr (inr (a, b))) = λ p. ne_of_test "dropped" "pending" refl (sym a ∙ p)

-- The entry of a message that waits to be sent.
abbrev pub Waiting : String → Option State → Type 0
Waiting id file =
    (e : Entry) × (lookup (key "outbox" id) (current empty_state file).entries ≡ some e)
    × (e.state ≡ "pending")

-- The account of a message afterwards, by the file before.
abbrev pub Accounted : ℕ → String → Option State → Sent → Type 0
Accounted retries id before x =
    ((x.tried ≡ 0) × (x.shown.outcome ≡ "journal_error"))
    ⊎ (Waiting id before
        × (1 ≤ x.tried)
        × (x.tried ≤ retries + 1)
        × ((e : Entry) × (lookup (key "outbox" id) (current empty_state x.file).entries ≡ some e)
            × (e.state ≢ "pending")
            × ((x.shown.outcome ≡ "journal_error") ⊎ (e.state ≡ x.shown.outcome))))

module _ (retries : ℕ) (w : World) (o : Owner) (m : Message) where
  finish-Accounted :
      (d : Disk) (now : ℕ) (q : Record) (before file : Option State)
      → Waiting m.id before
      → Ran retries w 0 (fresh m) q
      → FileHas empty_state (Taken m.id) file
      → Accounted retries m.id before (finish_send o d now m q file)
  finish-Accounted d now q before file waits ran taken =
      let r : Option Payload = some (message_id q.receipt.message) in
      let ne = Ends-ne m w (0 + ran.repeats) q ran.ends in
      let fn : State → Verdict Error (Unit {0}) State =
        move "outbox" m.id "sending" q.outcome r now in
      elim (Option-cases (mutate o fn d file).failure) [
        | inl none_failed ↦
            let (a, t, accepted, stored, _) = mutate_committed o fn d file none_failed in
            let (e, found, st) =
              move-Stands m.id "sending" q.outcome r now (current empty_state file) accepted in
            inr (
              waits,
              omega (arith, ran.count),
              omega (arith, ran.count, ran.bounded),
              (
                e,
                rw stored found,
                λ p. ne (sym st ∙ p),
                inr (st ∙ sym (ap (λ f. (recorded f q).outcome) none_failed)),
              ),
            )
        | inr (x, some_failed) ↦
            let (e, found, st) =
              mutate-FileHas o fn d file (Taken m.id)
                (λ s p. move-Keeps m.id "sending" q.outcome r now s ne) taken in
            inr (
              waits,
              omega (arith, ran.count),
              omega (arith, ran.count, ran.bounded),
              (e, found, st, inl (ap (λ f. (recorded f q).outcome) some_failed)),
            )
      ]

  -- However the disk, the outlet and the hub behave: a message is tried only if its entry was pending
  -- before, at most once more than the retries, and afterwards its entry is not pending; the entry has
  -- the outcome that the sink is shown, unless that is a journal error. Else it is not tried, and the
  -- sink is shown a journal error.
  pub send-Accounted :
      (d1 d2 : Disk) (now1 now2 : ℕ) (file : Option State)
      → Accounted retries m.id file (send retries w o d1 d2 now1 now2 m file)
  unfolding send
  send-Accounted d1 d2 now1 now2 file =
      from (mutate o (move "outbox" m.id "pending" "sending" none now1) d1 file).failure refl
    where
      c : Outcome Error (Unit {0}) State
      c = mutate o (move "outbox" m.id "pending" "sending" none now1) d1 file

      from :
          (f : Option (Fault Error))
          → c.failure ≡ f
          → Accounted retries m.id file (claimed_send f retries w o d2 now2 m c.file)
      from (some e) q = inl (refl, refl)
      from none q =
          let (a, t, accepted, stored, _) =
            mutate_committed o (move "outbox" m.id "pending" "sending" none now1) d1 file q in
          let (e, found, pending, _) =
            move_lem "outbox" m.id "pending" "sending" none now1 (current empty_state file)
              accepted in
          finish-Accounted d2 now2 (tries retries w 0 (fresh m)) file c.file (e, found, pending)
            (tries-Ran retries w 0 (fresh m))
            (rw stored (
              Stands-Taken m.id "sending" t (ne_of_test "sending" "pending" refl) (
                move-Stands m.id "pending" "sending" none now1 (current empty_state file)
                  accepted)))
