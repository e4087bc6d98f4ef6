-- ===== src/Journal/Publish.antt =====
-- `Complete` of internal/journal/journal.go settles a request and publishes its result.
use gopherharness.Base.{
  ℕ, ◌≡◌, ◌≢◌, refl, sym, ◌∙◌, String, eq_iff, Option, some, arith, inl, inr, Option-cases,
}
use gopherharness.Base.Table.{Table, lookup, insert, lookup-insert_self, lookup-insert_ne}
use gopherharness.Durable.{accept, refuse}
use gopherharness.Journal.{State, Entry, Payload, key, complete, new_entry, moved, not_running}
use gopherharness.Journal.Lifecycle.{inbox-ne-outbox}

-- The entries after an accepted `Complete`.
abbrev pub after_complete : ℕ → String → Payload → ℕ → Entry → Table Entry → Table Entry
after_complete epoch id message now e m =
    insert (key "outbox" id) (new_entry "outbox" id message epoch now)
      (insert (key "inbox" id) (moved e "completed" (some message) now) m)

pub completed :
    (epoch : ℕ) (id : String) (message : Payload) (now : ℕ) (s : State) {s' : State}
    → complete epoch id message now s ≡ accept tt s'
    → (e : Entry) × (lookup (key "inbox" id) s.entries ≡ some e)
      × (e.state ≡ "running")
      × (s'.entries ≡ after_complete epoch id message now e s.entries)
unfolding complete
completed epoch id message now s {s' = s'} h =
    elim (Option-cases (lookup (key "inbox" id) s.entries)) [
      | inl q ↦ absurd (ground arith)
      | inr (e, q) ↦
          (e, q, ground (arith, eq_iff e.state "running"), ground (arith, eq_iff e.state "running"))
    ]

-- What stands under the two keys afterwards.
inbox_after :
    (epoch : ℕ) (id : String) (message : Payload) (now : ℕ) (e : Entry) (m : Table Entry)
    → lookup (key "inbox" id) (after_complete epoch id message now e m)
      ≡ some (moved e "completed" (some message) now)
inbox_after epoch id message now e m =
    lookup-insert_ne (key "outbox" id) (key "inbox" id) _ _ (λ q. inbox-ne-outbox id id (sym q))
    ∙ lookup-insert_self (key "inbox" id) _ m

not_running_again :
    (epoch : ℕ) (id : String) (message : Payload) (now : ℕ) (s : State) (e : Entry)
    → lookup (key "inbox" id) s.entries ≡ some e
    → e.state ≡ "completed"
    → complete epoch id message now s ≡ refuse not_running
unfolding complete
not_running_again epoch id message now s e q st = rw (q, st)

-- An outbound entry that waits to be sent with this payload.
abbrev pub Queued : String → Payload → Option Entry → Type 0
Queued id payload o =
    (x : Entry) × (o ≡ some x)
    × (x.kind ≡ "outbox")
    × (x.id ≡ id)
    × (x.state ≡ "pending")
    × (x.payload ≡ payload)

-- An inbound entry that has its result, the rest of it as it was.
abbrev pub Settled : Entry → Payload → Option Entry → Type 0
Settled e result o =
    (x : Entry) × (o ≡ some x)
    × (x.state ≡ "completed")
    × (x.result ≡ some result)
    × (x.payload ≡ e.payload)
    × (x.resolutions ≡ e.resolutions)

-- What an accepted `Complete` did to the entries.
pub record Published (epoch : ℕ) (id : String) (message : Payload) (s s' : State) : Type 0 where
  pub entry : Entry
  pub found : lookup (key "inbox" id) s.entries ≡ some entry
  pub was_running : entry.state ≡ "running"
  pub settled : Settled entry message (lookup (key "inbox" id) s'.entries)
  pub queued : Queued id message (lookup (key "outbox" id) s'.entries)
  pub once : (m : Payload) (later : ℕ) → complete epoch id m later s' ≡ refuse not_running
  pub others :
      (k : String)
      → k ≢ key "inbox" id
      → k ≢ key "outbox" id
      → lookup k s'.entries ≡ lookup k s.entries

-- `Complete` settles a running inbound request and publishes its result in one step. The request is
-- completed with the result, its payload and resolutions kept; the outbound entry under the same id is
-- pending with the same payload; no other entry is touched; and a second completion of the request is
-- refused.
pub complete-Published :
    (epoch : ℕ) (id : String) (message : Payload) (now : ℕ) (s : State) {s' : State}
    → complete epoch id message now s ≡ accept tt s'
    → Published epoch id message s s'
complete-Published epoch id message now s {s' = s'} h =
    let (e, found, running, same) = completed epoch id message now s h in
    let e' = moved e "completed" (some message) now in
    let there : lookup (key "inbox" id) s'.entries ≡ some e' =
      rw same (inbox_after epoch id message now e s.entries) in
    record {
      entry = e;
      found = found;
      was_running = running;
      settled = (e', there, refl, refl, refl, refl);
      queued = (
        new_entry "outbox" id message epoch now,
        (rw same (lookup-insert_self (key "outbox" id) _ _)),
        refl,
        refl,
        refl,
        refl,
      );
      once = λ m later. not_running_again epoch id m later s' e' there refl;
      others = λ k i o. rw same (
          lookup-insert_ne (key "outbox" id) k _ _ (λ q. o (sym q))
          ∙ lookup-insert_ne (key "inbox" id) k _ s.entries (λ q. i (sym q)));
    }
