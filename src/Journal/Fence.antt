-- ===== src/Journal/Fence.antt =====
-- Only the owner that opened the journal last can change it (internal/journal/journal.go).
use gopherharness.Base.{ℕ, ◌<◌, ◌≡◌, ◌≢◌, ◌⊎◌, refl, Option, none, some, true, arith, inr, if_rule}
use gopherharness.Durable.{Disk, Verdict, refuse, Outcome, refused, current, update}
use gopherharness.Durable.Atomic.{update_committed, update_refused}
use gopherharness.Journal.{State, Error, fence, Owner, empty_state, open_journal, fenced, mutate}

abbrev pub Refused : {A : Type 0} → Outcome Error A State → Option State → Type 0
Refused r file = (r.file ≡ file) × (r.failure ≢ none)

fenced_stale :
    {A : Type 0} (epoch : ℕ) (fn : State → Verdict Error A State) (s : State)
    → s.epoch ≢ epoch
    → fenced epoch fn s ≡ refuse fence
unfolding fenced
fenced_stale epoch fn s h = ground arith

-- An owner that is closed, or whose epoch is not the journal's, changes nothing: whatever change it
-- asks for and whatever the disk does, the file stays as it was and an error is reported.
pub mutate-Refused :
    {A : Type 0} (o : Owner) (fn : State → Verdict Error A State) (d : Disk) (file : Option State)
    → (o.closed ≡ true) ⊎ ((current empty_state file).epoch ≢ o.epoch)
    → Refused (mutate o fn d file) file
unfolding mutate
mutate-Refused o fn d file h =
    if_rule (λ (r : Outcome Error _ State). Refused r file) o.closed
      (λ c. (refl, λ (q : some (refused fence) ≡ none). cc))
      λ c.
        let stale : (current empty_state file).epoch ≢ o.epoch = ground arith in
        update_refused empty_state (fenced o.epoch fn) d file
          (fenced_stale o.epoch fn (current empty_state file) stale)

-- Once a successor has opened the journal without an error, the owner before it is fenced off, even
-- if it was never closed.
pub successor-Refused :
    {A : Type 0} (o : Owner) (fn : State → Verdict Error A State) (d d' : Disk)
    (file : Option State)
    → (current empty_state file).epoch ≡ o.epoch
    → o.epoch < 18446744073709551616
    → (update empty_state open_journal d file).failure ≡ none
    → Refused
        (mutate o fn d' (update empty_state open_journal d file).file)
        (update empty_state open_journal d file).file
unfolding open_journal
successor-Refused o fn d d' file same small h =
    let (a, t, accepted, stored, out) = update_committed empty_state open_journal d file h in
    mutate-Refused o fn d' (update empty_state open_journal d file).file
      (inr (rw stored (ground arith)))
