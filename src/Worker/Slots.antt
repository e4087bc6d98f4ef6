-- ===== src/Worker/Slots.antt =====
-- Slots and statuses of the workers of internal/worker/manager.go.
use gopherharness.Base.{
  ℕ, ◌+◌, ◌≤◌, ◌≡◌, refl, subst, arith, String, str_eq, Bool, true, false, not, ◌||◌, Option, none,
  some, [], ◌∷◌, ◌++◌, ltb, length, if_rule, if_cases, some_inj, inl, inr,
}
use gopherharness.Base.Table.{
  Table, lookup, insert, Entries, Entries-insert, Entries-lookup, sum_by, sum_by-insert,
}
use gopherharness.Worker.{
  Worker, Manager, Stage, waiting, ready, running, leaving, ended, Error, active,
}
use gopherharness.Worker.Runs.{
  Move, acquire, give_up, release, begin, finish, return, done, ended_by, acquire_from,
  give_up_from, begin_from, return_from, release_from, finish_from, move_worker, stored, move_found,
  move, send_to, send, stopping, stop_found, stop, stop_all, cancel_all, seal,
}

-- A worker has an active status exactly until its goroutine is at its end.
abbrev is_ended : Stage → Bool
is_ended ended = true
is_ended _ = false

abbrev pub StatusOk : Worker → Type 0
StatusOk w = active w.status ≡ not (is_ended w.stage)

abbrev slot : Stage → ℕ
slot ready = 1
slot running = 1
slot (leaving true result err) = 1
slot _ = 0

abbrev pub holds : Worker → ℕ
holds w = slot w.stage

pub record IsOk (m : Manager) : Type 0 where
  pub statuses : Entries (λ k w. StatusOk w) m.workers
  pub exact : m.slots_used ≡ sum_by holds m.workers
  pub fits : m.slots_used ≤ m.concurrency

-- A step of one worker, with the slots in use before and after it.
abbrev Moved : Worker → ℕ → ℕ → Worker × ℕ → Type 0
Moved w used size p = StatusOk p.0 × (p.1 + holds w ≡ used + holds p.0) × (used ≤ size → p.1 ≤ size)

module _ (w : Worker) (used size : ℕ) (ok : StatusOk w) (counted : holds w ≤ used) where
  at_stage : (st : Stage) → w.stage ≡ st → active w.status ≡ not (is_ended st)
  at_stage st e = subst (λ x. active w.status ≡ not (is_ended x)) e ok

  acquire-Moved :
      (st : Stage) {p : Worker × ℕ}
      → w.stage ≡ st
      → acquire_from st used size w ≡ some p
      → Moved w used size p
  acquire-Moved waiting e h = elim (if_cases (ltb used size) h) [
    | inl (b, x) ↦
        subst (Moved w used size) (some_inj x)
          (at_stage waiting e, ground (arith, e), λ le. ground (arith, b))
    | inr (b, x) ↦ absurd (cc)
  ]
  acquire-Moved ready e h = absurd (cc)
  acquire-Moved running e h = absurd (cc)
  acquire-Moved (leaving a b c) e h = absurd (cc)
  acquire-Moved ended e h = absurd (cc)

  give_up-Moved :
      (st : Stage) (over : Bool) {p : Worker × ℕ}
      → w.stage ≡ st
      → give_up_from st over used w ≡ some p
      → Moved w used size p
  give_up-Moved waiting over e h = elim (if_cases (done over w) h) [
    | inl (b, x) ↦
        subst (Moved w used size) (some_inj x) (at_stage waiting e, ground (arith, e), λ le. le)
    | inr (b, x) ↦ absurd (cc)
  ]
  give_up-Moved ready over e h = absurd (cc)
  give_up-Moved running over e h = absurd (cc)
  give_up-Moved (leaving a b c) over e h = absurd (cc)
  give_up-Moved ended over e h = absurd (cc)

  begin-Moved :
      (st : Stage) (over : Bool) (now : ℕ) {p : Worker × ℕ}
      → w.stage ≡ st
      → begin_from st over now used w ≡ some p
      → Moved w used size p
  begin-Moved ready over now e h = elim (if_cases (done over w) h) [
    | inl (b, x) ↦
        subst (Moved w used size) (some_inj x) (at_stage ready e, ground (arith, e), λ le. le)
    | inr (b, x) ↦ subst (Moved w used size) (some_inj x) (
      if_rule (λ st. active st ≡ true) (str_eq w.status "stopping") (λ q. at_stage ready e)
          (λ q. refl),
      ground (arith, e),
      λ le. le,
    )
  ]
  begin-Moved waiting over now e h = absurd (cc)
  begin-Moved running over now e h = absurd (cc)
  begin-Moved (leaving a b c) over now e h = absurd (cc)
  begin-Moved ended over now e h = absurd (cc)

  return-Moved :
      (st : Stage) (r : String) (err : Option String) {p : Worker × ℕ}
      → w.stage ≡ st
      → return_from st r err used w ≡ some p
      → Moved w used size p
  return-Moved running r err e h =
      subst (Moved w used size) (some_inj h) (at_stage running e, ground (arith, e), λ le. le)
  return-Moved waiting r err e h = absurd (cc)
  return-Moved ready r err e h = absurd (cc)
  return-Moved (leaving true b c) r err e h = absurd (cc)
  return-Moved (leaving false b c) r err e h = absurd (cc)
  return-Moved ended r err e h = absurd (cc)

  release-Moved :
      (st : Stage) {p : Worker × ℕ}
      → w.stage ≡ st
      → release_from st used w ≡ some p
      → Moved w used size p
  release-Moved (leaving true b c) e h =
      subst (Moved w used size) (some_inj h)
        (at_stage (leaving true b c) e, ground (arith, e, counted), λ le. omega (arith, le))
  release-Moved waiting e h = absurd (cc)
  release-Moved ready e h = absurd (cc)
  release-Moved running e h = absurd (cc)
  release-Moved (leaving false b c) e h = absurd (cc)
  release-Moved ended e h = absurd (cc)

  ended-Moved :
      (stopped : Bool) (r : String) (err : Option String) (now : ℕ)
      → holds w ≡ 0
      → Moved w used size (ended_by stopped r err now w, used)
  ended-Moved true r none now z = (refl, omega (arith, z), λ le. le)
  ended-Moved false r none now z = (refl, omega (arith, z), λ le. le)
  ended-Moved true r (some x) now z = (refl, omega (arith, z), λ le. le)
  ended-Moved false r (some x) now z = (refl, omega (arith, z), λ le. le)

  finish-Moved :
      (st : Stage) (over : Bool) (now : ℕ) {p : Worker × ℕ}
      → w.stage ≡ st
      → finish_from st over now used w ≡ some p
      → Moved w used size p
  finish-Moved (leaving false b c) over now e h =
      subst (Moved w used size) (some_inj h)
        (ended-Moved (done over w || str_eq w.status "stopping") b c now (ground (arith, e)))
  finish-Moved waiting over now e h = absurd (cc)
  finish-Moved ready over now e h = absurd (cc)
  finish-Moved running over now e h = absurd (cc)
  finish-Moved (leaving true b c) over now e h = absurd (cc)
  finish-Moved ended over now e h = absurd (cc)

  move_worker-Moved :
      (v : Move) (over : Bool) {p : Worker × ℕ}
      → move_worker v over used size w ≡ some p
      → Moved w used size p
  unfolding move_worker
  move_worker-Moved acquire over h = acquire-Moved w.stage refl h
  move_worker-Moved give_up over h = give_up-Moved w.stage over refl h
  move_worker-Moved (begin now) over h = begin-Moved w.stage over now refl h
  move_worker-Moved (return r err) over h = return-Moved w.stage r err refl h
  move_worker-Moved release over h = release-Moved w.stage refl h
  move_worker-Moved (finish now) over h = finish-Moved w.stage over now refl h

stopping_keeps : (w : Worker) → StatusOk w → StatusOk (stopping w) × (holds (stopping w) ≡ holds w)
unfolding stopping
stopping_keeps w ok =
    if_rule (λ (x : Worker). StatusOk x × (holds x ≡ holds w)) (active w.status)
      (λ a. (ground (arith, ok, a), refl)) (λ a. (ok, refl))

module _ (m : Manager) (ok : IsOk m) where
  replaced :
      (id : String) (w w' : Worker) (n : ℕ)
      → lookup id m.workers ≡ some w
      → StatusOk w'
      → n + holds w ≡ m.slots_used + holds w'
      → n ≤ m.concurrency
      → IsOk (record m { workers = insert id w' m.workers; slots_used = n })
  replaced id w w' n found good e le = record {
    statuses = Entries-insert (λ k (x : Worker). StatusOk x) id w' m.workers good ok.statuses;
    exact = omega (arith, ok.exact, e, (rw found at (sum_by-insert holds id w' m.workers)));
    fits = le;
  }

  holds-le : (id : String) {w : Worker} → lookup id m.workers ≡ some w → holds w ≤ m.slots_used
  holds-le id {w = w} found = omega (
    arith,
    ok.exact,
    (rw found at (sum_by-insert holds id (record w { stage = ended }) m.workers)),
  )

  status_at : (id : String) {w : Worker} → lookup id m.workers ≡ some w → StatusOk w
  status_at id found = Entries-lookup (λ k (x : Worker). StatusOk x) id m.workers ok.statuses found

  pub move-IsOk : (v : Move) (id : String) {t : Manager} → move v id m ≡ some t → IsOk t
  unfolding move
  move-IsOk v id {t = t} h = from (lookup id m.workers) refl h
    where
      put :
          (w : Worker) (o : Option (Worker × ℕ))
          → lookup id m.workers ≡ some w
          → move_worker v m.over m.slots_used m.concurrency w ≡ o
          → stored o id m ≡ some t
          → IsOk t
      put w none q e h = absurd (cc)
      put w (some (w', n)) q e h =
          let (good, count, fit) =
            move_worker-Moved w m.slots_used m.concurrency (status_at id q) (holds-le id q) v m.over
              e in
          subst IsOk (some_inj h) (replaced id w w' n q good count (fit ok.fits))

      from : (o : Option Worker) → lookup id m.workers ≡ o → move_found o v id m ≡ some t → IsOk t
      from none q h = absurd (cc)
      from (some w) q h = put w (move_worker v m.over m.slots_used m.concurrency w) q refl h

  pub send-IsOk : (id message : String) → IsOk (send id message m).1
  unfolding send
  send-IsOk id message = from (lookup id m.workers) refl
    where
      P : Option Error × Manager → Type 0
      P p = IsOk p.1

      from : (o : Option Worker) → lookup id m.workers ≡ o → IsOk (send_to o id message m).1
      from none q = ok
      from (some w) q =
          if_rule P (m.closed || not (str_eq w.status "running" || str_eq w.status "queued"))
            (λ a. ok)
            (λ a.
              if_rule P (ltb (length w.inbox) 50)
                (λ b.
                  replaced id w (record w { inbox = w.inbox ++ message ∷ [] }) m.slots_used q
                    (status_at id q) refl ok.fits)
                (λ b. ok))

  pub stop-IsOk : (id : String) → IsOk (stop id m).1
  unfolding stop
  stop-IsOk id = from (lookup id m.workers) refl
    where
      from : (o : Option Worker) → lookup id m.workers ≡ o → IsOk (stop_found o id m).1
      from none q = ok
      from (some w) q =
          let (good, same) = stopping_keeps w (status_at id q) in
          replaced id w (stopping w) m.slots_used q good (omega (arith, same)) ok.fits

stop_all_keeps :
    (ws : Table Worker)
    → Entries (λ k w. StatusOk w) ws
    → Entries (λ k w. StatusOk w) (stop_all ws) × (sum_by holds (stop_all ws) ≡ sum_by holds ws)
unfolding stop_all sum_by
stop_all_keeps [] h = (tt, refl)
stop_all_keeps ((k, w) ∷ ws) h =
    let (good, same) = stopping_keeps w h.0 in
    let (rest, sums) = stop_all_keeps ws h.1 in ((good, rest), omega (arith, same, sums))

pub seal-IsOk : (m : Manager) → IsOk m → IsOk (seal m)
unfolding seal
seal-IsOk m ok =
    let (good, sums) = stop_all_keeps m.workers ok.statuses in
    record { statuses = good; exact = omega (arith, sums, ok.exact); fits = ok.fits }

pub cancel_all-IsOk : (m : Manager) → IsOk m → IsOk (cancel_all m)
unfolding cancel_all
cancel_all-IsOk m ok =
    let (good, sums) = stop_all_keeps m.workers ok.statuses in
    record { statuses = good; exact = omega (arith, sums, ok.exact); fits = ok.fits }
