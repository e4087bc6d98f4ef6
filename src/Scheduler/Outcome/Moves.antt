-- ===== src/Scheduler/Outcome/Moves.antt =====
-- Every step of a goroutine leaves a result that is there (internal/scheduler/scheduler.go).
use gopherharness.Base.{
  ℕ, ◌+◌, ◌≡◌, subst, Bool, true, false, Option, none, some, List, [], ◌∷◌, if_cases, if_rule,
  some_inj, String, ltb, is_empty, ◌&&◌, inl, inr,
}
use gopherharness.Base.Table.{lookup}
use gopherharness.Scheduler.{
  Result, Job, Stage, stopped, polling, waiting, ready, turn, closing, Lane, Scheduler,
}
use gopherharness.Scheduler.Work.{
  Move, poll, acquire, give_up, begin, drain, settle, end_run, move, move_lane, at_lane, poll_lane,
  acquire_lane, give_up_lane, begin_lane, drain_lane, finish_lane, settle_lane, stop, take_head,
  end_turn, release, in_use, slots, with_use, cancelled_result,
}
use gopherharness.Scheduler.Outcome.{
  Shows, finish-Has, cancel-Has, drop_dead-Has, finish_consumed-Has,
}

module _ (i : ℕ) (r : Result) where
  release-Shows : (a b : Bool) (s : Scheduler) → Shows i r s → Shows i r (release a b s)
  release-Shows true true s e = e
  release-Shows true false s e = e
  release-Shows false b s e = e

  module _ (cid : String) (l : Lane) (s : Scheduler) (e : Shows i r s) where
    end_turn-Shows :
        (j : Job) (a : Bool) (c : List Job) (x : Result) → Shows i r (end_turn cid j a c x l s)
    end_turn-Shows j a c x =
        let t = release-Shows a j.req.background s e in
        (t.0, cancel-Has i r j.handle _ (finish-Has i r j.handle x _ t.1))

    stop-Shows : Shows i r (stop cid l s)
    stop-Shows = if_rule (Shows i r) l.paused (λ p. e) (λ p. e)

    take-Shows : (q : List Job) → Shows i r (take_head cid q l s)
    take-Shows [] = stop-Shows
    take-Shows (j ∷ q) =
        if_rule (Shows i r) (l.paused && is_empty j.req.approval_id) (λ p. stop-Shows) (λ p. e)

    poll-Shows : (st : Stage) {t : Scheduler} → poll_lane st cid l s ≡ some t → Shows i r t
    poll-Shows polling h = subst (Shows i r) (some_inj h) (take-Shows l.queue)
    poll-Shows stopped h = absurd (cc)
    poll-Shows (waiting j) h = absurd (cc)
    poll-Shows (ready j a) h = absurd (cc)
    poll-Shows (turn j a c) h = absurd (cc)
    poll-Shows (closing j x c) h = absurd (cc)

    acquire-Shows : (st : Stage) {t : Scheduler} → acquire_lane st cid l s ≡ some t → Shows i r t
    acquire-Shows (waiting j) h =
        elim (if_cases (ltb (in_use j.req.background s) (slots j.req.background s)) h) [
          | inl (b, x) ↦ subst (Shows i r) (some_inj x) (taken j.req.background)
          | inr (b, x) ↦ absurd (cc)
        ]
      where
        taken : (b : Bool) → Shows i r (with_use b (in_use b s + 1) s)
        taken true = e
        taken false = e
    acquire-Shows stopped h = absurd (cc)
    acquire-Shows polling h = absurd (cc)
    acquire-Shows (ready j a) h = absurd (cc)
    acquire-Shows (turn j a c) h = absurd (cc)
    acquire-Shows (closing j x c) h = absurd (cc)

    give_up-Shows : (st : Stage) {t : Scheduler} → give_up_lane st cid l s ≡ some t → Shows i r t
    give_up-Shows (waiting j) h = elim (if_cases (s.handles j.handle).done h) [
      | inl (b, x) ↦ subst (Shows i r) (some_inj x) e
      | inr (b, x) ↦ absurd (cc)
    ]
    give_up-Shows stopped h = absurd (cc)
    give_up-Shows polling h = absurd (cc)
    give_up-Shows (ready j a) h = absurd (cc)
    give_up-Shows (turn j a c) h = absurd (cc)
    give_up-Shows (closing j x c) h = absurd (cc)

    begin-Shows : (st : Stage) {t : Scheduler} → begin_lane st cid l s ≡ some t → Shows i r t
    begin-Shows (ready j a) h = elim (if_cases (s.handles j.handle).done h) [
      | inl (b, x) ↦ subst (Shows i r) (some_inj x) (end_turn-Shows j a [] cancelled_result)
      | inr (b, x) ↦ subst (Shows i r) (some_inj x) e
    ]
    begin-Shows stopped h = absurd (cc)
    begin-Shows polling h = absurd (cc)
    begin-Shows (waiting j) h = absurd (cc)
    begin-Shows (turn j a c) h = absurd (cc)
    begin-Shows (closing j x c) h = absurd (cc)

    drain-Shows : (st : Stage) {t : Scheduler} → drain_lane st cid l s ≡ some t → Shows i r t
    drain-Shows (turn j a c) h =
        subst (Shows i r) (some_inj h) (e.0, drop_dead-Has i r l.inbox s.handles e.1)
    drain-Shows stopped h = absurd (cc)
    drain-Shows polling h = absurd (cc)
    drain-Shows (waiting j) h = absurd (cc)
    drain-Shows (ready j a) h = absurd (cc)
    drain-Shows (closing j x c) h = absurd (cc)

    finish-Shows :
        (st : Stage) (y : Result) {t : Scheduler} → finish_lane st y cid l s ≡ some t → Shows i r t
    finish-Shows (turn j a c) y h = subst (Shows i r) (some_inj h) (end_turn-Shows j a c y)
    finish-Shows stopped y h = absurd (cc)
    finish-Shows polling y h = absurd (cc)
    finish-Shows (waiting j) y h = absurd (cc)
    finish-Shows (ready j a) y h = absurd (cc)
    finish-Shows (closing j x c) y h = absurd (cc)

    settle-Shows : (st : Stage) {t : Scheduler} → settle_lane st cid l s ≡ some t → Shows i r t
    settle-Shows (closing j x c) h =
        subst (Shows i r) (some_inj h) (e.0, finish_consumed-Has i r x c s.handles e.1)
    settle-Shows stopped h = absurd (cc)
    settle-Shows polling h = absurd (cc)
    settle-Shows (waiting j) h = absurd (cc)
    settle-Shows (ready j a) h = absurd (cc)
    settle-Shows (turn j a c) h = absurd (cc)

    step-Shows : (m : Move) {t : Scheduler} → move_lane m cid l s ≡ some t → Shows i r t
    step-Shows poll h = poll-Shows l.stage h
    step-Shows acquire h = acquire-Shows l.stage h
    step-Shows give_up h = give_up-Shows l.stage h
    step-Shows begin h = begin-Shows l.stage h
    step-Shows drain h = drain-Shows l.stage h
    step-Shows (end_run y) h = finish-Shows l.stage y h
    step-Shows settle h = settle-Shows l.stage h

  -- A handle that shows a result shows the same one after any step of any conversation.
  pub move-Shows :
      (m : Move) (cid : String) (s : Scheduler) {t : Scheduler}
      → Shows i r s
      → move m cid s ≡ some t
      → Shows i r t
  unfolding move
  move-Shows m cid s {t = t} e h = from (lookup cid s.lanes) h
    where
      from : (o : Option Lane) → at_lane o m cid s ≡ some t → Shows i r t
      from none h = absurd (cc)
      from (some l) h = step-Shows cid l s e m h
