-- ===== src/Scheduler/Steps.antt =====
-- Every step of a conversation's goroutine, of internal/scheduler/scheduler.go, keeps the lanes and
-- the pools in order.
use gopherharness.Base.{
  ◌+◌, ◌-◌, ◌≤◌, ◌≡◌, ◌⊎◌, refl, subst, String, Bool, true, false, not, ◌&&◌, Option, none, some,
  List, [], ◌∷◌, ◌++◌, arith, inl, inr, length-append, if_cases, if_rule, some_inj, ltb, is_empty,
}
use gopherharness.Base.Table.{lookup, insert, Entries-lookup, sum_by-insert}
use gopherharness.Scheduler.{
  Result, Job, Stage, stopped, polling, waiting, ready, turn, closing, Lane, Scheduler,
}
use gopherharness.Scheduler.Work.{
  Move, poll, acquire, give_up, begin, drain, settle, end_run, move, move_lane, at_lane, poll_lane,
  acquire_lane, give_up_lane, begin_lane, drain_lane, finish_lane, settle_lane, stop, take_head,
  put, end_turn, in_use, slots, with_use, live_jobs, drop_dead, finish_consumed, cancelled_result,
  paused_after,
}
use gopherharness.Scheduler.Bounds.{StageOk, LaneOk, IsOk, held, replace-IsOk, erase-IsOk}
use gopherharness.Scheduler.{cancel, finish}

module _ (s : Scheduler) (ok : IsOk s) (cid : String) (l : Lane)
    (found : lookup cid s.lanes ≡ some l) where
  good : LaneOk s.capacity l
  good = Entries-lookup (λ k (x : Lane). LaneOk s.capacity x) cid s.lanes ok.lanes_ok found

  at_stage : (st : Stage) → l.stage ≡ st → StageOk st l
  at_stage st e = subst (λ x. StageOk x l) e good.stage_ok

  stop-IsOk : l.stage ≡ polling → IsOk (stop cid l s)
  stop-IsOk e =
      let (run, none_active, no_inbox) = at_stage polling e in
      if_rule IsOk l.paused
        (λ p.
          replace-IsOk s ok cid l (record l { running = false; stage = stopped }) s.handles
            s.foreground s.background found
            (record { stage_ok = (refl, none_active, no_inbox); bounded = good.bounded })
            (ground arith) ok.foreground_fits (ground arith) ok.background_fits)
        (λ p. erase-IsOk s ok cid l found (ground arith) (ground arith))

  take-IsOk : (q : List Job) → l.stage ≡ polling → l.queue ≡ q → IsOk (take_head cid q l s)
  take-IsOk [] e eq = stop-IsOk e
  take-IsOk (j ∷ q) e eq =
      let (run, none_active, no_inbox) = at_stage polling e in
      if_rule IsOk (l.paused && is_empty j.req.approval_id) (λ p. stop-IsOk e)
        (λ p.
          replace-IsOk s ok cid l (record l { queue = q; active = some j; stage = waiting j })
            s.handles s.foreground s.background found
            (record { stage_ok = (run, refl); bounded = ground (arith, good.bounded) })
            (ground arith) ok.foreground_fits (ground arith) ok.background_fits)

  poll-IsOk : (st : Stage) {t : Scheduler} → l.stage ≡ st → poll_lane st cid l s ≡ some t → IsOk t
  poll-IsOk polling e h = subst IsOk (some_inj h) (take-IsOk l.queue e refl)
  poll-IsOk stopped e h = absurd (cc)
  poll-IsOk (waiting j) e h = absurd (cc)
  poll-IsOk (ready j a) e h = absurd (cc)
  poll-IsOk (turn j a c) e h = absurd (cc)
  poll-IsOk (closing j r c) e h = absurd (cc)

  acquire-IsOk :
      (st : Stage) {t : Scheduler} → l.stage ≡ st → acquire_lane st cid l s ≡ some t → IsOk t
  acquire-IsOk (waiting j) {t = t} e h =
      elim (if_cases (ltb (in_use j.req.background s) (slots j.req.background s)) h) [
        | inr (b, x) ↦ absurd (cc)
        | inl (b, x) ↦
            subst IsOk (some_inj x) (with_slot j.req.background refl (at_stage (waiting j) e) b)
      ]
    where
      with_slot :
          (b : Bool)
          → j.req.background ≡ b
          → StageOk (waiting j) l
          → ltb (in_use b s) (slots b s) ≡ true
          → IsOk (put cid (record l { stage = ready j true }) (with_use b (in_use b s + 1) s))
      with_slot true p so room =
          replace-IsOk s ok cid l (record l { stage = ready j true }) s.handles s.foreground
            (s.background + 1) found (record { stage_ok = so; bounded = good.bounded })
            (ground arith) ok.foreground_fits (ground arith) (ground arith)
      with_slot false p so room =
          replace-IsOk s ok cid l (record l { stage = ready j true }) s.handles (s.foreground + 1)
            s.background found (record { stage_ok = so; bounded = good.bounded }) (ground arith)
            (ground arith) (ground arith) ok.background_fits
  acquire-IsOk stopped e h = absurd (cc)
  acquire-IsOk polling e h = absurd (cc)
  acquire-IsOk (ready j a) e h = absurd (cc)
  acquire-IsOk (turn j a c) e h = absurd (cc)
  acquire-IsOk (closing j r c) e h = absurd (cc)

  give_up-IsOk :
      (st : Stage) {t : Scheduler} → l.stage ≡ st → give_up_lane st cid l s ≡ some t → IsOk t
  give_up-IsOk (waiting j) {t = t} e h = elim (if_cases (s.handles j.handle).done h) [
    | inr (b, x) ↦ absurd (cc)
    | inl (b, x) ↦ subst IsOk (some_inj x) (
        replace-IsOk s ok cid l (record l { stage = ready j false }) s.handles s.foreground
          s.background found (record { stage_ok = at_stage (waiting j) e; bounded = good.bounded })
          (ground arith) ok.foreground_fits (ground arith) ok.background_fits)
  ]
  give_up-IsOk stopped e h = absurd (cc)
  give_up-IsOk polling e h = absurd (cc)
  give_up-IsOk (ready j a) e h = absurd (cc)
  give_up-IsOk (turn j a c) e h = absurd (cc)
  give_up-IsOk (closing j r c) e h = absurd (cc)

  -- What a lane holds is counted.
  held_foreground : held false l ≤ s.foreground
  held_foreground = omega (
    arith,
    ok.foreground_exact,
    (rw found at (sum_by-insert (held false) cid (record l { stage = stopped }) s.lanes)),
  )

  held_background : held true l ≤ s.background
  held_background = omega (
    arith,
    ok.background_exact,
    (rw found at (sum_by-insert (held true) cid (record l { stage = stopped }) s.lanes)),
  )

  end_turn-IsOk :
      (j : Job) (a : Bool) (c : List Job) (r : Result)
      → (l.stage ≡ ready j a) ⊎ ((d : List Job) × (l.stage ≡ turn j a d))
      → (l.running ≡ true) × (l.active ≡ some j)
      → IsOk (end_turn cid j a c r l s)
  end_turn-IsOk j false c r e so =
      replace-IsOk s ok cid l (record l { stage = closing j r c })
        (cancel j.handle (finish j.handle r s.handles)) s.foreground s.background found
        (record { stage_ok = so; bounded = good.bounded }) (ground arith) ok.foreground_fits
        (ground arith) ok.background_fits
  end_turn-IsOk j true c r e so = free j.req.background refl
    where
      free :
          (b : Bool)
          → j.req.background ≡ b
          → IsOk (
              let t = with_use b (in_use b s - 1) s in
              record t {
                lanes = insert cid (record l { stage = closing j r c }) t.lanes;
                handles = cancel j.handle (finish j.handle r t.handles);
              })
      free true p =
          replace-IsOk s ok cid l (record l { stage = closing j r c })
            (cancel j.handle (finish j.handle r s.handles)) s.foreground (s.background - 1) found
            (record { stage_ok = so; bounded = good.bounded }) (ground arith) ok.foreground_fits
            (ground (arith, held_background)) (omega (arith, ok.background_fits))
      free false p =
          replace-IsOk s ok cid l (record l { stage = closing j r c })
            (cancel j.handle (finish j.handle r s.handles)) (s.foreground - 1) s.background found
            (record { stage_ok = so; bounded = good.bounded }) (ground (arith, held_foreground))
            (omega (arith, ok.foreground_fits)) (ground arith) ok.background_fits

  begin-IsOk : (st : Stage) {t : Scheduler} → l.stage ≡ st → begin_lane st cid l s ≡ some t → IsOk t
  begin-IsOk (ready j a) {t = t} e h = elim (if_cases (s.handles j.handle).done h) [
    | inl (b, x) ↦
        subst IsOk (some_inj x)
          (end_turn-IsOk j a [] cancelled_result (inl e) (at_stage (ready j a) e))
    | inr (b, x) ↦ subst IsOk (some_inj x) (enter a e)
  ]
    where
      enter : (a : Bool) → l.stage ≡ ready j a → IsOk (put cid (record l { stage = turn j a [] }) s)
      enter true e =
          replace-IsOk s ok cid l (record l { stage = turn j true [] }) s.handles s.foreground
            s.background found
            (record { stage_ok = at_stage (ready j true) e; bounded = good.bounded }) (ground arith)
            ok.foreground_fits (ground arith) ok.background_fits
      enter false e =
          replace-IsOk s ok cid l (record l { stage = turn j false [] }) s.handles s.foreground
            s.background found
            (record { stage_ok = at_stage (ready j false) e; bounded = good.bounded })
            (ground arith) ok.foreground_fits (ground arith) ok.background_fits
  begin-IsOk stopped e h = absurd (cc)
  begin-IsOk polling e h = absurd (cc)
  begin-IsOk (waiting j) e h = absurd (cc)
  begin-IsOk (turn j a c) e h = absurd (cc)
  begin-IsOk (closing j r c) e h = absurd (cc)

  drain-IsOk : (st : Stage) {t : Scheduler} → l.stage ≡ st → drain_lane st cid l s ≡ some t → IsOk t
  drain-IsOk (turn j a c) e h = subst IsOk (some_inj h) (emptied a e)
    where
      emptied :
          (a : Bool)
          → l.stage ≡ turn j a c
          → IsOk (record s {
            lanes =
                insert cid
                  (record l { inbox = []; stage = turn j a (c ++ live_jobs s.handles l.inbox) })
                  s.lanes;
            handles = drop_dead l.inbox s.handles;
          })
      emptied true e =
          replace-IsOk s ok cid l
            (record l { inbox = []; stage = turn j true (c ++ live_jobs s.handles l.inbox) })
            (drop_dead l.inbox s.handles) s.foreground s.background found
            (record {
              stage_ok = at_stage (turn j true c) e;
              bounded = ground (arith, good.bounded);
            })
            (ground arith) ok.foreground_fits (ground arith) ok.background_fits
      emptied false e =
          replace-IsOk s ok cid l
            (record l { inbox = []; stage = turn j false (c ++ live_jobs s.handles l.inbox) })
            (drop_dead l.inbox s.handles) s.foreground s.background found
            (record {
              stage_ok = at_stage (turn j false c) e;
              bounded = ground (arith, good.bounded);
            })
            (ground arith) ok.foreground_fits (ground arith) ok.background_fits
  drain-IsOk stopped e h = absurd (cc)
  drain-IsOk polling e h = absurd (cc)
  drain-IsOk (waiting j) e h = absurd (cc)
  drain-IsOk (ready j a) e h = absurd (cc)
  drain-IsOk (closing j r c) e h = absurd (cc)

  finish-IsOk :
      (st : Stage) (r : Result) {t : Scheduler}
      → l.stage ≡ st
      → finish_lane st r cid l s ≡ some t
      → IsOk t
  finish-IsOk (turn j a c) r e h =
      subst IsOk (some_inj h) (end_turn-IsOk j a c r (inr (c, e)) (at_stage (turn j a c) e))
  finish-IsOk stopped r e h = absurd (cc)
  finish-IsOk polling r e h = absurd (cc)
  finish-IsOk (waiting j) r e h = absurd (cc)
  finish-IsOk (ready j a) r e h = absurd (cc)
  finish-IsOk (closing j q c) r e h = absurd (cc)

  settle-IsOk :
      (st : Stage) {t : Scheduler} → l.stage ≡ st → settle_lane st cid l s ≡ some t → IsOk t
  settle-IsOk (closing j r c) e h =
      let (run, busy) = at_stage (closing j r c) e in
      let l' : Lane = record l {
        queue = l.queue ++ l.inbox;
        inbox = [];
        active = none;
        paused = paused_after r.err (not (is_empty j.req.approval_id)) l.paused;
        stage = polling;
      } in
      subst IsOk (some_inj h) (
        replace-IsOk s ok cid l l' (finish_consumed r c s.handles) s.foreground s.background found
          (record {
            stage_ok = (run, refl, refl);
            bounded = ground (arith, good.bounded, length-append l.queue l.inbox);
          })
          (ground arith) ok.foreground_fits (ground arith) ok.background_fits)
  settle-IsOk stopped e h = absurd (cc)
  settle-IsOk polling e h = absurd (cc)
  settle-IsOk (waiting j) e h = absurd (cc)
  settle-IsOk (ready j a) e h = absurd (cc)
  settle-IsOk (turn j a c) e h = absurd (cc)

  step-IsOk : (m : Move) {t : Scheduler} → move_lane m cid l s ≡ some t → IsOk t
  step-IsOk poll h = poll-IsOk l.stage refl h
  step-IsOk acquire h = acquire-IsOk l.stage refl h
  step-IsOk give_up h = give_up-IsOk l.stage refl h
  step-IsOk begin h = begin-IsOk l.stage refl h
  step-IsOk drain h = drain-IsOk l.stage refl h
  step-IsOk (end_run r) h = finish-IsOk l.stage r refl h
  step-IsOk settle h = settle-IsOk l.stage refl h

-- Whatever a goroutine does next, from lanes and pools in order it comes to lanes and pools in order.
pub move-IsOk :
    (m : Move) (cid : String) (s : Scheduler) {t : Scheduler}
    → IsOk s
    → move m cid s ≡ some t
    → IsOk t
unfolding move
move-IsOk m cid s {t = t} ok h = from (lookup cid s.lanes) refl h
  where
    from : (o : Option Lane) → lookup cid s.lanes ≡ o → at_lane o m cid s ≡ some t → IsOk t
    from none e h = absurd (cc)
    from (some l) e h = step-IsOk s ok cid l e m h
