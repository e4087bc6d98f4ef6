-- ===== src/Scheduler/Submit.antt =====
-- `Submit` of internal/scheduler/scheduler.go keeps the lanes and the pools in order.
use gopherharness.Base.{
  ℕ, ◌+◌, ◌<◌, ◌≡◌, refl, ap, subst, String, str_eq, Bool, true, false, not, ◌&&◌, ◌||◌, Option,
  none, some, List, [], ◌∷◌, ◌++◌, arith, if◌then◌else◌, length, length-append, if_rule, is_some,
  is_empty, leb,
}
use gopherharness.Base.Table.{
  lookup, insert, Entries-insert, Entries-lookup, sum_by, sum_by-insert, weight_at,
}
use gopherharness.Scheduler.{
  Request, Handle, Job, Stage, stopped, polling, waiting, ready, turn, closing, Lane, Scheduler,
  Admission, Identity, submit, admit, enqueue, start, lane_for, new_lane, same_source, has_approval,
  interrupts, cancel_active, open_handle, with_conversation, with_trace, known_policy,
}
use gopherharness.Scheduler.Bounds.{StageOk, LaneOk, IsOk, held}

-- A lane that may stand in another's place without a change of the pools.
abbrev Fits : ℕ → Lane → Lane → Type 0
Fits c l l' = LaneOk c l' × (held false l' ≡ held false l) × (held true l' ≡ held true l)

module _ (c : ℕ) (l : Lane) (ok : LaneOk c l) where
  at_stage : (st : Stage) → l.stage ≡ st → StageOk st l
  at_stage st e = subst (λ x. StageOk x l) e ok.stage_ok

  idle-Fits :
      (st : Stage)
      → l.stage ≡ st
      → l.running ≡ false
      → Fits c l (record l { running = true; stage = polling })
  idle-Fits stopped e p =
      let (run, none_active, no_inbox) = at_stage stopped e in
      (
        record { stage_ok = (refl, none_active, no_inbox); bounded = ok.bounded },
        ground arith,
        ground arith,
      )
  idle-Fits polling e p = absurd (ground (arith, at_stage polling e))
  idle-Fits (waiting j) e p = absurd (ground (arith, at_stage (waiting j) e))
  idle-Fits (ready j a) e p = absurd (ground (arith, at_stage (ready j a) e))
  idle-Fits (turn j a d) e p = absurd (ground (arith, at_stage (turn j a d) e))
  idle-Fits (closing j r d) e p = absurd (ground (arith, at_stage (closing j r d) e))

  start-Fits : (a : Bool) → Fits c l (start a l)
  unfolding start
  start-Fits a =
      if_rule (Fits c l) (not l.running && (not l.paused || a))
        (λ p. idle-Fits l.stage refl (ground arith)) (λ p. (ok, refl, refl))

module _ (c : ℕ) (l : Lane) (ok : LaneOk c l) (room : length l.queue + length l.inbox < c) where
  queued-Fits :
      (a : Bool) (q : List Job)
      → length q ≡ length l.queue + 1
      → Fits c l (start a (record l { queue = q }))
  queued-Fits a q e =
      start-Fits c (record l { queue = q })
        (record { stage_ok = same l.stage ok.stage_ok; bounded = omega (arith, room, e) }) a
    where
      same : (st : Stage) → StageOk st l → StageOk st (record l { queue = q })
      same stopped h = h
      same polling h = h
      same (waiting j) h = h
      same (ready j a) h = h
      same (turn j a d) h = h
      same (closing j r d) h = h

  injected-Fits :
      (j : Job) → is_some l.active ≡ true → Fits c l (record l { inbox = l.inbox ++ j ∷ [] })
  injected-Fits j busy = (
    record {
      stage_ok = working l.stage ok.stage_ok;
      bounded = omega (arith, room, length-append l.inbox (j ∷ []), one j);
    },
    refl,
    refl,
  )
    where
      one : (j : Job) → length (j ∷ []) ≡ 1
      one j = ground arith

      working : (st : Stage) → StageOk st l → StageOk st (record l { inbox = l.inbox ++ j ∷ [] })
      working stopped h = absurd (ground (arith, h))
      working polling h = absurd (ground (arith, h))
      working (waiting k) h = h
      working (ready k a) h = h
      working (turn k a d) h = h
      working (closing k r d) h = h

  enqueue-Fits : (j : Job) → Fits c l (enqueue j l)
  unfolding enqueue
  enqueue-Fits j =
      if_rule (Fits c l) (has_approval j.req) (λ p. queued-Fits true (j ∷ l.queue) (ground arith))
        (λ p.
          if_rule (Fits c l) (str_eq j.req.busy "inject" && is_some l.active)
            (λ q. injected-Fits j (ground arith))
            (λ q.
              if_rule (Fits c l) (str_eq j.req.busy "interrupt" && is_some l.active)
                (λ r. queued-Fits false (j ∷ l.queue) (ground arith))
                (λ r.
                  queued-Fits false (l.queue ++ j ∷ [])
                    (ground (arith, length-append l.queue (j ∷ []))))))

module _ (s : Scheduler) (ok : IsOk s) (cid : String) where
  -- A lane is put where one that holds as much stood, or none did.
  place-IsOk :
      (o : Option Lane) (l : Lane) (h : ℕ → Handle) (n : ℕ)
      → lookup cid s.lanes ≡ o
      → LaneOk s.capacity l
      → held false l ≡ weight_at (held false) o
      → held true l ≡ weight_at (held true) o
      → IsOk (record s { lanes = insert cid l s.lanes; handles = h; next = n })
  place-IsOk o l h n found good ef eb =
      let fs : sum_by (held false) (insert cid l s.lanes) + weight_at (held false) o
          ≡ sum_by (held false) s.lanes + held false l =
        rw found at (sum_by-insert (held false) cid l s.lanes) in
      let bs : sum_by (held true) (insert cid l s.lanes) + weight_at (held true) o
          ≡ sum_by (held true) s.lanes + held true l =
        rw found at (sum_by-insert (held true) cid l s.lanes) in
      record {
        lanes_ok =
            Entries-insert (λ k (x : Lane). LaneOk s.capacity x) cid l s.lanes good ok.lanes_ok;
        foreground_exact = omega (arith, ok.foreground_exact);
        foreground_fits = ok.foreground_fits;
        background_exact = omega (arith, ok.background_exact);
        background_fits = ok.background_fits;
      }

module _ (s : Scheduler) (ok : IsOk s) (req : Request) where
  admit-IsOk :
      (o : Option Lane) (l : Lane)
      → lookup req.conversation s.lanes ≡ o
      → LaneOk s.capacity l
      → held false l ≡ weight_at (held false) o
      → held true l ≡ weight_at (held true) o
      → IsOk (admit req l s).1
  unfolding admit
  admit-IsOk o l found good ef eb =
      if_rule (λ (p : Admission × Scheduler). IsOk p.1)
        (leb s.capacity (length l.queue + length l.inbox))
        (λ p. place-IsOk s ok req.conversation o l s.handles s.next found good ef eb)
        (λ p.
          let j : Job = record { handle = s.next; req = req } in
          let (fits, f, b) = enqueue-Fits s.capacity l good (ground arith) j in
          place-IsOk s ok req.conversation o (enqueue j l)
            (if interrupts j l
              then cancel_active l.active (open_handle s.next s.handles)
              else open_handle s.next s.handles)
            (s.next + 1) found fits (omega (arith, f, ef)) (omega (arith, b, eb)))

  lane_for-IsOk :
      (o : Option Lane) → lookup req.conversation s.lanes ≡ o → IsOk (lane_for o req s).1
  lane_for-IsOk none found =
      admit-IsOk none (new_lane req.source) found
        (record { stage_ok = (refl, refl, refl); bounded = ground arith }) refl refl
  lane_for-IsOk (some l) found =
      if_rule (λ (p : Admission × Scheduler). IsOk p.1) (not (same_source l.source req.source))
        (λ p. ok)
        (λ p.
          admit-IsOk (some l) l found
            (Entries-lookup (λ k (x : Lane). LaneOk s.capacity x) req.conversation s.lanes
              ok.lanes_ok found)
            refl refl)

-- Whatever is submitted, lanes and pools in order stay so: a queue never outgrows the capacity, and
-- one goroutine serves a conversation.
pub submit-IsOk :
    (ctx_done : Bool) (current : Identity) (req : Request) (s : Scheduler)
    → IsOk s
    → IsOk (submit ctx_done current req s).1
unfolding submit
submit-IsOk ctx_done current req0 s ok =
    let P : Admission × Scheduler → Type 0 = λ p. IsOk p.1 in
    let req = with_conversation req0 in
    if_rule P (str_eq req.conversation ":" || is_empty req.text) (λ a. ok)
      (λ a.
        if_rule P (not (known_policy req.busy)) (λ b. ok)
          (λ b.
            if_rule P s.closed (λ c. ok)
              (λ c.
                if_rule P ctx_done (λ d. ok)
                  (λ d.
                    lane_for-IsOk s ok (with_trace current req) (lookup req.conversation s.lanes)
                      (ap (λ k. lookup k s.lanes) (same_conversation req))))))
  where
    same_conversation : (req : Request) → (with_trace current req).conversation ≡ req.conversation
    same_conversation req =
        if_rule (λ (r : Request). r.conversation ≡ req.conversation) (is_empty req.trace.trace_id)
          (λ p. refl) (λ p. refl)
