-- ===== src/Scheduler/Outcome.antt =====
-- The result of a handle of internal/scheduler/scheduler.go is written once.
pub mod Moves
use gopherharness.Base.{
  ℕ, ◌+◌, ◌<◌, ◌≡◌, refl, subst, Bool, true, false, Option, none, some, List, [], ◌∷◌, arith,
  if_cases, if_rule, some_inj, if◌then◌else◌, String, ltb, is_empty, ◌&&◌, ◌==◌, ◌++◌, ◌||◌, not,
  str_eq, leb, length, Bool-cases, ◌⊎◌, inl, inr,
}
use gopherharness.Base.Table.{Table, lookup}
use gopherharness.Scheduler.{
  Result, Handle, Job, Stage, stopped, polling, waiting, ready, turn, closing, Lane, Scheduler,
  cancel, finish, cancel_active, Admission, Identity, Request, submit, admit, lane_for, new_lane,
  same_source, interrupts, open_handle, with_conversation, with_trace, known_policy,
}
use gopherharness.Scheduler.Work.{
  Move, poll, acquire, give_up, begin, drain, settle, end_run, move, move_lane, at_lane, poll_lane,
  acquire_lane, give_up_lane, begin_lane, drain_lane, finish_lane, settle_lane, stop, take_head,
  end_turn, release, in_use, slots, with_use, drop_dead, finish_consumed, cancelled_result,
  merged_result, cancel_jobs, clear_handles, clear_all, seal, cancel_conversation, cancel_found,
}

module _ (i : ℕ) (r : Result) where
  abbrev pub Has : (ℕ → Handle) → Type 0
  Has h = (h i).result ≡ some r

  abbrev pub Shows : Scheduler → Type 0
  Shows s = (i < s.next) × Has s.handles

  pub finish-Has : (id : ℕ) (x : Result) (h : ℕ → Handle) → Has h → Has (finish id x h)
  unfolding finish
  finish-Has id x h e = elim (Bool-cases (i == id)) [ inl q ↦ rw (q, e) | inr q ↦ rw (q, e) ]

  pub cancel-Has : (id : ℕ) (h : ℕ → Handle) → Has h → Has (cancel id h)
  unfolding cancel
  cancel-Has id h e = elim (Bool-cases (i == id)) [ inl q ↦ rw (q, e) | inr q ↦ rw (q, e) ]

  pub drop_dead-Has : (js : List Job) (h : ℕ → Handle) → Has h → Has (drop_dead js h)
  unfolding drop_dead
  drop_dead-Has [] h e = e
  drop_dead-Has (j ∷ js) h e = drop_dead-Has js _ (
      if_rule Has (h j.handle).done
        (λ p.
          cancel-Has j.handle (finish j.handle cancelled_result h)
            (finish-Has j.handle cancelled_result h e))
        (λ p. e))

  pub finish_consumed-Has :
      (x : Result) (js : List Job) (h : ℕ → Handle) → Has h → Has (finish_consumed x js h)
  unfolding finish_consumed
  finish_consumed-Has x [] h e = e
  finish_consumed-Has x (j ∷ js) h e =
      finish_consumed-Has x js _
        (cancel-Has j.handle _ (finish-Has j.handle (merged_result (h j.handle).done x) h e))

  pub cancel_jobs-Has : (js : List Job) (h : ℕ → Handle) → Has h → Has (cancel_jobs js h)
  unfolding cancel_jobs
  cancel_jobs-Has [] h e = e
  cancel_jobs-Has (j ∷ js) h e =
      cancel_jobs-Has js _
        (finish-Has j.handle cancelled_result (cancel j.handle h) (cancel-Has j.handle h e))

  pub cancel_active-Has : (a : Option Job) (h : ℕ → Handle) → Has h → Has (cancel_active a h)
  cancel_active-Has none h e = e
  cancel_active-Has (some j) h e = cancel-Has j.handle h e

  pub clear_handles-Has : (l : Lane) (h : ℕ → Handle) → Has h → Has (clear_handles l h)
  unfolding clear_handles
  clear_handles-Has l h e = cancel_jobs-Has (l.queue ++ l.inbox) _ (cancel_active-Has l.active h e)

  pub clear_all-Has : (m : Table Lane) (h : ℕ → Handle) → Has h → Has (clear_all m h)
  unfolding clear_all
  clear_all-Has [] h e = e
  clear_all-Has ((k, l) ∷ m) h e = clear_all-Has m _ (clear_handles-Has l h e)

  pub cancel_conversation-Shows :
      (cid : String) (s : Scheduler) → Shows s → Shows (cancel_conversation cid s)
  unfolding cancel_conversation
  cancel_conversation-Shows cid s e = from (lookup cid s.lanes)
    where
      from : (o : Option Lane) → Shows (cancel_found o cid s)
      from none = e
      from (some l) = (e.0, clear_handles-Has l s.handles e.1)

  pub seal-Shows : (s : Scheduler) → Shows s → Shows (seal s)
  unfolding seal
  seal-Shows s e = (e.0, clear_all-Has s.lanes s.handles e.1)

  admit-Shows : (req : Request) (l : Lane) (s : Scheduler) → Shows s → Shows (admit req l s).1
  unfolding admit
  admit-Shows req l s e =
      if_rule (λ (p : Admission × Scheduler). Shows p.1)
        (leb s.capacity (length l.queue + length l.inbox)) (λ p. e)
        (λ p.
          let h = open_handle s.next s.handles in
          let fresh : (i == s.next) ≡ false = ground (arith, e.0) in
          let old : Has h = rw (fresh, e.1) in
          (
            omega (arith, e.0),
            if_rule Has (interrupts (record { handle = s.next; req = req }) l)
                (λ q. cancel_active-Has l.active h old) (λ q. old),
          ))

  pub submit-Shows :
      (ctx_done : Bool) (current : Identity) (req : Request) (s : Scheduler)
      → Shows s
      → Shows (submit ctx_done current req s).1
  unfolding submit
  submit-Shows ctx_done current req0 s e =
      let P : Admission × Scheduler → Type 0 = λ p. Shows p.1 in
      let req = with_conversation req0 in
      if_rule P (str_eq req.conversation ":" || is_empty req.text) (λ a. e)
        (λ a.
          if_rule P (not (known_policy req.busy)) (λ b. e)
            (λ b.
              if_rule P s.closed (λ c. e)
                (λ c.
                  if_rule P ctx_done (λ d. e)
                    (λ d. from (lookup req.conversation s.lanes) (with_trace current req)))))
    where
      from : (o : Option Lane) (req : Request) → Shows (lane_for o req s).1
      from none req = admit-Shows req (new_lane req.source) s e
      from (some l) req =
          if_rule (λ (p : Admission × Scheduler). Shows p.1) (not (same_source l.source req.source))
            (λ p. e) (λ p. admit-Shows req l s e)
