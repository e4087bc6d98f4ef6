-- ===== src/Scheduler/Sealing.antt =====
-- `CancelConversation` and `Seal` of internal/scheduler/scheduler.go.
use gopherharness.Base.{
  ℕ, ◌+◌, ◌≡◌, refl, ap, Bool, true, false, Option, none, some, List, [], ◌∷◌, ◌++◌, arith, String,
  is_some, All, All-map,
}
use gopherharness.Base.Table.{Table, lookup, Entries, Entries-lookup, sum_by}
use gopherharness.Scheduler.{
  Result, Handle, Job, Stage, stopped, polling, waiting, ready, turn, closing, Lane, Scheduler,
  cancel, finish, cancel_active, finish_once,
}
use gopherharness.Scheduler.Work.{
  cancelled_result, cancel_jobs, clear_handles, clear_all, seal, cancel_conversation, cancel_found,
  cleared, clear_lanes,
}
use gopherharness.Scheduler.Bounds.{StageOk, LaneOk, IsOk, held, replace-IsOk}

-- A handle that a client need not wait for: its context is done, and its result is there.
abbrev pub Over : ℕ → (ℕ → Handle) → Type 0
Over i h = ((h i).done ≡ true) × (is_some (h i).result ≡ true)

module _ (i : ℕ) where
  -- Neither step takes back what is over.
  some-finish_once : (o : Option Result) (x : Result) → is_some (finish_once o x) ≡ true
  some-finish_once none x = refl
  some-finish_once (some y) x = refl

  finish-Over : (j : ℕ) (x : Result) (h : ℕ → Handle) → Over i h → Over i (finish j x h)
  unfolding finish
  finish-Over j x h o = ground (arith, o, some-finish_once (h i).result x)

  cancel-Over : (j : ℕ) (h : ℕ → Handle) → Over i h → Over i (cancel j h)
  unfolding cancel
  cancel-Over j h o = ground (arith, o)

  ended-Over : (h : ℕ → Handle) → Over i (finish i cancelled_result (cancel i h))
  unfolding finish cancel
  ended-Over h = ground (arith, some-finish_once (h i).result cancelled_result)

  cancel_jobs-Over : (js : List Job) (h : ℕ → Handle) → Over i h → Over i (cancel_jobs js h)
  unfolding cancel_jobs
  cancel_jobs-Over [] h o = o
  cancel_jobs-Over (j ∷ js) h o =
      cancel_jobs-Over js _
        (finish-Over j.handle cancelled_result (cancel j.handle h) (cancel-Over j.handle h o))

  cancel_active-Over : (a : Option Job) (h : ℕ → Handle) → Over i h → Over i (cancel_active a h)
  cancel_active-Over none h o = o
  cancel_active-Over (some j) h o = cancel-Over j.handle h o

  clear_handles-Over : (l : Lane) (h : ℕ → Handle) → Over i h → Over i (clear_handles l h)
  unfolding clear_handles
  clear_handles-Over l h o =
      cancel_jobs-Over (l.queue ++ l.inbox) _ (cancel_active-Over l.active h o)

  clear_all-Over : (m : Table Lane) (h : ℕ → Handle) → Over i h → Over i (clear_all m h)
  unfolding clear_all
  clear_all-Over [] h o = o
  clear_all-Over ((k, l) ∷ m) h o = clear_all-Over m _ (clear_handles-Over l h o)

-- Every job of a list is over.
abbrev pub AllOver : List Job → (ℕ → Handle) → Type 0
AllOver js h = All (λ (j : Job). Over j.handle h) js

cancel_jobs-AllOver : (js : List Job) (h : ℕ → Handle) → AllOver js (cancel_jobs js h)
unfolding cancel_jobs
cancel_jobs-AllOver [] h = tt
cancel_jobs-AllOver (j ∷ js) h =
    (cancel_jobs-Over j.handle js _ (ended-Over j.handle h), cancel_jobs-AllOver js _)

abbrev pub LaneOver : (ℕ → Handle) → Lane → Type 0
LaneOver h l = AllOver (l.queue ++ l.inbox) h

clear_handles-LaneOver : (l : Lane) (h : ℕ → Handle) → LaneOver (clear_handles l h) l
unfolding clear_handles
clear_handles-LaneOver l h = cancel_jobs-AllOver (l.queue ++ l.inbox) _

clear_all-LaneOver :
    (m : Table Lane) (h : ℕ → Handle) → Entries (λ k l. LaneOver (clear_all m h) l) m
unfolding clear_all
clear_all-LaneOver [] h = tt
clear_all-LaneOver ((k, l) ∷ m) h = (
  All-map (λ (j : Job). Over j.handle (clear_handles l h))
      (λ (j : Job). Over j.handle (clear_all m (clear_handles l h))) (l.queue ++ l.inbox)
      (λ j o. clear_all-Over j.handle m (clear_handles l h) o) (clear_handles-LaneOver l h),
  clear_all-LaneOver m (clear_handles l h),
)

-- When the scheduler is sealed, each job that waits in the queue or in the inbox of a lane is over:
-- its context is done and its handle has a result.
pub seal-LaneOver :
    (s : Scheduler) (cid : String) {l : Lane}
    → lookup cid s.lanes ≡ some l
    → LaneOver (seal s).handles l
unfolding seal
seal-LaneOver s cid found =
    Entries-lookup (λ k (l : Lane). LaneOver (clear_all s.lanes s.handles) l) cid s.lanes
      (clear_all-LaneOver s.lanes s.handles) found

module _ (b : Bool) where
  held-clear_lanes : (m : Table Lane) → sum_by (held b) (clear_lanes m) ≡ sum_by (held b) m
  unfolding clear_lanes sum_by
  held-clear_lanes [] = refl
  held-clear_lanes ((k, l) ∷ m) = ap (λ n. held b l + n) (held-clear_lanes m)

cleared-LaneOk : (c : ℕ) (l : Lane) → LaneOk c l → LaneOk c (cleared l)
cleared-LaneOk c l ok = record { stage_ok = same l.stage ok.stage_ok; bounded = ground arith }
  where
    same : (st : Stage) → StageOk st l → StageOk st (cleared l)
    same stopped h = (h.0, h.1, refl)
    same polling h = (h.0, h.1, refl)
    same (waiting j) h = h
    same (ready j a) h = h
    same (turn j a d) h = h
    same (closing j r d) h = h

clear_lanes-LaneOk :
    (c : ℕ) (m : Table Lane)
    → Entries (λ k l. LaneOk c l) m
    → Entries (λ k l. LaneOk c l) (clear_lanes m)
unfolding clear_lanes
clear_lanes-LaneOk c [] h = h
clear_lanes-LaneOk c ((k, l) ∷ m) h = (cleared-LaneOk c l h.0, clear_lanes-LaneOk c m h.1)

-- Sealing keeps lanes and pools in order: slots stay held until their runners return.
pub seal-IsOk : (s : Scheduler) → IsOk s → IsOk (seal s)
unfolding seal
seal-IsOk s ok = record {
  lanes_ok = clear_lanes-LaneOk s.capacity s.lanes ok.lanes_ok;
  foreground_exact = omega (arith, ok.foreground_exact, held-clear_lanes false s.lanes);
  foreground_fits = ok.foreground_fits;
  background_exact = omega (arith, ok.background_exact, held-clear_lanes true s.lanes);
  background_fits = ok.background_fits;
}

pub cancel_conversation-IsOk :
    (cid : String) (s : Scheduler) → IsOk s → IsOk (cancel_conversation cid s)
unfolding cancel_conversation
cancel_conversation-IsOk cid s ok = from (lookup cid s.lanes) refl
  where
    from : (o : Option Lane) → lookup cid s.lanes ≡ o → IsOk (cancel_found o cid s)
    from none e = ok
    from (some l) e =
        replace-IsOk s ok cid l (cleared l) (clear_handles l s.handles) s.foreground s.background e
          (cleared-LaneOk s.capacity l
            (Entries-lookup (λ k (x : Lane). LaneOk s.capacity x) cid s.lanes ok.lanes_ok e))
          (omega arith) ok.foreground_fits (omega arith) ok.background_fits
