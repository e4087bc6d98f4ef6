-- ===== src/Scheduler/Work.antt =====
-- The loop of `work`, `CancelConversation` and `Seal` of internal/scheduler/scheduler.go. Each step
-- is a function that gives nothing where the goroutine is elsewhere.
use gopherharness.Base.{
  ℕ, ◌+◌, ◌-◌, String, Bool, true, false, not, ◌&&◌, Option, none, some, List, [], ◌∷◌, ◌++◌, ltb,
  if◌then◌else◌, is_empty,
}
use gopherharness.Base.Table.{Table, lookup, insert, erase}
use gopherharness.Scheduler.{
  Failure, cancelled, failed, pausing, Result, Handle, Job, Stage, stopped, polling, waiting, ready,
  turn, closing, Lane, Scheduler, finish, cancel, cancel_active,
}

abbrev pub put : String → Lane → Scheduler → Scheduler
put cid l s = record s { lanes = insert cid l s.lanes }

-- The head of the loop: stop, and forget the lane unless it is paused, or take a job.
abbrev pub stop : String → Lane → Scheduler → Scheduler
stop cid l s =
    if l.paused
    then put cid (record l { running = false; stage = stopped }) s
    else record s { lanes = erase cid s.lanes }

abbrev pub take_head : String → List Job → Lane → Scheduler → Scheduler
take_head cid [] l s = stop cid l s
take_head cid (j ∷ q) l s =
    if l.paused && is_empty j.req.approval_id
    then stop cid l s
    else put cid (record l { queue = q; active = some j; stage = waiting j }) s

abbrev pub poll_lane : Stage → String → Lane → Scheduler → Option Scheduler
poll_lane polling cid l s = some (take_head cid l.queue l s)
poll_lane _ cid l s = none

-- `select` between a slot of the pool and the job's context.
abbrev pub in_use : Bool → Scheduler → ℕ
in_use b s = if b then s.background else s.foreground

abbrev pub slots : Bool → Scheduler → ℕ
slots b s = if b then s.system_slots else s.user_slots

abbrev pub with_use : Bool → ℕ → Scheduler → Scheduler
with_use true n s = record s { background = n }
with_use false n s = record s { foreground = n }

abbrev pub acquire_lane : Stage → String → Lane → Scheduler → Option Scheduler
acquire_lane (waiting j) cid l s =
    if ltb (in_use j.req.background s) (slots j.req.background s)
    then some (
        put cid (record l { stage = ready j true })
          (with_use j.req.background (in_use j.req.background s + 1) s))
    else none
acquire_lane _ cid l s = none

abbrev pub give_up_lane : Stage → String → Lane → Scheduler → Option Scheduler
give_up_lane (waiting j) cid l s =
    if (s.handles j.handle).done
    then some (put cid (record l { stage = ready j false }) s)
    else none
give_up_lane _ cid l s = none

-- `if err := j.ctx.Err()`: a job whose context is done is not run.
abbrev pub release : Bool → Bool → Scheduler → Scheduler
release acquired background s =
    if acquired then with_use background (in_use background s - 1) s else s

-- The result of a turn: the slot is given back and the job's handle is finished and cancelled.
abbrev pub end_turn : String → Job → Bool → List Job → Result → Lane → Scheduler → Scheduler
end_turn cid j acquired consumed r l s =
    let t = release acquired j.req.background s in
    record t {
      lanes = insert cid (record l { stage = closing j r consumed }) t.lanes;
      handles = cancel j.handle (finish j.handle r t.handles);
    }

abbrev pub cancelled_result : Result
cancelled_result = record { text = ""; err = some cancelled; merged = false }

abbrev pub begin_lane : Stage → String → Lane → Scheduler → Option Scheduler
begin_lane (ready j acquired) cid l s =
    if (s.handles j.handle).done
    then some (end_turn cid j acquired [] cancelled_result l s)
    else some (put cid (record l { stage = turn j acquired [] }) s)
begin_lane _ cid l s = none

-- The closure `drain`: the inbox is consumed, but for jobs whose context is done.
unfoldable pub live_jobs : (ℕ → Handle) → List Job → List Job
live_jobs h [] = []
live_jobs h (j ∷ js) = if (h j.handle).done then live_jobs h js else j ∷ live_jobs h js

unfoldable pub drop_dead : List Job → (ℕ → Handle) → ℕ → Handle
drop_dead [] h = h
drop_dead (j ∷ js) h =
    drop_dead js
      (if (h j.handle).done then cancel j.handle (finish j.handle cancelled_result h) else h)

abbrev pub drain_lane : Stage → String → Lane → Scheduler → Option Scheduler
drain_lane (turn j acquired consumed) cid l s = some (record s {
  lanes =
      insert cid
        (record l { inbox = []; stage = turn j acquired (consumed ++ live_jobs s.handles l.inbox) })
        s.lanes;
  handles = drop_dead l.inbox s.handles;
})
drain_lane _ cid l s = none

abbrev pub finish_lane : Stage → Result → String → Lane → Scheduler → Option Scheduler
finish_lane (turn j acquired consumed) r cid l s = some (end_turn cid j acquired consumed r l s)
finish_lane _ r cid l s = none

-- What is done under the mutex behind a turn.
abbrev pub merged_result : Bool → Result → Result
merged_result gone r = record r { merged = true; err = if gone then some cancelled else r.err }

unfoldable pub finish_consumed : Result → List Job → (ℕ → Handle) → ℕ → Handle
finish_consumed r [] h = h
finish_consumed r (j ∷ js) h =
    finish_consumed r js (cancel j.handle (finish j.handle (merged_result (h j.handle).done r) h))

abbrev pub paused_after : Option Failure → Bool → Bool → Bool
paused_after (some pausing) approval paused = true
paused_after (some cancelled) approval paused = paused
paused_after (some (failed _)) approval paused = paused
paused_after none approval paused = if approval then false else paused

abbrev pub settle_lane : Stage → String → Lane → Scheduler → Option Scheduler
settle_lane (closing j r consumed) cid l s = some (record s {
  lanes =
      insert cid
        (record l {
          queue = l.queue ++ l.inbox;
          inbox = [];
          active = none;
          paused = paused_after r.err (not (is_empty j.req.approval_id)) l.paused;
          stage = polling;
        })
        s.lanes;
  handles = finish_consumed r consumed s.handles;
})
settle_lane _ cid l s = none

-- The steps of the goroutine of one conversation.
pub data Move : Type 0 where
  poll acquire give_up begin drain settle : Move
  end_run : Result → Move

abbrev pub move_lane : Move → String → Lane → Scheduler → Option Scheduler
move_lane poll cid l s = poll_lane l.stage cid l s
move_lane acquire cid l s = acquire_lane l.stage cid l s
move_lane give_up cid l s = give_up_lane l.stage cid l s
move_lane begin cid l s = begin_lane l.stage cid l s
move_lane drain cid l s = drain_lane l.stage cid l s
move_lane (end_run r) cid l s = finish_lane l.stage r cid l s
move_lane settle cid l s = settle_lane l.stage cid l s

abbrev pub at_lane : Option Lane → Move → String → Scheduler → Option Scheduler
at_lane none m cid s = none
at_lane (some l) m cid s = move_lane m cid l s

unfoldable pub move : Move → String → Scheduler → Option Scheduler
move m cid s = at_lane (lookup cid s.lanes) m cid s

-- `CancelConversation` and `Seal`: the active job is cancelled, the waiting ones are finished too.
unfoldable pub cancel_jobs : List Job → (ℕ → Handle) → ℕ → Handle
cancel_jobs [] h = h
cancel_jobs (j ∷ js) h = cancel_jobs js (finish j.handle cancelled_result (cancel j.handle h))

unfoldable pub clear_handles : Lane → (ℕ → Handle) → ℕ → Handle
clear_handles l h = cancel_jobs (l.queue ++ l.inbox) (cancel_active l.active h)

abbrev pub cleared : Lane → Lane
cleared l = record l { queue = []; inbox = [] }

abbrev pub cancel_found : Option Lane → String → Scheduler → Scheduler
cancel_found none cid s = s
cancel_found (some l) cid s = record s {
  lanes = insert cid (cleared l) s.lanes;
  handles = clear_handles l s.handles;
}

unfoldable pub cancel_conversation : String → Scheduler → Scheduler
cancel_conversation cid s = cancel_found (lookup cid s.lanes) cid s

unfoldable pub clear_lanes : Table Lane → Table Lane
clear_lanes [] = []
clear_lanes ((k, l) ∷ m) = (k, cleared l) ∷ clear_lanes m

unfoldable pub clear_all : Table Lane → (ℕ → Handle) → ℕ → Handle
clear_all [] h = h
clear_all ((k, l) ∷ m) h = clear_all m (clear_handles l h)

unfoldable pub seal : Scheduler → Scheduler
seal s = record s {
  closed = true;
  lanes = clear_lanes s.lanes;
  handles = clear_all s.lanes s.handles;
}
