-- ===== src/Scheduler.antt =====
-- internal/scheduler/scheduler.go: the queues of conversations. A goroutine of `work` is the stage of
-- its lane, and each region that the mutex protects is one step. A handle is a number; whether its
-- context is done and what it was finished with stand in `handles`.
pub mod Work
pub mod Bounds
pub mod Steps
pub mod Submit
pub mod Outcome
pub mod Sealing
pub mod Life
mod Tests
use Prim.Native.String.{◌++◌ as append}
use gopherharness.Base.{
  ℕ, ◌+◌, String, str_eq, Bool, true, false, not, ◌&&◌, ◌||◌, Option, none, some, List, [], ◌∷◌,
  ◌++◌, leb, ◌==◌, if◌then◌else◌, is_some, is_empty, length,
}
use gopherharness.Base.Table.{Table, lookup, insert}

pub record Source : Type 0 where
  pub channel : String
  pub chat_id : String
  pub sender_id : String

pub record Identity : Type 0 where
  pub trace_id : String
  pub span_id : String

pub record Request : Type 0 where
  pub conversation : String
  pub text : String
  pub source : Source
  pub background : Bool
  pub busy : String
  pub approval_id : String
  pub approval_allowed : Bool
  pub worker_results : Bool
  pub worker_summary_run_id : String
  pub trace : Identity

-- `error` values that a turn ends with; `pausing` is one whose `PauseConversation` says true.
pub data Failure : Type 0 where
  cancelled : Failure
  failed : String → Failure
  pausing : Failure

pub record Result : Type 0 where
  pub text : String
  pub err : Option Failure
  pub merged : Bool

pub record Handle : Type 0 where
  pub done : Bool
  pub result : Option Result

pub record Job : Type 0 where
  pub handle : ℕ
  pub req : Request

-- Where the goroutine of a lane stands: none, at the head of its loop, waiting for a slot, before the
-- runner with or without a slot, in the runner with what it has consumed, or behind it.
pub data Stage : Type 0 where
  stopped polling : Stage
  waiting : Job → Stage
  ready : Job → Bool → Stage
  turn : Job → Bool → List Job → Stage
  closing : Job → Result → List Job → Stage

pub record Lane : Type 0 where
  pub queue : List Job
  pub inbox : List Job
  pub active : Option Job
  pub running : Bool
  pub paused : Bool
  pub source : Source
  pub stage : Stage

pub record Scheduler : Type 0 where
  pub lanes : Table Lane
  pub handles : ℕ → Handle
  pub next : ℕ
  pub closed : Bool
  pub foreground : ℕ
  pub background : ℕ
  pub user_slots : ℕ
  pub system_slots : ℕ
  pub capacity : ℕ

pub data Error : Type 0 where
  text_required unknown_policy scheduler_closed context_done source_mismatch queue_full : Error

pub data Admission : Type 0 where
  rejected : Error → Admission
  accepted : ℕ → Admission

-- `Handle.finish` runs once; `Handle.Cancel` ends the job's context.
abbrev pub finish_once : Option Result → Result → Option Result
finish_once none r = some r
finish_once (some old) r = some old

unfoldable pub finish : ℕ → Result → (ℕ → Handle) → ℕ → Handle
finish id r h j =
    if j == id then (record { done = (h j).done; result = finish_once (h j).result r }) else h j

unfoldable pub cancel : ℕ → (ℕ → Handle) → ℕ → Handle
cancel id h j = if j == id then (record { done = true; result = (h j).result }) else h j

abbrev pub same_source : Source → Source → Bool
same_source a b =
    str_eq a.channel b.channel && str_eq a.chat_id b.chat_id && str_eq a.sender_id b.sender_id

abbrev pub new_lane : Source → Lane
new_lane src = record {
  queue = [];
  inbox = [];
  active = none;
  running = false;
  paused = false;
  source = src;
  stage = stopped;
}

abbrev pub has_approval : Request → Bool
has_approval r = not (is_empty r.approval_id)

-- The last lines of `Submit`: start a goroutine for the lane, if none runs and it may.
unfoldable pub start : Bool → Lane → Lane
start approval l =
    if not l.running && (not l.paused || approval)
    then record l { running = true; stage = polling }
    else l

-- Where a job is put, and what happens to the handles.
abbrev pub cancel_active : Option Job → (ℕ → Handle) → ℕ → Handle
cancel_active none h = h
cancel_active (some j) h = cancel j.handle h

unfoldable pub enqueue : Job → Lane → Lane
unfolding start
enqueue j l =
    if has_approval j.req
    then start true (record l { queue = j ∷ l.queue })
    else (if str_eq j.req.busy "inject" && is_some l.active
        then record l { inbox = l.inbox ++ j ∷ [] }
        else (if str_eq j.req.busy "interrupt" && is_some l.active
            then start false (record l { queue = j ∷ l.queue })
            else start false (record l { queue = l.queue ++ j ∷ [] })))

unfoldable pub interrupts : Job → Lane → Bool
interrupts j l =
    not (has_approval j.req)
    && not (str_eq j.req.busy "inject" && is_some l.active)
    && str_eq j.req.busy "interrupt"

abbrev pub open_handle : ℕ → (ℕ → Handle) → ℕ → Handle
open_handle id h j = if j == id then (record { done = false; result = none }) else h j

unfoldable pub admit : Request → Lane → Scheduler → Admission × Scheduler
admit req l s =
    if leb s.capacity (length l.queue + length l.inbox)
    then (rejected queue_full, record s { lanes = insert req.conversation l s.lanes })
    else (let j : Job = record { handle = s.next; req = req } in
        let h = open_handle s.next s.handles in
        (
          accepted s.next,
          record s {
            lanes = insert req.conversation (enqueue j l) s.lanes;
            handles = if interrupts j l then cancel_active l.active h else h;
            next = s.next + 1;
          },
        ))

abbrev pub lane_for : Option Lane → Request → Scheduler → Admission × Scheduler
lane_for none req s = admit req (new_lane req.source) s
lane_for (some l) req s =
    if not (same_source l.source req.source) then (rejected source_mismatch, s) else admit req l s

abbrev pub with_conversation : Request → Request
with_conversation req =
    if is_empty req.conversation
    then record req { conversation = append req.source.channel (append ":" req.source.chat_id) }
    else req

abbrev pub with_trace : Identity → Request → Request
with_trace current req = if is_empty req.trace.trace_id then record req { trace = current } else req

abbrev pub known_policy : String → Bool
known_policy p = is_empty p || str_eq p "append" || str_eq p "inject" || str_eq p "interrupt"

-- `Submit`, with whether the caller's context is done and the trace that it carries.
unfoldable pub submit : Bool → Identity → Request → Scheduler → Admission × Scheduler
submit ctx_done current req0 s =
    let req = with_conversation req0 in
    if str_eq req.conversation ":" || is_empty req.text
    then (rejected text_required, s)
    else (if not (known_policy req.busy)
        then (rejected unknown_policy, s)
        else (if s.closed
            then (rejected scheduler_closed, s)
            else (if ctx_done
                then (rejected context_done, s)
                else lane_for (lookup req.conversation s.lanes) (with_trace current req) s)))
