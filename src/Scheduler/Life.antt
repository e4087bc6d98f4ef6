-- ===== src/Scheduler/Life.antt =====
-- A scheduler from `New` on (internal/scheduler/scheduler.go): calls of its clients and steps of its
-- goroutines in any order.
use gopherharness.Base.{ℕ, ◌≡◌, refl, Bool, false, Option, none, some, List, [], ◌∷◌, arith, String}
use gopherharness.Base.Table.{sum_by}
use gopherharness.Scheduler.{Identity, Request, Result, Scheduler, cancel, submit}
use gopherharness.Scheduler.Work.{Move, move, cancel_conversation, seal}
use gopherharness.Scheduler.Bounds.{IsOk}
use gopherharness.Scheduler.Steps.{move-IsOk}
use gopherharness.Scheduler.Submit.{submit-IsOk}
use gopherharness.Scheduler.Sealing.{seal-IsOk, cancel_conversation-IsOk}
use gopherharness.Scheduler.Outcome.Moves.{move-Shows}
use gopherharness.Scheduler.Outcome.{
  Shows, cancel-Has, submit-Shows, seal-Shows, cancel_conversation-Shows,
}

unfoldable pub new_scheduler : ℕ → ℕ → ℕ → Scheduler
new_scheduler user_slots system_slots capacity = record {
  lanes = [];
  handles = λ i. record { done = false; result = none };
  next = 0;
  closed = false;
  foreground = 0;
  background = 0;
  user_slots = user_slots;
  system_slots = system_slots;
  capacity = capacity;
}

pub data Event : Type 0 where
  submitted : Bool → Identity → Request → Event
  stepped : Move → String → Event
  cancelled_all : String → Event
  ended : ℕ → Event
  sealed : Event

-- `ended` is `Handle.Cancel`, or the end of the context that a request was submitted with. A step that the goroutine cannot take now changes nothing.
abbrev or_same : Option Scheduler → Scheduler → Scheduler
or_same none s = s
or_same (some t) s = t

unfoldable pub event : Event → Scheduler → Scheduler
event (submitted ctx_done current req) s = (submit ctx_done current req s).1
event (stepped m cid) s = or_same (move m cid s) s
event (cancelled_all cid) s = cancel_conversation cid s
event (ended i) s = record s { handles = cancel i s.handles }
event sealed s = seal s

unfoldable pub after : List Event → Scheduler → Scheduler
after [] s = s
after (e ∷ es) s = after es (event e s)

event-IsOk : (e : Event) (s : Scheduler) → IsOk s → IsOk (event e s)
unfolding event
event-IsOk (submitted ctx_done current req) s ok = submit-IsOk ctx_done current req s ok
event-IsOk (stepped m cid) s ok = from (move m cid s) refl
  where
    from : (o : Option Scheduler) → move m cid s ≡ o → IsOk (or_same o s)
    from none h = ok
    from (some t) h = move-IsOk m cid s ok h
event-IsOk (cancelled_all cid) s ok = cancel_conversation-IsOk cid s ok
event-IsOk (ended i) s ok = record {
  lanes_ok = ok.lanes_ok;
  foreground_exact = ok.foreground_exact;
  foreground_fits = ok.foreground_fits;
  background_exact = ok.background_exact;
  background_fits = ok.background_fits;
}
event-IsOk sealed s ok = seal-IsOk s ok

kept-IsOk : (es : List Event) (s : Scheduler) → IsOk s → IsOk (after es s)
unfolding after
kept-IsOk [] s ok = ok
kept-IsOk (e ∷ es) s ok = kept-IsOk es (event e s) (event-IsOk e s ok)

new-IsOk : (u v c : ℕ) → IsOk (new_scheduler u v c)
unfolding new_scheduler sum_by
new-IsOk u v c = record {
  lanes_ok = tt;
  foreground_exact = refl;
  foreground_fits = omega arith;
  background_exact = refl;
  background_fits = omega arith;
}

-- From a new scheduler on, whatever its clients call and its goroutines do in any order: each pool
-- counts exactly the turns that hold one of its slots and stays within its size; each lane has a
-- goroutine exactly while it is marked as running, an active job exactly while that goroutine works
-- on one, messages to inject only then, and no more waiting jobs than the capacity.
pub after-IsOk :
    (es : List Event) (user_slots system_slots capacity : ℕ)
    → IsOk (after es (new_scheduler user_slots system_slots capacity))
after-IsOk es user_slots system_slots capacity =
    kept-IsOk es (new_scheduler user_slots system_slots capacity)
      (new-IsOk user_slots system_slots capacity)

module _ (i : ℕ) (r : Result) where
  event-Shows : (e : Event) (s : Scheduler) → Shows i r s → Shows i r (event e s)
  unfolding event
  event-Shows (submitted ctx_done current req) s h = submit-Shows i r ctx_done current req s h
  event-Shows (stepped m cid) s h = from (move m cid s) refl
    where
      from : (o : Option Scheduler) → move m cid s ≡ o → Shows i r (or_same o s)
      from none e = h
      from (some t) e = move-Shows i r m cid s h e
  event-Shows (cancelled_all cid) s h = cancel_conversation-Shows i r cid s h
  event-Shows (ended j) s h = (h.0, cancel-Has i r j s.handles h.1)
  event-Shows sealed s h = seal-Shows i r s h

  -- Whatever happens next, in any order, a handle that is open in the scheduler (its number is below
  -- the next one) and shows a result shows this same result afterwards.
  pub after-Shows : (es : List Event) (s : Scheduler) → Shows i r s → Shows i r (after es s)
  unfolding after
  after-Shows [] s h = h
  after-Shows (e ∷ es) s h = after-Shows es (event e s) (event-Shows e s h)
