-- ===== src/Gateway/Steps.antt =====
-- internal/gateway/gateway.go: the goroutine behind an accepted event, and histories of a gateway. A
-- history is a list of steps in the order in which they take the gateway's mutex or end.
use gopherharness.Base.{
  ℕ, String, str_eq, Bool, true, false, not, Option, none, some, is_none, List, [], ◌∷◌,
  if◌then◌else◌,
}
use gopherharness.Durable.{Disk}
use gopherharness.Journal.{State, Payload, complete, mutate, Owner}
use gopherharness.Delivery.{Message}
use gopherharness.Scheduler.{Source}
use gopherharness.Gateway.{
  Event, Waiter, Gateway, Script, Result, done, Moved, move_entry, release_slot, publish, resume,
}

-- What `handle.Wait` and `handle.Merged` say: an error, a request that was merged into another, or
-- the text of the answer.
pub data TurnEnd : Type 0 where
  ended_badly : String → TurnEnd
  merged : TurnEnd
  answered : String → TurnEnd

-- The goroutine's end: whether an error goes to `onError` before delivery, and what is given to the
-- hub.
pub record Finished : Type 0 where
  pub reported : Bool
  pub posted : Option Message
  pub file : Option State

unfoldable pub find_waiter : String → List Waiter → Option Waiter
find_waiter k [] = none
find_waiter k (v ∷ vs) = if str_eq v.key k then some v else find_waiter k vs

unfoldable pub drop_waiter : String → List Waiter → List Waiter
drop_waiter k [] = []
drop_waiter k (v ∷ vs) = if str_eq v.key k then vs else v ∷ drop_waiter k vs

module _ (error_payload : String → Payload) (encode_message : Message → Payload) where
  abbrev pub outbound : Waiter → String → Message
  outbound v text = record { id = v.key; source = v.source; text = text; identity = v.identity }

  abbrev pub complete_entry : Option Owner → String → Message → ℕ → Disk → Option State → Moved
  complete_entry none k m now d file = record { ok = true; file = file }
  complete_entry (some o) k m now d file =
      let r = mutate o (complete o.epoch k (encode_message m) now) d file in
      record { ok = is_none r.failure; file = r.file }

  unfoldable pub conclude : Option Owner → Waiter → TurnEnd → ℕ → Disk → Option State → Finished
  conclude o v (ended_badly e) now d file = record {
    reported = true;
    posted = none;
    file =
        (move_entry o v.key "running" "needs_reconcile" (some (error_payload e)) now d file).file;
  }
  conclude o v merged now d file = record {
    reported = false;
    posted = none;
    file = (move_entry o v.key "running" "merged" none now d file).file;
  }
  conclude o v (answered text) now d file =
      let c = complete_entry o v.key (outbound v text) now d file in
      record {
        reported = not c.ok;
        posted = if c.ok then some (outbound v text) else none;
        file = c.file;
      }

  -- The waiter under a key ends and gives its slot back.
  abbrev pub finish_found : Option Waiter → String → TurnEnd → ℕ → Disk → Gateway → Gateway
  finish_found none k t now d g = g
  finish_found (some v) k t now d g = release_slot (record g {
    file = (conclude g.journal v t now d g.file).file;
    waiters = drop_waiter k g.waiters;
  })

  unfoldable pub finish : String → TurnEnd → ℕ → Disk → Gateway → Gateway
  finish k t now d g = finish_found (find_waiter k g.waiters) k t now d g

-- `Replay` publishes with waiting; `Close` marks the gateway first.
pub data Step : Type 0 where
  publishes : Bool → Event → Script → Step
  resumes : Event → Script → Step
  finishes : String → TurnEnd → ℕ → Disk → Step
  closes : Step

abbrev pub close : Gateway → Gateway
close g = record g { closed = true }

-- A gateway of `New`, with its journal.
abbrev pub new_gateway : Option Owner → Option State → Gateway
new_gateway o file = record {
  journal = o;
  seen = [];
  closed = false;
  slots = 0;
  waiters = [];
  file = file;
}

abbrev pub quiet : Gateway → Result
quiet g = record { status = done; submitted = none; gateway = g }

abbrev pub and_key : Option String → List String → List String
and_key none ks = ks
and_key (some k) ks = k ∷ ks

module _ (allowed : Option (Source → Bool)) (encode : Event → Payload)
    (decode : Payload → Option Event) (error_payload : String → Payload)
    (encode_message : Message → Payload) where
  unfoldable pub step : Step → Gateway → Result
  step (publishes wait e w) g = publish allowed encode decode wait e w g
  step (resumes e w) g = resume allowed encode decode e w g
  step (finishes k t now d) g = quiet (finish error_payload encode_message k t now d g)
  step closes g = quiet (close g)

  unfoldable pub after : List Step → Gateway → Gateway
  after [] g = g
  after (s ∷ ss) g = after ss (step s g).gateway

  -- The keys of the events that the scheduler accepted, in order.
  unfoldable pub submissions : List Step → Gateway → List String
  submissions [] g = []
  submissions (s ∷ ss) g =
      let rest = submissions ss (step s g).gateway in and_key (step s g).submitted rest
