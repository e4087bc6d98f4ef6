-- ===== src/Delivery/Hub.antt =====
-- The queues of internal/delivery/hub.go: `Register`, `Post`, `work`, `finish` and `Close`. A channel
-- is a list, and each step is one region of the mutex or one operation on a channel.
pub mod Pending
pub mod Idle
use gopherharness.Base.{
  ℕ, zero, suc, ◌+◌, ◌-◌, String, str_eq, Bool, true, false, ◌||◌, Option, none, some, List, [],
  ◌∷◌, ◌++◌, is_empty, is_some, not, ltb, length, if◌then◌else◌,
}
use gopherharness.Base.Table.{Table, lookup, insert}
use gopherharness.Delivery.{Message}

pub record Endpoint : Type 0 where
  pub queue : List Message
  pub busy : Option Message

-- `posting` are the calls of `Post` that stand before their `select`.
pub record Hub : Type 0 where
  pub endpoints : Table Endpoint
  pub sealed : Bool
  pub over : Bool
  pub pending : ℕ
  pub posting : List Message
  pub capacity : ℕ

pub data Refusal : Type 0 where
  delivery_closed incomplete duplicate no_outlet no_target : Refusal

abbrev pub new_endpoint : Endpoint
new_endpoint = record { queue = []; busy = none }

unfoldable pub register : String → Bool → Hub → Option Refusal × Hub
register name has_outlet h =
    if h.sealed
    then (some delivery_closed, h)
    else (if is_empty name || not has_outlet
        then (some incomplete, h)
        else (if is_some (lookup name h.endpoints)
            then (some duplicate, h)
            else (none, record h { endpoints = insert name new_endpoint h.endpoints })))

-- `Post` up to its `select`.
abbrev post_to : Option Endpoint → Message → Hub → Option Refusal × Hub
post_to none m h = (some no_outlet, h)
post_to (some e) m h =
    if is_empty m.source.chat_id
    then (some no_target, h)
    else (none, record h { pending = h.pending + 1; posting = h.posting ++ m ∷ [] })

unfoldable pub post : Message → Hub → Option Refusal × Hub
post m h =
    if h.sealed
    then (some delivery_closed, h)
    else post_to (lookup m.source.channel h.endpoints) m h

-- The item at an index, and the others.
abbrev pub behind : Message → Option (Message × List Message) → Option (Message × List Message)
behind m none = none
behind m (some (x, ms)) = some (x, m ∷ ms)

unfoldable pub pick : ℕ → List Message → Option (Message × List Message)
pick n [] = none
pick zero (m ∷ ms) = some (m, ms)
pick (suc n) (m ∷ ms) = behind m (pick n ms)

-- `finish`
abbrev pub finish : Hub → Hub
finish h = record h { pending = h.pending - 1 }

-- The `select` of one waiting call: give up, or put the message in its queue if that has room.
abbrev give_up : Option (Message × List Message) → Hub → Option Hub
give_up none h = none
give_up (some (m, ms)) h = some (finish (record h { posting = ms }))

abbrev put : Option Endpoint → Message → List Message → Hub → Option Hub
put none m ms h = none
put (some e) m ms h =
    if ltb (length e.queue) h.capacity
    then some (record h {
      posting = ms;
      endpoints = insert m.source.channel (record e { queue = e.queue ++ m ∷ [] }) h.endpoints;
    })
    else none

abbrev accept : Option (Message × List Message) → Hub → Option Hub
accept none h = none
accept (some (m, ms)) h = put (lookup m.source.channel h.endpoints) m ms h

-- A worker takes the next message, and returns from `send`.
abbrev take_from : List Message → Option Message → String → Hub → Option Hub
take_from [] b name h = none
take_from (m ∷ q) (some _) name h = none
take_from (m ∷ q) none name h =
    some (record h { endpoints = insert name (record { queue = q; busy = some m }) h.endpoints })

abbrev take : Option Endpoint → String → Hub → Option Hub
take none name h = none
take (some e) name h = take_from e.queue e.busy name h

abbrev sent_by : Option Message → Endpoint → String → Hub → Option Hub
sent_by none e name h = none
sent_by (some m) e name h =
    some (finish (record h { endpoints = insert name (record e { busy = none }) h.endpoints }))

abbrev sent : Option Endpoint → String → Hub → Option Hub
sent none name h = none
sent (some e) name h = sent_by e.busy e name h

-- `Close`, once the workers are gone: one message of a queue is released.
abbrev drain_from : List Message → Endpoint → String → Hub → Option Hub
drain_from [] e name h = none
drain_from (m ∷ q) e name h =
    some (finish (record h { endpoints = insert name (record e { queue = q }) h.endpoints }))

abbrev drain : Option Endpoint → String → Hub → Option Hub
drain none name h = none
drain (some e) name h = if h.over then drain_from e.queue e name h else none

pub data Step : Type 0 where
  gives_up accepts : ℕ → Step
  takes returns drains : String → Step
  closes cancels : Step

unfoldable pub step : Step → Hub → Option Hub
step (gives_up i) h = give_up (pick i h.posting) h
step (accepts i) h = accept (pick i h.posting) h
step (takes name) h = take (lookup name h.endpoints) name h
step (returns name) h = sent (lookup name h.endpoints) name h
step (drains name) h = drain (lookup name h.endpoints) name h
step closes h = some (record h { sealed = true })
step cancels h = some (record h { over = true })
