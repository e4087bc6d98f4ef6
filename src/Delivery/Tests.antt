-- ===== src/Delivery/Tests.antt =====
-- A message through the hub of internal/delivery/hub.go, and the theorems at inputs that meet their
-- hypotheses.
use gopherharness.Base.{
  ℕ, zero, suc, ◌≡◌, refl, true, false, Option, none, some, [], ◌∷◌, arith, List,
}
use gopherharness.Durable.{healthy}
use gopherharness.Journal.{Owner, State, Entry, Payload, raw}
use gopherharness.Delivery.{
  Message, Receipt, SendError, Reply, Record, World, sent, failed, fresh, tries, send,
}
use gopherharness.Delivery.Posting.{Posted, post_durable}
use gopherharness.Delivery.Bound.{Bound, post_durable-Bound}
use gopherharness.Delivery.Claimed.{Accounted, send-Accounted}
use gopherharness.Delivery.Hub.{takes, returns, accepts}
use gopherharness.Delivery.Hub.Idle.{
  Call, registers, posts, steps, new_hub, calls, Settled, idle-Settled,
}

abbrev hello : Message
hello = record {
  id = "m1";
  source = record { channel = "feishu"; chat_id = "c"; sender_id = "u" };
  text = "hello";
  identity = record { trace_id = "t"; span_id = "s" };
}

abbrev busy_signal : SendError
busy_signal = record { terminal = false; rejected = true; uncertain = false }

-- The outlet rejects the first attempt and takes the second.
abbrev second_time : ℕ → Reply
second_time zero = failed busy_signal
second_time (suc n) = sent (record { message = "r7" })

abbrev outlet : World
outlet = record {
  idempotent = false;
  replies = second_time;
  over = λ n. false;
  ends_wait = λ n. false;
}

tries_twice : (tries 2 outlet 0 (fresh hello)).attempts ≡ 2
unfolding tries gopherharness.Delivery.attempt gopherharness.Delivery.failure
tries_twice = refl

abbrev waiting_entry : Entry
waiting_entry = record {
  id = "m1";
  kind = "outbox";
  state = "pending";
  payload = raw "hello";
  result = none;
  epoch = 1;
  updated_at = 5;
  resolutions = [];
}

abbrev outbox : State
outbox = record { epoch = 1; entries = ("outbox:m1", waiting_entry) ∷ [] }

abbrev owner : Owner
owner = record { epoch = 1; closed = false }

send-Accounted_example :
    Accounted 2 "m1" (some outbox) (send 2 outlet owner healthy healthy 6 7 hello (some outbox))
send-Accounted_example = send-Accounted 2 outlet owner hello healthy healthy 6 7 (some outbox)

abbrev one_message : List Call
one_message =
    registers "feishu" true
    ∷ posts hello
    ∷ steps (accepts 0)
    ∷ steps (takes "feishu")
    ∷ steps (returns "feishu")
    ∷ []

one_message_done : (calls one_message (new_hub 3)).pending ≡ 0
unfolding calls gopherharness.Delivery.Hub.Idle.call gopherharness.Delivery.Hub.step
    gopherharness.Base.Table.lookup gopherharness.Delivery.Hub.pick gopherharness.Delivery.Hub.post
    gopherharness.Delivery.Hub.register new_hub gopherharness.Base.Table.insert
one_message_done = refl

idle-Settled_example : Settled (calls one_message (new_hub 3))
idle-Settled_example = idle-Settled one_message 3 one_message_done

abbrev as_text : Message → Payload
as_text m = raw m.text

abbrev only_hello : Payload → Option Message
only_hello p = some hello

abbrev posted : Posted
posted =
    post_durable as_text only_hello (λ m. true) (some (record { epoch = 0; closed = false }))
      hello.identity hello healthy healthy 5 none

post_durable-Bound_example : Bound only_hello hello posted
unfolding post_durable gopherharness.Durable.update gopherharness.Durable.read
    gopherharness.Journal.mutate gopherharness.Journal.fenced gopherharness.Journal.put
    gopherharness.Journal.key gopherharness.Base.Table.lookup gopherharness.Base.Table.insert
post_durable-Bound_example =
    post_durable-Bound as_text only_hello (λ m. true) (some (record { epoch = 0; closed = false }))
      hello.identity hello healthy healthy 5 none refl refl
