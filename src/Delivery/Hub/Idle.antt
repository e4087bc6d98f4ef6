-- ===== src/Delivery/Hub/Idle.antt =====
-- When `WaitIdle` of internal/delivery/hub.go may return: histories of a hub from `New` on.
use gopherharness.Base.{
  ℕ, ◌≡◌, refl, arith, String, Bool, false, Option, none, some, List, [], ◌∷◌, length,
}
use gopherharness.Base.Table.{Table, Entries, sum_by}
use gopherharness.Delivery.{Message}
use gopherharness.Delivery.Hub.{Endpoint, Hub, register, post, Step, step}
use gopherharness.Delivery.Hub.Pending.{
  IsExact, one, owed, register-IsExact, post-IsExact, step-IsExact,
}

unfoldable pub new_hub : ℕ → Hub
new_hub capacity = record {
  endpoints = [];
  sealed = false;
  over = false;
  pending = 0;
  posting = [];
  capacity = capacity;
}

pub data Call : Type 0 where
  registers : String → Bool → Call
  posts : Message → Call
  steps : Step → Call

abbrev or_same : Option Hub → Hub → Hub
or_same none h = h
or_same (some t) h = t

unfoldable pub call : Call → Hub → Hub
call (registers name has_outlet) h = (register name has_outlet h).1
call (posts m) h = (post m h).1
call (steps s) h = or_same (step s h) h

unfoldable pub calls : List Call → Hub → Hub
calls [] h = h
calls (c ∷ cs) h = calls cs (call c h)

call-IsExact : (c : Call) (h : Hub) → IsExact h → IsExact (call c h)
unfolding call
call-IsExact (registers name has_outlet) h ok = register-IsExact h ok name has_outlet
call-IsExact (posts m) h ok = post-IsExact h ok m
call-IsExact (steps s) h ok = from (step s h) refl
  where
    from : (o : Option Hub) → step s h ≡ o → IsExact (or_same o h)
    from none e = ok
    from (some t) e = step-IsExact h ok s e

kept-IsExact : (cs : List Call) (h : Hub) → IsExact h → IsExact (calls cs h)
unfolding calls
kept-IsExact [] h ok = ok
kept-IsExact (c ∷ cs) h ok = kept-IsExact cs (call c h) (call-IsExact c h ok)

new-IsExact : (capacity : ℕ) → IsExact (new_hub capacity)
unfolding new_hub sum_by
new-IsExact capacity = record { exact = refl; fits = tt }

-- An outlet that owes nothing, and a hub that does not.
abbrev pub Free : String → Endpoint → Type 0
Free name e = (e.queue ≡ []) × (e.busy ≡ none)

abbrev pub Settled : Hub → Type 0
Settled h = (h.posting ≡ []) × Entries Free h.endpoints

no_items : (ms : List Message) → length ms ≡ 0 → ms ≡ []
no_items [] e = refl
no_items (m ∷ ms) e = absurd (omega (arith, e))

no_message : (b : Option Message) → one b ≡ 0 → b ≡ none
no_message none z = refl
no_message (some m) z = absurd (omega (arith, z))

endpoint-Free : (e : Endpoint) → owed e ≡ 0 → Free "" e
endpoint-Free e z = (no_items e.queue (ground (arith, z)), no_message e.busy (omega (arith, z)))

owed-Free : (m : Table Endpoint) → sum_by owed m ≡ 0 → Entries Free m
unfolding sum_by
owed-Free [] z = tt
owed-Free ((k, e) ∷ m) z = (endpoint-Free e (omega (arith, z)), owed-Free m (omega (arith, z)))

-- From a new hub on, whatever is registered, posted and sent in any order, and whoever gives up: when
-- the count of pending messages is zero, no call of `Post` is under way, every queue is empty and no
-- message is being sent.
pub idle-Settled :
    (cs : List Call) (capacity : ℕ)
    → (calls cs (new_hub capacity)).pending ≡ 0
    → Settled (calls cs (new_hub capacity))
idle-Settled cs capacity z =
    let ok = kept-IsExact cs (new_hub capacity) (new-IsExact capacity) in
    let h = calls cs (new_hub capacity) in
    (
      no_items h.posting (omega (arith, z, ok.exact)),
      owed-Free h.endpoints (omega (arith, z, ok.exact)),
    )
