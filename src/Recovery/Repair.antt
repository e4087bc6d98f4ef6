-- ===== src/Recovery/Repair.antt =====
-- What internal/runtime/recovery.go returns passes internal/contextbuilder/closure.go.
use gopherharness.Base.{
  ℕ, ◌≡◌, ◌⊎◌, inl, inr, refl, ◌∙◌, ap, subst, arith, String, str_eq, Bool, true, false, not, ◌&&◌,
  ◌||◌, none, some, List, [], ◌∷◌, map, is_empty, if◌then◌else◌, if_cases, Bool-cases, All,
}
use gopherharness.Closure
use gopherharness.Closure.{Sets, contains, remove, none_left, validate_closure, verdict}
use gopherharness.Closure.Balance.{count}
use gopherharness.Recovery.{
  Call, Message, Error, orphan_receipt, ids, State, flush, add_calls, take_receipt, push, and_then,
  before, message, loop, start, close_interrupted, view,
}
use gopherharness.Recovery.Sync.{is_well_formed, no_calls, sets, Reached, answered}
use gopherharness.Recovery.Calls.{
  flush-Reached, state_inj, add_calls-Synced, still_left, got-Synced, out_pushed, then_cases,
}

pub no_call : (cs : List Call) → no_calls cs ≡ true → cs ≡ []
no_call [] h = refl
no_call (c ∷ cs) h = absurd (cc)

receipt-taken :
    (m : Message) (s : State) {u : State}
    → str_eq m.role "tool" ≡ true
    → is_empty m.tool_call_id ≡ false
    → take_receipt m s ≡ inr u
    → (contains m.tool_call_id (ids s.pending) ≡ true)
      × (contains m.tool_call_id s.got ≡ false)
      × (record s { got = m.tool_call_id ∷ s.got } ≡ u)
unfolding take_receipt
receipt-taken m s {u = u} role has_id h = refused_or (rw (role, has_id) at h)
  where
    refused_or :
        (if not (contains m.tool_call_id (ids s.pending)) || contains m.tool_call_id s.got
            then inl orphan_receipt
            else inr (record s { got = m.tool_call_id ∷ s.got }))
          ≡ inr u
        → (contains m.tool_call_id (ids s.pending) ≡ true)
          × (contains m.tool_call_id s.got ≡ false)
          × (record s { got = m.tool_call_id ∷ s.got } ≡ u)
    refused_or k =
        elim (if_cases
          (not (contains m.tool_call_id (ids s.pending)) || contains m.tool_call_id s.got) k) [
            | inl (b, e) ↦ absurd (cc)
            | inr (b, e) ↦ (ground (arith, b), ground (arith, b), state_inj refl e)
          ]

-- The message of a tool, and any other.
abbrev rest_of : Message → State → Error ⊎ State
rest_of m s = and_then (add_calls m.calls s) λ t. and_then (take_receipt m t) λ u. inr (push m u)

tool-Reached :
    (m : Message) (p : List String) (s : State) {t : State}
    → str_eq m.role "tool" ≡ true
    → is_well_formed m ≡ true
    → Reached p s
    → rest_of m s ≡ inr t
    → (q : List String) × Reached q t
unfolding is_well_formed add_calls
tool-Reached m p s {t = t} role wf r h =
    let none_called : m.calls ≡ [] = no_call m.calls (ground (arith, rw role at wf)) in
    let has_id : is_empty m.tool_call_id ≡ false = ground (arith, rw role at wf) in
    let (v, called, more) =
      then_cases (add_calls m.calls s) (λ t. and_then (take_receipt m t) λ u. inr (push m u)) h in
    let same : v ≡ s = state_inj called (ap (λ cs. add_calls cs s) none_called) in
    let (u, taken, pushed) =
      then_cases (take_receipt m s) (λ u. inr (push m u))
        (subst (λ v. and_then (take_receipt m v) (λ u. inr (push m u)) ≡ inr t) same more) in
    let (waits, is_new, to) = receipt-taken m s role has_id taken in
    let id = m.tool_call_id in
    let left = still_left id p s waits is_new r.synced in
    let q = remove id p in
    let now_u : State = record s { got = id ∷ s.got } in
    let end : push m now_u ≡ t = ap (push m) to ∙ state_inj refl pushed in
    (
      q,
      subst (Reached q) end (
          out_pushed m p s q now_u r (answered m p s.seen role none_called has_id left) refl
            (got-Synced id p s waits is_new r.synced)),
    )

may_call :
    (cs : List Call) (b : Bool)
    → no_calls cs || b ≡ true
    → not (none_left (ids cs)) && not b ≡ false
may_call [] b h = refl
may_call (c ∷ cs) b h = ground (arith, h)

pub calling-accepted :
    (m : Message) (q seen seen' : List String)
    → str_eq m.role "tool" ≡ false
    → no_calls m.calls || str_eq m.role "assistant" ≡ true
    → is_empty m.tool_call_id ≡ true
    → Closure.add_calls (ids m.calls) (sets [] seen) ≡ some (sets q seen')
    → Closure.message (view m) (sets [] seen) ≡ inr (sets q seen')
unfolding Closure.message Closure.refused Closure.take_result view
calling-accepted m q seen seen' role ok no_id calls =
    rw (may_call m.calls (str_eq m.role "assistant") ok, role, calls, no_id) refl

plain-Reached :
    (m : Message) (s : State) {t : State}
    → str_eq m.role "tool" ≡ false
    → is_well_formed m ≡ true
    → Reached [] s
    → rest_of m s ≡ inr t
    → (q : List String) × Reached q t
unfolding is_well_formed take_receipt
plain-Reached m s {t = t} role wf r h =
    let (u, called, kept) =
      then_cases (add_calls m.calls s) (λ t. and_then (take_receipt m t) λ u. inr (push m u)) h in
    let (q, calls, y, same) = add_calls-Synced m.calls [] s (ground (arith, wf)) called r.synced in
    let (v, none_taken, pushed) = then_cases (take_receipt m u) (λ u. inr (push m u)) kept in
    let same_v : u ≡ v = state_inj (untouched u) none_taken in
    let end : push m u ≡ t = ap (push m) same_v ∙ state_inj refl pushed in
    (q, subst (Reached q) end (out_pushed m [] s q u r (asked q u calls) same y))
  where
    untouched : (u : State) → take_receipt m u ≡ inr u
    untouched u = rw role refl

    asked :
        (q : List String) (u : State)
        → Closure.add_calls (ids m.calls) (sets [] s.seen) ≡ some (sets q u.seen)
        → Closure.message (view m) (sets [] s.seen) ≡ inr (sets q u.seen)
    asked q u calls =
        calling-accepted m q s.seen u.seen role (ground (arith, rw role at wf))
          (ground (arith, rw role at wf)) calls

message-Reached :
    (now : ℕ) (m : Message) (p : List String) (s : State) {t : State}
    → is_well_formed m ≡ true
    → Reached p s
    → message now m s ≡ inr t
    → (q : List String) × Reached q t
unfolding message before
message-Reached now m p s {t = t} wf r h = elim (Bool-cases (str_eq m.role "tool")) [
  | inl e ↦ tool-Reached m p s e wf r (rw e at h)
  | inr e ↦ plain-Reached m (flush now s) e wf (flush-Reached now p s r) (rw e at h)
]

loop-Reached :
    (now : ℕ) (ms : List Message) (p : List String) (s : State) {t : State}
    → All (λ m. is_well_formed m ≡ true) ms
    → Reached p s
    → loop now ms s ≡ inr t
    → (q : List String) × Reached q t
unfolding loop
loop-Reached now [] p s wf r h = (p, subst (Reached p) (state_inj refl h) r)
loop-Reached now (m ∷ ms) p s wf r h =
    let (u, e, more) = then_cases (message now m s) (loop now ms) h in
    let (q, r') = message-Reached now m p s wf.0 r e in loop-Reached now ms q u wf.1 r' more

-- A session whose messages are well formed (only an assistant calls, every call has an id, exactly
-- the messages of tools name the call that they answer) is refused, or what is returned passes
-- `ValidateClosure`: every call in it is answered once, by a real receipt or by one that says that the
-- outcome is unknown.
pub close_interrupted-validate_closure :
    (now : ℕ) (ms : List Message) {s : State}
    → All (λ m. is_well_formed m ≡ true) ms
    → close_interrupted now ms ≡ inr s
    → validate_closure (map view s.out) ≡ none
unfolding close_interrupted validate_closure count contains Closure.run
close_interrupted-validate_closure now ms {s = s} wf h =
    let (t, looped, flushed) = then_cases (loop now ms start) (λ s. inr (flush now s)) h in
    let begun : Reached [] start = record {
      ran = refl;
      synced = record {
        left = λ x. refl;
        once = λ x. (omega arith, omega arith);
        got_seen = λ x e. absurd (cc);
        named = λ x e. refl;
      };
    } in
    let (q, r) = loop-Reached now ms [] start wf begun looped in
    let end = subst (Reached []) (state_inj refl flushed) (flush-Reached now q t r) in
    rw end.ran refl
