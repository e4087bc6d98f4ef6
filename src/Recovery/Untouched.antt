-- ===== src/Recovery/Untouched.antt =====
-- A session that needs no repair (internal/runtime/recovery.go).
use gopherharness.Base.{
  ℕ, ◌≡◌, ◌⊎◌, inl, inr, refl, sym, ◌∙◌, ap, subst, arith, String, str_eq, false, Option, none,
  some, List, [], ◌∷◌, ◌++◌, map, if◌then◌else◌, Bool-cases,
}
use gopherharness.Closure
use gopherharness.Closure.{Sets, contains, remove, none_left, validate_closure, verdict}
use gopherharness.Closure.Balance.{count, right_inj}
use gopherharness.Recovery.{
  Message, ids, State, flush, push, before, message, loop, start, close_interrupted, view,
}
use gopherharness.Recovery.Sync.{sets, Synced}
use gopherharness.Recovery.Kept.{Kept, append_none, flush-Kept, add_calls-Kept, take_receipt-Kept}

-- What an accepted message has passed.
accepted :
    (m : Closure.Message) (s : Sets) {u : Sets}
    → Closure.message m s ≡ inr u
    → (v : Sets) × (q : List String) × (Closure.refused m s.pending ≡ none)
      × (Closure.add_calls m.tool_calls s ≡ some v)
      × (Closure.take_result m v.pending ≡ some q)
      × (Closure.set_pending q v ≡ u)
unfolding Closure.message
accepted m s {u = u} h = guarded (Closure.refused m s.pending) refl h
  where
    taken :
        (v : Sets) (o : Option (List String))
        → Closure.take_result m v.pending ≡ o
        → Closure.after_result o v ≡ inr u
        → (q : List String) × (Closure.take_result m v.pending ≡ some q)
          × (Closure.set_pending q v ≡ u)
    taken v none e h = absurd (cc)
    taken v (some q) e h = (q, e, right_inj refl h)

    called :
        (o : Option Sets)
        → Closure.refused m s.pending ≡ none
        → Closure.add_calls m.tool_calls s ≡ o
        → Closure.after_calls o m ≡ inr u
        → (v : Sets) × (q : List String) × (Closure.refused m s.pending ≡ none)
          × (Closure.add_calls m.tool_calls s ≡ some v)
          × (Closure.take_result m v.pending ≡ some q)
          × (Closure.set_pending q v ≡ u)
    called none g e h = absurd (cc)
    called (some v) g e h =
        let (q, r, to) = taken v (Closure.take_result m v.pending) refl h in (v, q, g, e, r, to)

    guarded :
        (o : Option Closure.Error)
        → Closure.refused m s.pending ≡ o
        → Closure.after_guards o m s ≡ inr u
        → (v : Sets) × (q : List String) × (Closure.refused m s.pending ≡ none)
          × (Closure.add_calls m.tool_calls s ≡ some v)
          × (Closure.take_result m v.pending ≡ some q)
          × (Closure.set_pending q v ≡ u)
    guarded (some e) g h = absurd (cc)
    guarded none g h = called (Closure.add_calls m.tool_calls s) g refl h

nothing_waits :
    (m : Closure.Message) (p : List String)
    → str_eq m.role "tool" ≡ false
    → Closure.refused m p ≡ none
    → p ≡ []
unfolding Closure.refused
nothing_waits m [] role h = refl
nothing_waits m (x ∷ p) role h = absurd (let k = rw role at h in cc)

before-Kept :
    (now : ℕ) (m : Message) (p : List String) (s : State)
    → Closure.refused (view m) p ≡ none
    → Synced p s
    → Kept s (before now m s) [] p × ((before now m s).seen ≡ s.seen)
unfolding before view flush
before-Kept now m p s g y = elim (Bool-cases (str_eq m.role "tool")) [
  | inl e ↦ rw e (record { synced = y; out = append_none s.out; repaired = refl }, refl)
  | inr e ↦
      let q : p ≡ [] = nothing_waits (view m) p e g in
      rw e (
        subst (Kept s (flush now s) []) (sym q) (flush-Kept now s (subst (λ p. Synced p s) q y)),
        refl,
      )
]

message-Kept :
    (now : ℕ) (m : Message) (p : List String) (s : State) {u : Sets}
    → Closure.message (view m) (sets p s.seen) ≡ inr u
    → Synced p s
    → (t : State) × (message now m s ≡ inr t)
      × (u ≡ sets u.pending t.seen)
      × Kept s t (m ∷ []) u.pending
unfolding message view
message-Kept now m p s h y =
    let (v, q, g, calls, result, to) = accepted (view m) (sets p s.seen) h in
    let (k1, same1) = before-Kept now m p s g y in
    let (t, e, v_to, k2) =
      add_calls-Kept m.calls p (before now m s)
        (subst (λ z. Closure.add_calls (ids m.calls) (sets p z) ≡ some v) (sym same1) calls)
        k1.synced in
    let (w, e', same2, k3) = take_receipt-Kept m v.pending t result k2.synced in
    let out : w.out ≡ s.out =
      k3.out
      ∙ sym (append_none t.out)
      ∙ k2.out
      ∙ sym (append_none (before now m s).out)
      ∙ k1.out
      ∙ sym (append_none s.out) in
    let seen : v.seen ≡ w.seen = ap (λ (z : Sets). z.seen) v_to ∙ sym same2 in
    (
      push m w,
      rw (e, e') refl,
      subst (λ u. u ≡ sets u.pending w.seen) to (ap (sets q) seen),
      subst (λ u. Kept s (push m w) (m ∷ []) u.pending) to
          (record {
            synced = record {
              left = k3.synced.left;
              once = k3.synced.once;
              got_seen = k3.synced.got_seen;
              named = k3.synced.named;
            };
            out = ap (λ l. l ++ (m ∷ [])) out;
            repaired = k3.repaired ∙ k2.repaired ∙ k1.repaired;
          }),
    )

append_later : (xs ys zs : List Message) → (xs ++ ys) ++ zs ≡ xs ++ (ys ++ zs)
append_later [] ys zs = refl
append_later (x ∷ xs) ys zs = ap (λ l. x ∷ l) (append_later xs ys zs)

run_cases :
    (o : Closure.Error ⊎ Sets) (f : Sets → Closure.Error ⊎ Sets) {t : Sets}
    → Closure.and_then o f ≡ inr t
    → (u : Sets) × (o ≡ inr u) × (f u ≡ inr t)
run_cases (inl e) f h = absurd (cc)
run_cases (inr u) f h = (u, refl, h)

loop-Kept :
    (now : ℕ) (ms : List Message) (p : List String) (s : State) {u : Sets}
    → Closure.run (map view ms) (sets p s.seen) ≡ inr u
    → Synced p s
    → (t : State) × (loop now ms s ≡ inr t) × Kept s t ms u.pending
unfolding loop Closure.run
loop-Kept now [] p s {u = u} h y = (
  s,
  refl,
  subst (λ (u : Sets). Kept s s [] u.pending) (right_inj refl h)
      (record { synced = y; out = append_none s.out; repaired = refl }),
)
loop-Kept now (m ∷ ms) p s {u = u} h y =
    let (v, e, more) =
      run_cases (Closure.message (view m) (sets p s.seen)) (Closure.run (map view ms)) h in
    let (t, done, to, k) = message-Kept now m p s e y in
    let (w, done', k') =
      loop-Kept now ms v.pending t (subst (λ v. Closure.run (map view ms) v ≡ inr u) to more)
        k.synced in
    (
      w,
      rw (done, done') refl,
      record {
        synced = k'.synced;
        out = k'.out ∙ ap (λ l. l ++ ms) k.out ∙ append_later s.out (m ∷ []) ms;
        repaired = k'.repaired ∙ k.repaired;
      },
    )

abbrev pub Unchanged : List Message → State → Type 0
Unchanged ms s = (s.out ≡ ms) × (s.repaired ≡ 0)

none_waits :
    (p : List String) → (if none_left p then none else some Closure.incomplete) ≡ none → p ≡ []
none_waits [] h = refl
none_waits (x ∷ p) h = absurd (cc)

-- A session that `ValidateClosure` accepts comes back as it is, without a repair; in particular, the
-- repair of a repaired session changes nothing.
pub close_interrupted-Unchanged :
    (now : ℕ) (ms : List Message)
    → validate_closure (map view ms) ≡ none
    → (s : State) × (close_interrupted now ms ≡ inr s) × Unchanged ms s
unfolding close_interrupted validate_closure count contains
close_interrupted-Unchanged now ms h = from (Closure.run (map view ms) (sets [] [])) refl h
  where
    begun : Synced [] start
    begun = record {
      left = λ x. refl;
      once = λ x. (omega arith, omega arith);
      got_seen = λ x e. absurd (cc);
      named = λ x e. refl;
    }

    from :
        (o : Closure.Error ⊎ Sets)
        → Closure.run (map view ms) (sets [] []) ≡ o
        → verdict o ≡ none
        → (s : State) × (close_interrupted now ms ≡ inr s) × Unchanged ms s
    from (inl e) q h = absurd (cc)
    from (inr u) q h =
        let (t, done, k) = loop-Kept now ms [] start q begun in
        let f = flush-Kept now t (subst (λ p. Synced p t) (none_waits u.pending h) k.synced) in
        (
          flush now t,
          rw done refl,
          (f.out ∙ sym (append_none t.out) ∙ k.out, f.repaired ∙ k.repaired),
        )
