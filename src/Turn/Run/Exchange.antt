-- ===== src/Turn/Run/Exchange.antt =====
-- Turns keep the exchanges of a session complete: internal/runtime/engine.go against
-- internal/contextbuilder/closure.go.
use Prim.Native.String.{◌++◌ as append}
use text.Mathlib.TextLemmas.{append-eq-nil_iff}
use gopherharness.Base.{
  ℕ, suc, ◌+◌, ltb, ◌≡◌, ◌⊎◌, inl, inr, refl, ap, ◌∙◌, subst, arith, String, str_eq, Bool, true,
  false, not, ◌&&◌, ◌||◌, Option, none, some, List, [], ◌∷◌, ◌++◌, map, if◌then◌else◌, is_empty,
  if_cases, some_inj, Bool-cases, eq_iff, All,
}
use gopherharness.Closure.{Sets, contains, none_left, validate_closure, verdict}
use gopherharness.Closure
use gopherharness.Closure.Balance.{count, count-contains, calls, run-Moves}
use gopherharness.Recovery.{Call, Message, ids, view}
use gopherharness.Recovery.Sync.{
  sets, run-append, map-append, count-append, missing-run, contains-count, no_calls,
}
use gopherharness.Recovery.Repair.{calling-accepted, no_call}
use gopherharness.Turn.{Agent, LoopGuard}
use gopherharness.Turn.Batch.Accepts.{replies}
use gopherharness.Turn.Loop.{Attempt}
use gopherharness.Turn.Respond.{number, call_id, called_ids, consed}

prefix_filled : (x : String) → is_empty (append "call_" x) ≡ false
prefix_filled x = elim (Bool-cases (is_empty (append "call_" x))) [
  | inl h ↦
      let q : append "call_" x ≡ "" = ground (arith, h, eq_iff (append "call_" x) "") in
      let r : "call_" ≡ "" = (append-eq-nil_iff.0 q).0 in
      absurd (let e : false ≡ true = ap (λ s. str_eq s "") r in cc)
  | inr h ↦ h
]

-- A session whose exchanges are complete, with the ids that were called in it.
pub record Settled (ms : List Message) (seen : List String) : Type 0 where
  pub ran : Closure.run (map view ms) (sets [] []) ≡ inr (sets [] seen)
  pub called : (x : String) → count x seen ≡ count x (called_ids ms)

calls-called_ids :
    (x : String) (ms : List Message) → calls x (map view ms) ≡ count x (called_ids ms)
unfolding calls called_ids view count
calls-called_ids x [] = refl
calls-called_ids x (m ∷ ms) =
    omega (arith, calls-called_ids x ms, count-append x (ids m.calls) (called_ids ms))

all_taken :
    (p : List String) → (if none_left p then none else some Closure.incomplete) ≡ none → p ≡ []
all_taken [] h = refl
all_taken (x ∷ p) h = absurd (cc)

pub settled :
    (ms : List Message) (seen : List String)
    → Closure.run (map view ms) (sets [] []) ≡ inr (sets [] seen)
    → Settled ms seen
unfolding count
settled ms seen ran = record {
  ran = ran;
  called = λ x.
      let (_, sum, _) = run-Moves x (map view ms) (sets [] []) ran in
      omega (arith, sum, calls-called_ids x ms);
}

pub Settled-of :
    (ms : List Message)
    → validate_closure (map view ms) ≡ none
    → (seen : List String) × Settled ms seen
unfolding validate_closure
Settled-of ms h = from (Closure.run (map view ms) (sets [] [])) refl h
  where
    from :
        (o : Closure.Error ⊎ Sets)
        → Closure.run (map view ms) (sets [] []) ≡ o
        → verdict o ≡ none
        → (seen : List String) × Settled ms seen
    from (inl e) q h = absurd (cc)
    from (inr t) q h =
        let none_left : t.pending ≡ [] = all_taken t.pending h in
        let ran : Closure.run (map view ms) (sets [] []) ≡ inr (sets [] t.seen) =
          q ∙ ap (λ p. inr (sets p t.seen)) none_left in
        (t.seen, settled ms t.seen ran)

pub Settled-validate_closure :
    (ms : List Message) (seen : List String)
    → Settled ms seen
    → validate_closure (map view ms) ≡ none
unfolding validate_closure
Settled-validate_closure ms seen h = rw h.ran refl

pub settled-append :
    (ms new : List Message) (seen seen' : List String)
    → Settled ms seen
    → Closure.run (map view new) (sets [] seen) ≡ inr (sets [] seen')
    → Settled (ms ++ new) seen'
settled-append ms new seen seen' h k = settled (ms ++ new) seen' (
    ap (λ l. Closure.run l (sets [] [])) (map-append ms new)
    ∙ run-append (map view ms) (map view new) (sets [] []) h.ran
    ∙ k)

-- A message that neither calls nor answers.
unfoldable pub is_plain : Message → Bool
is_plain m = not (str_eq m.role "tool") && (no_calls m.calls && is_empty m.tool_call_id)

pub plain-run :
    (ms : List Message) (seen : List String)
    → All (λ m. is_plain m ≡ true) ms
    → Closure.run (map view ms) (sets [] seen) ≡ inr (sets [] seen)
unfolding Closure.run is_plain Closure.add_calls
plain-run [] seen h = refl
plain-run (m ∷ ms) seen h =
    let none_called : m.calls ≡ [] = no_call m.calls (ground (arith, h.0)) in
    let one : Closure.message (view m) (sets [] seen) ≡ inr (sets [] seen) =
      calling-accepted m [] seen seen (ground (arith, h.0)) (ground (arith, h.0))
        (ground (arith, h.0)) (ap (λ cs. Closure.add_calls (ids cs) (sets [] seen)) none_called) in
    rw one (plain-run ms seen h.1)

call_id-filled : (s : Attempt) (i : ℕ) (c : Call) → is_empty (call_id s i c) ≡ false
call_id-filled s i c = elim (Bool-cases (is_empty c.id)) [
  | inl h ↦ rw h (prefix_filled (s.call_id i))
  | inr h ↦ rw h h
]

-- The calls that were numbered, as the check takes them up.
pub record TakenUp (p seen : List String) (ds : List Call) (q seen' : List String) : Type 0 where
  taken : Closure.add_calls (ids ds) (sets p seen) ≡ some (sets q seen')
  pending : (x : String) → count x q ≡ count x (ids ds) + count x p
  filled : (x : String) → is_empty x ≡ true → count x (ids ds) ≡ 0

module _ (a : Agent) (s : Attempt) (g : LoopGuard) (steps : ℕ) where
  pub number-TakenUp :
      (i : ℕ) (known p seen : List String) (cs ds : List Call) (bs : List Bool)
      → number a s g steps i known cs ≡ some (ds, bs)
      → ((x : String) → count x seen ≡ count x known)
      → (q : List String) × (seen' : List String) × TakenUp p seen ds q seen'
  unfolding number Closure.add_calls count
  number-TakenUp i known p seen [] ds bs h same =
      let q : [] ≡ ds = ap (λ (p : List Call × List Bool). p.0) (some_inj h) in
      (
        p,
        seen,
        subst (λ ds. TakenUp p seen ds p seen) q
            (record { taken = refl; pending = λ x. omega arith; filled = λ x e. refl }),
      )
  number-TakenUp i known p seen (c ∷ cs) ds bs h same =
      let id = call_id s i c in
      let rest = number a s g steps (suc i) (id ∷ known) cs in
      elim (if_cases (contains id known) h) [
        | inl (b, e) ↦ absurd (cc)
        | inr (b, e) ↦
            from rest b
              (λ ds' bs' e'.
                number-TakenUp (suc i) (id ∷ known) (id ∷ p) (id ∷ seen) cs ds' bs' e'
                  λ x. omega (arith, same x))
              e
      ]
    where
      is_new : contains (call_id s i c) known ≡ false → contains (call_id s i c) seen ≡ false
      is_new b = elim (Bool-cases (contains (call_id s i c) seen)) [
        | inl h ↦ absurd (
            omega (
              arith,
              contains-count (call_id s i c) seen h,
              same (call_id s i c),
              count-contains (call_id s i c) known b,
            ))
        | inr h ↦ h
      ]

      other : (x : String) → is_empty x ≡ true → str_eq (call_id s i c) x ≡ false
      other x e = elim (Bool-cases (str_eq (call_id s i c) x)) [
        | inl h ↦
            let q : call_id s i c ≡ x = ground (arith, h, eq_iff (call_id s i c) x) in
            let f : is_empty x ≡ false = subst (λ z. is_empty z ≡ false) q (call_id-filled s i c) in
            absurd (cc)
        | inr h ↦ h
      ]

      from :
          (o : Option (List Call × List Bool))
          → contains (call_id s i c) known ≡ false
          → ((ds' : List Call) (bs' : List Bool)
              → o ≡ some (ds', bs')
              → (q : List String) × (seen' : List String) × TakenUp
                  (call_id s i c ∷ p)
                  (call_id s i c ∷ seen)
                  ds'
                  q
                  seen')
          → consed
              (record c { id = call_id s i c })
              (g.final_only || ltb a.max_steps (steps + suc i))
              o
            ≡ some (ds, bs)
          → (q : List String) × (seen' : List String) × TakenUp p seen ds q seen'
      from none b k e = absurd (cc)
      from (some (ds', bs')) b k e =
          let (q, seen', t) = k ds' bs' refl in
          let id = call_id s i c in
          let c' : Call = record c { id = id } in
          let to : c' ∷ ds' ≡ ds = ap (λ (p : List Call × List Bool). p.0) (some_inj e) in
          (
            q,
            seen',
            subst (λ ds. TakenUp p seen ds q seen') to
                (record {
                  taken = rw (call_id-filled s i c, is_new b) t.taken;
                  pending = λ x. omega (arith, t.pending x);
                  filled = λ x e. rw (other x e) (omega (arith, t.filled x e));
                }),
          )

-- The calls of a message and one receipt for each.
pub exchange-run :
    (m : Message) (ds : List Call) (seen q seen' : List String)
    → str_eq m.role "tool" ≡ false
    → str_eq m.role "assistant" ≡ true
    → is_empty m.tool_call_id ≡ true
    → m.calls ≡ ds
    → TakenUp [] seen ds q seen'
    → Closure.run (view m ∷ replies ds) (sets [] seen) ≡ inr (sets [] seen')
unfolding Closure.run replies contains count
exchange-run m ds seen q seen' role assistant no_id same t =
    let one : Closure.message (view m) (sets [] seen) ≡ inr (sets q seen') =
      calling-accepted m q seen seen' role (may assistant) no_id
        (ap (λ cs. Closure.add_calls (ids cs) (sets [] seen)) same ∙ t.taken) in
    rw one (missing-run 0 ds [] seen' q (λ x. omega (arith, t.pending x)) t.filled)
  where
    may : str_eq m.role "assistant" ≡ true → no_calls m.calls || str_eq m.role "assistant" ≡ true
    may h = ground (arith, h)
