-- ===== src/Recovery/Calls.antt =====
-- Calls and receipts in internal/runtime/recovery.go and internal/contextbuilder/closure.go.
use gopherharness.Base.{
  ℕ, ◌+◌, ◌≤◌, ◌≡◌, ◌⊎◌, inl, inr, refl, sym, ap, subst, arith, String, str_eq, eq_iff, true, false,
  some, List, [], ◌∷◌, ◌++◌, map, is_empty, if◌then◌else◌, if_cases, Bool-cases,
}
use gopherharness.Closure
use gopherharness.Closure.{Sets, contains, remove, none_left, validate_closure, verdict}
use gopherharness.Closure.Balance.{count, count-remove, count-contains}
use gopherharness.Recovery.{
  Call, Message, Error, ids, State, missing, flush, added, add_calls, push, and_then, before, view,
}
use gopherharness.Recovery.Sync.{
  all_named, sets, Synced, Reached, ids-append, map-append, count-append, run-append, waiting,
  missing-run, contains-count,
}

pub appended :
    (s : State) (ms : List Message) (p : List String) {t : Sets}
    → Reached p s
    → Closure.run (map view ms) (sets p s.seen) ≡ inr t
    → Closure.run (map view (s.out ++ ms)) (sets [] []) ≡ inr t
appended s ms p r h =
    rw (map-append s.out ms, run-append (map view s.out) (map view ms) (sets [] []) r.ran) h

pub flush-Reached : (now : ℕ) (p : List String) (s : State) → Reached p s → Reached [] (flush now s)
unfolding flush count contains
flush-Reached now p s r =
    let y = r.synced in
    record {
      ran = appended s (missing now s.pending s.got) p r (
          missing-run now s.pending s.got s.seen p y.left
            (λ x e. omega (arith, y.once x, y.named x e)));
      synced = record {
        left = λ x. refl;
        once = λ x. (omega arith, (y.once x).1);
        got_seen = λ x e. absurd (cc);
        named = y.named;
      };
    }

pub before-Reached :
    (now : ℕ) (m : Message) (p : List String) (s : State)
    → Reached p s
    → (q : List String) × Reached q (before now m s) × (str_eq m.role "tool" ≡ false → q ≡ [])
unfolding before
before-Reached now m p s r = elim (Bool-cases (str_eq m.role "tool")) [
  | inl e ↦ rw e (p, r, λ (f : true ≡ false). absurd (cc))
  | inr e ↦ rw e ([], flush-Reached now p s r, λ _. refl)
]

pub state_inj : {v : Error ⊎ State} {s t : State} → v ≡ inr s → v ≡ inr t → s ≡ t
state_inj p q = cc

-- A new call.
module _ (c : Call) (s : State) (has_id : is_empty c.id ≡ false)
    (is_new : contains c.id s.seen ≡ false) where
  unseen : (x : String) → str_eq c.id x ≡ true → count x s.seen ≡ 0
  unseen x e =
      let q : c.id ≡ x = ground (arith, eq_iff c.id x) in
      subst (λ z. count z s.seen ≡ 0) q (count-contains c.id s.seen is_new)

  filled : (x : String) → str_eq c.id x ≡ true → is_empty x ≡ false
  filled x e =
      let q : c.id ≡ x = ground (arith, eq_iff c.id x) in subst (λ z. is_empty z ≡ false) q has_id

  grown :
      (x : String)
      → count x (ids (s.pending ++ (c ∷ [])))
        ≡ count x (ids s.pending) + (if str_eq c.id x then 1 else 0)
  unfolding count
  grown x =
      rw (ids-append s.pending (c ∷ []), count-append x (ids s.pending) (c.id ∷ [])) (omega arith)

  pub added-Synced : (p : List String) → Synced p s → Synced (c.id ∷ p) (added c s)
  unfolding count
  added-Synced p y = record {
    left = λ x. elim (Bool-cases (contains x s.got)) [
      | inl g ↦ elim (Bool-cases (str_eq c.id x)) [
        | inl e ↦ absurd (omega (arith, unseen x e, y.got_seen x g))
        | inr e ↦ rw (e, g) (omega (arith, rw g at (y.left x)))
      ]
      | inr g ↦ rw (grown x, g) (omega (arith, rw g at (y.left x)))
    ];
    once = λ x. elim (Bool-cases (str_eq c.id x)) [
      | inl e ↦ rw (grown x, e) (omega (arith, y.once x, unseen x e), omega (arith, unseen x e))
      | inr e ↦ rw (grown x, e) (omega (arith, y.once x), omega (arith, y.once x))
    ];
    got_seen = λ x e. omega (arith, y.got_seen x e);
    named = λ x e. elim (Bool-cases (str_eq c.id x)) [
      | inl f ↦ let h = filled x f in absurd (cc)
      | inr f ↦ rw f (omega (arith, y.named x e))
    ];
  }

-- The loop over the calls of a message, in both.
pub add_calls-Synced :
    (cs : List Call) (p : List String) (s : State) {t : State}
    → all_named cs ≡ true
    → add_calls cs s ≡ inr t
    → Synced p s
    → (q : List String) × (Closure.add_calls (ids cs) (sets p s.seen) ≡ some (sets q t.seen))
      × Synced q t
      × (t.out ≡ s.out)
unfolding add_calls Closure.add_calls
add_calls-Synced [] p s {t = t} named h y =
    let q : s ≡ t = state_inj refl h in
    (p, ap (λ z. some (sets p z.seen)) q, subst (Synced p) q y, ap (λ z. z.out) (sym q))
add_calls-Synced (c ∷ cs) p s named h y =
    let has_id : is_empty c.id ≡ false = ground (arith, named) in
    elim (if_cases (contains c.id s.seen) (rw has_id at h)) [
      | inl (b, e) ↦ absurd (cc)
      | inr (b, e) ↦
          rw (has_id, b)
            (add_calls-Synced cs (c.id ∷ p) (added c s) (ground (arith, named)) e
              (added-Synced c s has_id b p y))
    ]

-- A receipt that is waited for.
module _ (id : String) (p : List String) (s : State) (waits : contains id (ids s.pending) ≡ true)
    (is_new : contains id s.got ≡ false) (y : Synced p s) where
  pub still_left : 1 ≤ count id p
  still_left = omega (arith, rw is_new at (y.left id), contains-count id (ids s.pending) waits)

  pub got-Synced : Synced (remove id p) (record s { got = id ∷ s.got })
  unfolding contains
  got-Synced = record {
    left = λ x.
        let one_less = count-remove x id p (waiting id p still_left) in
        elim (Bool-cases (str_eq id x)) [
          | inl e ↦
              let q : id ≡ x = ground (arith, eq_iff id x) in
              let new_x : contains x s.got ≡ false =
                subst (λ z. contains z s.got ≡ false) q is_new in
              rw e (omega (arith, rw e at one_less, rw new_x at (y.left x), y.once x))
          | inr e ↦ rw e (omega (arith, rw e at one_less, y.left x))
        ];
    once = y.once;
    got_seen = λ x e. elim (Bool-cases (str_eq id x)) [
      | inl f ↦
          let q : id ≡ x = ground (arith, eq_iff id x) in
          subst (λ z. 1 ≤ count z s.seen) q
            (omega (arith, contains-count id (ids s.pending) waits, y.once id))
      | inr f ↦ y.got_seen x (rw f at e)
    ];
    named = y.named;
  }

pub out_pushed :
    (m : Message) (p : List String) (s : State) (q : List String) (t : State)
    → Reached p s
    → Closure.message (view m) (sets p s.seen) ≡ inr (sets q t.seen)
    → t.out ≡ s.out
    → Synced q t
    → Reached q (push m t)
unfolding Closure.run
out_pushed m p s q t r one same y = record {
  ran = rw same (appended s (m ∷ []) p r (rw one refl));
  synced = record { left = y.left; once = y.once; got_seen = y.got_seen; named = y.named };
}

pub then_cases :
    (o : Error ⊎ State) (f : State → Error ⊎ State) {t : State}
    → and_then o f ≡ inr t
    → (u : State) × (o ≡ inr u) × (f u ≡ inr t)
then_cases (inl e) f h = absurd (cc)
then_cases (inr u) f h = (u, refl, h)
