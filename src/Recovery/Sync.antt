-- ===== src/Recovery/Sync.antt =====
-- The loop of internal/runtime/recovery.go beside that of internal/contextbuilder/closure.go.
use gopherharness.Base.{
  ℕ, ◌+◌, ◌≤◌, ◌≡◌, ◌⊎◌, inl, inr, refl, ap, arith, String, str_eq, eq_iff, Bool, true, false, not,
  ◌&&◌, ◌||◌, List, [], ◌∷◌, ◌++◌, map, is_empty, if◌then◌else◌, Bool-cases,
}
use gopherharness.Closure
use gopherharness.Closure.{Sets, contains, remove, none_left, validate_closure, verdict}
use gopherharness.Closure.Balance.{count, count-remove, count-contains, right_inj}
use gopherharness.Recovery.{Call, Message, ids, State, unknown_outcome, missing, view}

-- Only an assistant calls, every call has an id, and exactly the results of tools name the call that
-- they answer.
abbrev pub all_named : List Call → Bool
all_named [] = true
all_named (c ∷ cs) = not (is_empty c.id) && all_named cs

abbrev pub no_calls : List Call → Bool
no_calls [] = true
no_calls (c ∷ cs) = false

unfoldable pub is_well_formed : Message → Bool
is_well_formed m =
    all_named m.calls
    && (no_calls m.calls || str_eq m.role "assistant")
    && (if str_eq m.role "tool"
        then no_calls m.calls && not (is_empty m.tool_call_id)
        else is_empty m.tool_call_id)

pub ids-append : (xs ys : List Call) → ids (xs ++ ys) ≡ ids xs ++ ids ys
ids-append [] ys = refl
ids-append (x ∷ xs) ys = ap (λ l. x.id ∷ l) (ids-append xs ys)

pub map-append : (xs ys : List Message) → map view (xs ++ ys) ≡ map view xs ++ map view ys
map-append [] ys = refl
map-append (x ∷ xs) ys = ap (λ l. view x ∷ l) (map-append xs ys)

pub count-append : (x : String) (xs ys : List String) → count x (xs ++ ys) ≡ count x xs + count x ys
unfolding count
count-append x [] ys = omega arith
count-append x (y ∷ xs) ys = omega (arith, count-append x xs ys)

pub contains-count : (x : String) (ys : List String) → contains x ys ≡ true → 1 ≤ count x ys
unfolding count contains
contains-count x [] h = absurd (cc)
contains-count x (y ∷ ys) h = ground (arith, h, contains-count x ys)

all_zero : (ys : List String) → ((x : String) → count x ys ≡ 0) → ys ≡ []
unfolding count
all_zero [] h = refl
all_zero (y ∷ ys) h =
    let q : str_eq y y ≡ true = ground (arith, eq_iff y y) in absurd (omega (arith, rw q at (h y)))

pub run-append :
    (xs ys : List Closure.Message) (s : Sets) {t : Sets}
    → Closure.run xs s ≡ inr t
    → Closure.run (xs ++ ys) s ≡ Closure.run ys t
unfolding Closure.run
run-append [] ys s h = ap (Closure.run ys) (right_inj refl h)
run-append (x ∷ xs) ys s {t = t} h = from (Closure.message x s) h (λ u e. run-append xs ys u e)
  where
    from :
        (o : Closure.Error ⊎ Sets)
        → Closure.and_then o (Closure.run xs) ≡ inr t
        → ((u : Sets) → Closure.run xs u ≡ inr t → Closure.run (xs ++ ys) u ≡ Closure.run ys t)
        → Closure.and_then o (Closure.run (xs ++ ys)) ≡ Closure.run ys t
    from (inl e) h rest = absurd (cc)
    from (inr u) h rest = rest u h

abbrev pub sets : List String → List String → Sets
sets p q = record { pending = p; seen = q }

-- The sets of the check and the variables of the loop, side by side.
pub record Synced (pending : List String) (s : State) : Type 0 where
  pub left :
      (x : String) → count x pending ≡ (if contains x s.got then 0 else count x (ids s.pending))
  pub once : (x : String) → (count x (ids s.pending) ≤ count x s.seen) × (count x s.seen ≤ 1)
  pub got_seen : (x : String) → contains x s.got ≡ true → 1 ≤ count x s.seen
  pub named : (x : String) → is_empty x ≡ true → count x s.seen ≡ 0

-- The check has accepted what was written so far, with these results still to come.
pub record Reached (pending : List String) (s : State) : Type 0 where
  pub ran : Closure.run (map view s.out) (sets [] []) ≡ inr (sets pending s.seen)
  pub synced : Synced pending s

pub waiting : (x : String) (ys : List String) → 1 ≤ count x ys → contains x ys ≡ true
waiting x ys h = elim (Bool-cases (contains x ys)) [
  | inl e ↦ e
  | inr e ↦ absurd (omega (arith, count-contains x ys e))
]

-- The result of a tool that is waited for.
module _ (m : Message) where
  pub answered :
      (pending seen : List String)
      → str_eq m.role "tool" ≡ true
      → m.calls ≡ []
      → is_empty m.tool_call_id ≡ false
      → 1 ≤ count m.tool_call_id pending
      → Closure.message (view m) (sets pending seen)
        ≡ inr (sets (remove m.tool_call_id pending) seen)
  unfolding Closure.message Closure.refused Closure.take_result Closure.add_calls view
  answered pending seen role none_called named waits =
      rw (role, none_called, named, role, named, found) refl
    where
      found : contains m.tool_call_id pending ≡ true
      found = waiting m.tool_call_id pending waits

-- `flush` answers all that is left.
pub missing-run :
    (now : ℕ) (cs : List Call) (got seen pending : List String)
    → ((x : String) → count x pending ≡ (if contains x got then 0 else count x (ids cs)))
    → ((x : String) → is_empty x ≡ true → count x (ids cs) ≡ 0)
    → Closure.run (map view (missing now cs got)) (sets pending seen) ≡ inr (sets [] seen)
unfolding missing Closure.run count
missing-run now [] got seen pending left named =
    let q : pending ≡ [] = all_zero pending λ x. ground (arith, left x) in
    ap (λ p. inr (sets p seen)) q
missing-run now (c ∷ cs) got seen pending left named = elim (Bool-cases (contains c.id got)) [
  | inl h ↦ rw h (missing-run now cs got seen pending (shut h) others)
  | inr h ↦ rw h (
      rw (answered (unknown_outcome now c) pending seen refl refl (has_id h) (waits h))
        (missing-run now cs got seen (remove c.id pending) (less h) others))
]
  where
    others : (x : String) → is_empty x ≡ true → count x (ids cs) ≡ 0
    others x e = omega (arith, named x e)

    has_id : contains c.id got ≡ false → is_empty c.id ≡ false
    has_id h = elim (Bool-cases (is_empty c.id)) [
      | inl e ↦
          let q : str_eq c.id c.id ≡ true = ground (arith, eq_iff c.id c.id) in
          absurd (omega (arith, rw q at (named c.id e)))
      | inr e ↦ e
    ]

    waits : contains c.id got ≡ false → 1 ≤ count c.id pending
    waits h =
        let q : str_eq c.id c.id ≡ true = ground (arith, eq_iff c.id c.id) in
        omega (arith, rw (h, q) at (left c.id))

    shut :
        contains c.id got ≡ true
        → (x : String) → count x pending ≡ (if contains x got then 0 else count x (ids cs))
    shut h x = elim (Bool-cases (contains x got)) [
      | inl e ↦ rw e (rw e at (left x))
      | inr e ↦ elim (Bool-cases (str_eq c.id x)) [
        | inl p ↦ let q : c.id ≡ x = ground (arith, eq_iff c.id x) in absurd (cc)
        | inr p ↦ rw e (omega (arith, rw (e, p) at (left x)))
      ]
    ]

    less :
        contains c.id got ≡ false
        → (x : String)
        → count x (remove c.id pending) ≡ (if contains x got then 0 else count x (ids cs))
    less h x =
        let one_less = count-remove x c.id pending (waiting c.id pending (waits h)) in
        elim (Bool-cases (contains x got)) [
          | inl e ↦ rw e (omega (arith, one_less, rw e at (left x)))
          | inr e ↦ rw e (omega (arith, one_less, rw e at (left x)))
        ]
