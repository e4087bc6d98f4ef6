-- ===== src/Recovery/Kept.antt =====
-- Steps of internal/runtime/recovery.go that repair nothing.
use gopherharness.Base.{
  ℕ, ◌≡◌, inl, inr, refl, sym, ap, subst, arith, String, str_eq, eq_iff, true, false, not, ◌&&◌,
  ◌||◌, Option, some, List, [], ◌∷◌, ◌++◌, is_empty, if◌then◌else◌, if_cases, some_inj, Bool-cases,
  if_rule,
}
use gopherharness.Closure
use gopherharness.Closure.{Sets, contains, remove, none_left, validate_closure, verdict}
use gopherharness.Closure.Balance.{count}
use gopherharness.Recovery.{
  Call, Message, ids, State, missing, flush, added, add_calls, take_receipt, view,
}
use gopherharness.Recovery.Sync.{sets, Synced, waiting, contains-count}
use gopherharness.Recovery.Calls.{added-Synced, got-Synced}

-- A step that repairs nothing.
pub record Kept (s t : State) (more : List Message) (q : List String) : Type 0 where
  pub synced : Synced q t
  pub out : t.out ≡ s.out ++ more
  pub repaired : t.repaired ≡ s.repaired

pub append_none : (xs : List Message) → xs ≡ xs ++ []
append_none [] = refl
append_none (x ∷ xs) = ap (λ l. x ∷ l) (append_none xs)

none_missing :
    (now : ℕ) (cs : List Call) (got : List String)
    → ((x : String) → (if contains x got then 0 else count x (ids cs)) ≡ 0)
    → missing now cs got ≡ []
unfolding missing count
none_missing now [] got h = refl
none_missing now (c ∷ cs) got h = elim (Bool-cases (contains c.id got)) [
  | inl e ↦ rw e (
      none_missing now cs got
        λ x. if_rule (λ n. n ≡ 0) (contains x got) (λ _. refl) λ f. omega (arith, rw f at (h x)))
  | inr e ↦
      let q : str_eq c.id c.id ≡ true = ground (arith, eq_iff c.id c.id) in
      absurd (omega (arith, rw (e, q) at (h c.id)))
]

pub flush-Kept : (now : ℕ) (s : State) → Synced [] s → Kept s (flush now s) [] []
unfolding flush count contains
flush-Kept now s y =
    let q : missing now s.pending s.got ≡ [] =
      none_missing now s.pending s.got λ x. sym (y.left x) in
    record {
      synced = record {
        left = λ x. refl;
        once = λ x. (omega arith, (y.once x).1);
        got_seen = λ x e. absurd (cc);
        named = y.named;
      };
      out = ap (λ l. s.out ++ l) q;
      repaired = rw q (omega arith);
    }

some_inj_sets : {v : Option Sets} {s t : Sets} → v ≡ some s → v ≡ some t → s ≡ t
some_inj_sets p q = cc

pub add_calls-Kept :
    (cs : List Call) (p : List String) (s : State) {v : Sets}
    → Closure.add_calls (ids cs) (sets p s.seen) ≡ some v
    → Synced p s
    → (t : State) × (add_calls cs s ≡ inr t) × (v ≡ sets v.pending t.seen) × Kept s t [] v.pending
unfolding add_calls Closure.add_calls
add_calls-Kept [] p s {v = v} h y =
    let q : sets p s.seen ≡ v = some_inj_sets refl h in
    (
      s,
      refl,
      subst (λ v. v ≡ sets v.pending s.seen) q refl,
      subst (λ v. Kept s s [] v.pending) q
          (record { synced = y; out = append_none s.out; repaired = refl }),
    )
add_calls-Kept (c ∷ cs) p s {v = v} h y =
    elim (if_cases (is_empty c.id || contains c.id s.seen) h) [
      | inl (b, e) ↦ absurd (cc)
      | inr (b, e) ↦
          let has_id : is_empty c.id ≡ false = ground (arith, b) in
          let is_new : contains c.id s.seen ≡ false = ground (arith, b) in
          let (t, done, to, kept) =
            add_calls-Kept cs (c.id ∷ p) (added c s) e (added-Synced c s has_id is_new p y) in
          (
            t,
            rw (has_id, is_new) done,
            to,
            record { synced = kept.synced; out = kept.out; repaired = kept.repaired },
          )
    ]

pub take_receipt-Kept :
    (m : Message) (p : List String) (s : State) {q : List String}
    → Closure.take_result (view m) p ≡ some q
    → Synced p s
    → (t : State) × (take_receipt m s ≡ inr t) × (t.seen ≡ s.seen) × Kept s t [] q
unfolding take_receipt Closure.take_result view
take_receipt-Kept m p s {q = q} h y = elim (if_cases (is_empty m.tool_call_id) h) [
  | inl (b, e) ↦
      let to : p ≡ q = some_inj e in
      (
        s,
        if_rule (λ r. r ≡ inr s) (str_eq m.role "tool" && not (is_empty m.tool_call_id))
            (λ f. absurd (ground (arith, b, f))) (λ _. refl),
        refl,
        record { synced = subst (λ q. Synced q s) to y; out = append_none s.out; repaired = refl },
      )
  | inr (b, e) ↦ elim (if_cases (not (str_eq m.role "tool") || not (contains m.tool_call_id p)) e) [
    | inl (c, d) ↦ absurd (cc)
    | inr (c, d) ↦ received b (ground (arith, c)) (ground (arith, c)) (some_inj d)
  ]
]
  where
    received :
        is_empty m.tool_call_id ≡ false
        → str_eq m.role "tool" ≡ true
        → contains m.tool_call_id p ≡ true
        → remove m.tool_call_id p ≡ q
        → (t : State) × (take_receipt m s ≡ inr t) × (t.seen ≡ s.seen) × Kept s t [] q
    received b role waits to =
        let some_left = contains-count m.tool_call_id p waits in
        let is_new : contains m.tool_call_id s.got ≡ false =
          elim (Bool-cases (contains m.tool_call_id s.got)) [
            | inl g ↦ absurd (omega (arith, some_left, rw g at (y.left m.tool_call_id)))
            | inr g ↦ g
          ] in
        let called =
          waiting m.tool_call_id (ids s.pending)
            (omega (arith, some_left, rw is_new at (y.left m.tool_call_id))) in
        (
          record s { got = m.tool_call_id ∷ s.got },
          taken b role called is_new,
          refl,
          record {
            synced =
                subst (λ q. Synced q (record s { got = m.tool_call_id ∷ s.got })) to
                  (got-Synced m.tool_call_id p s called is_new y);
            out = append_none s.out;
            repaired = refl;
          },
        )
      where
        taken :
            is_empty m.tool_call_id ≡ false
            → str_eq m.role "tool" ≡ true
            → contains m.tool_call_id (ids s.pending) ≡ true
            → contains m.tool_call_id s.got ≡ false
            → take_receipt m s ≡ inr (record s { got = m.tool_call_id ∷ s.got })
        taken b role called is_new = rw (role, b, called, is_new) refl
