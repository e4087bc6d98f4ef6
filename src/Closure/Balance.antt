-- ===== src/Closure/Balance.antt =====
-- What internal/contextbuilder/closure.go accepts: calls and results that match one by one.
use gopherharness.Base.{
  ℕ, ◌+◌, ◌≤◌, ◌≡◌, ◌⊎◌, inl, inr, refl, sym, ◌∙◌, ap, subst, arith, String, str_eq, eq_iff, true,
  false, not, ◌||◌, Option, none, some, List, [], ◌∷◌, is_empty, if◌then◌else◌, if_cases, some_inj,
  Bool-cases,
}
use gopherharness.Closure.{
  Message, Error, incomplete, Sets, contains, remove, none_left, add_calls, take_result, refused,
  set_pending, after_result, after_calls, after_guards, message, and_then, run, verdict,
  validate_closure,
}

-- How often an id stands in a list, how often it is called, and how often it is answered.
unfoldable pub count : String → List String → ℕ
count x [] = 0
count x (y ∷ ys) = (if str_eq y x then 1 else 0) + count x ys

unfoldable pub calls : String → List Message → ℕ
calls x [] = 0
calls x (m ∷ ms) = count x m.tool_calls + calls x ms

abbrev answer : String → Message → ℕ
answer x m = if is_empty m.tool_call_id then 0 else (if str_eq m.tool_call_id x then 1 else 0)

unfoldable pub answers : String → List Message → ℕ
answers x [] = 0
answers x (m ∷ ms) = answer x m + answers x ms

pub right_inj : {v : Error ⊎ Sets} {s t : Sets} → v ≡ inr s → v ≡ inr t → s ≡ t
right_inj p q = cc

module _ (x : String) where
  all_taken :
      (p : List String) → (if none_left p then none else some incomplete) ≡ none → count x p ≡ 0
  unfolding count
  all_taken [] h = refl
  all_taken (y ∷ p) h = absurd (cc)

  pub count-remove :
      (y : String) (ys : List String)
      → contains y ys ≡ true
      → count x (remove y ys) + (if str_eq y x then 1 else 0) ≡ count x ys
  unfolding count remove contains
  count-remove y [] h = absurd (cc)
  count-remove y (z ∷ ys) h = elim (Bool-cases (str_eq z y)) [
    | inl p ↦ let q : z ≡ y = ground (arith, eq_iff z y) in rw (p, q) (omega arith)
    | inr p ↦ rw p (omega (arith, count-remove y ys (rw p at h)))
  ]

  pub count-contains : (ys : List String) → contains x ys ≡ false → count x ys ≡ 0
  unfolding count contains
  count-contains [] h = refl
  count-contains (y ∷ ys) h = ground (arith, h, count-contains ys)

  -- What the calls of a message add.
  add_calls-count :
      (cs : List String) (s : Sets) {t : Sets}
      → add_calls cs s ≡ some t
      → (count x t.pending ≡ count x cs + count x s.pending)
        × (count x t.seen ≡ count x cs + count x s.seen)
        × (count x s.seen ≤ 1 → count x t.seen ≤ 1)
  unfolding add_calls count
  add_calls-count [] s h =
      subst
        (λ (t : Sets).
          (count x t.pending ≡ 0 + count x s.pending)
          × (count x t.seen ≡ 0 + count x s.seen)
          × (count x s.seen ≤ 1 → count x t.seen ≤ 1))
        (some_inj h) (omega arith, omega arith, λ le. le)
  add_calls-count (c ∷ cs) s {t = t} h = elim (if_cases (is_empty c || contains c s.seen) h) [
    | inl (b, e) ↦ absurd (cc)
    | inr (b, e) ↦
        let next : Sets = record { pending = c ∷ s.pending; seen = c ∷ s.seen } in
        let (pending, seen, once) = add_calls-count cs next e in
        (
          omega (arith, pending),
          omega (arith, seen),
          λ le. once (new_once c s.seen (ground (arith, b)) le),
        )
  ]
    where
      new_once :
          (c : String) (ys : List String)
          → contains c ys ≡ false
          → count x ys ≤ 1
          → count x (c ∷ ys) ≤ 1
      new_once c ys b le = elim (Bool-cases (str_eq c x)) [
        | inl p ↦
            let q : c ≡ x = ground (arith, eq_iff c x) in
            let none_yet : count x ys ≡ 0 =
              count-contains ys (subst (λ y. contains y ys ≡ false) q b) in
            rw p (omega (arith, none_yet))
        | inr p ↦ rw p (omega (arith, le))
      ]

  -- What a message moves.
  abbrev pub Moves : List Message → Sets → Sets → Type 0
  Moves ms s t =
      (count x t.pending + answers x ms ≡ calls x ms + count x s.pending)
      × (count x t.seen ≡ calls x ms + count x s.seen)
      × (count x s.seen ≤ 1 → count x t.seen ≤ 1)

  take_result-count :
      (m : Message) (q : List String) {p : List String}
      → take_result m q ≡ some p
      → count x p + answer x m ≡ count x q
  unfolding take_result
  take_result-count m q {p = p} h = elim (if_cases (is_empty m.tool_call_id) h) [
    | inl (b, e) ↦ omega (arith, ap (count x) (some_inj e), no_answer b)
    | inr (b, e) ↦
        elim (if_cases (not (str_eq m.role "tool") || not (contains m.tool_call_id q)) e) [
          | inl (c, d) ↦ absurd (cc)
          | inr (c, d) ↦ omega (
            arith,
            ap (count x) (some_inj d),
            one_answer b,
            count-remove m.tool_call_id q (ground (arith, c)),
          )
        ]
  ]
    where
      no_answer : is_empty m.tool_call_id ≡ true → answer x m ≡ 0
      no_answer b = rw b refl

      one_answer :
          is_empty m.tool_call_id ≡ false → answer x m ≡ (if str_eq m.tool_call_id x then 1 else 0)
      one_answer b = rw b refl

  taken :
      (m : Message) (s : Sets) (o : Option (List String)) {t : Sets}
      → take_result m s.pending ≡ o
      → after_result o s ≡ inr t
      → (count x t.pending + answer x m ≡ count x s.pending) × (t.seen ≡ s.seen)
  unfolding take_result
  taken m s none e h = absurd (cc)
  taken m s (some p) {t = t} e h =
      let to : set_pending p s ≡ t = right_inj refl h in
      (
        ap (λ (z : Sets). count x z.pending + answer x m) (sym to)
            ∙ take_result-count m s.pending e,
        ap (λ (z : Sets). z.seen) (sym to),
      )

  message-Moves : (m : Message) (s : Sets) {t : Sets} → message m s ≡ inr t → Moves (m ∷ []) s t
  unfolding message answers calls
  message-Moves m s {t = t} h = guarded (refused m s.pending) h
    where
      called :
          (o : Option Sets)
          → add_calls m.tool_calls s ≡ o
          → after_calls o m ≡ inr t
          → Moves (m ∷ []) s t
      called none e h = absurd (cc)
      called (some u) e h =
          let (pending, seen, once) = add_calls-count m.tool_calls s e in
          let (sum, same) = taken m u (take_result m u.pending) refl h in
          (
            omega (arith, pending, sum),
            omega (arith, seen, ap (count x) same),
            λ le. subst (λ z. count x z ≤ 1) (sym same) (once le),
          )

      guarded : (o : Option Error) → after_guards o m s ≡ inr t → Moves (m ∷ []) s t
      guarded (some e) h = absurd (cc)
      guarded none h = called (add_calls m.tool_calls s) refl h

  pub run-Moves : (ms : List Message) (s : Sets) {t : Sets} → run ms s ≡ inr t → Moves ms s t
  unfolding run answers calls
  run-Moves [] s {t = t} h =
      let q : s ≡ t = right_inj refl h in
      subst (λ z. Moves [] s z) q (omega arith, omega arith, λ le. le)
  run-Moves (m ∷ ms) s {t = t} h = from (message m s) refl h (λ u e. run-Moves ms u e)
    where
      from :
          (o : Error ⊎ Sets)
          → message m s ≡ o
          → and_then o (run ms) ≡ inr t
          → ((u : Sets) → run ms u ≡ inr t → Moves ms u t)
          → Moves (m ∷ ms) s t
      from (inl e) q h rest = absurd (cc)
      from (inr u) q h rest =
          let (sum, seen, once) = message-Moves m s q in
          let (sum', seen', once') = rest u h in
          (omega (arith, sum, sum'), omega (arith, seen, seen'), λ le. once' (once le))

  -- Of messages that are accepted, each id is called at most once and answered exactly as often as it
  -- is called.
  pub validate_closure-calls :
      (ms : List Message)
      → validate_closure ms ≡ none
      → (answers x ms ≡ calls x ms) × (calls x ms ≤ 1)
  unfolding validate_closure count
  validate_closure-calls ms h = from (run ms start) refl h
    where
      start : Sets
      start = record { pending = []; seen = [] }

      from :
          (o : Error ⊎ Sets)
          → run ms start ≡ o
          → verdict o ≡ none
          → (answers x ms ≡ calls x ms) × (calls x ms ≤ 1)
      from (inl e) q h = absurd (cc)
      from (inr t) q h =
          let (sum, seen, once) = run-Moves ms start q in
          let left : count x t.pending ≡ 0 = all_taken t.pending h in
          (omega (arith, sum, left), omega (arith, seen, once (omega arith)))
