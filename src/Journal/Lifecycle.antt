-- ===== src/Journal/Lifecycle.antt =====
-- What the changes of internal/journal/journal.go do to an entry and to the others.
use gopherharness.Base.{
  ℕ, ◌+◌, ◌%◌, ◌≡◌, ◌≢◌, ◌⊎◌, refl, ap, String, str_eq, eq_iff, Bool, Option, none, some, false,
  arith, inl, inr, Option-cases, if_rule, [], ◌∷◌,
}
use text.Mathlib.TextLemmas.{append_cancel_left, cons-append}
use Prim.Native.Char.{code}
use Prim.Native.String.{◌++◌ as append}
use mathlib.Core.Option
use gopherharness.Base.Text.{ne_of_test}
use gopherharness.Base.Table.{Table, lookup, insert, lookup-insert_self}
use gopherharness.Durable.{accept, refuse}
use gopherharness.Journal.{
  State, Entry, Payload, key, interrupted, reopen, open_journal, put, move, new_entry, moved,
  rejected,
}

first : String → ℕ
first String.[] = 0
first (String.◌∷◌ c s) = code c

pub inbox-ne-outbox : (a b : String) → key "inbox" a ≢ key "outbox" b
unfolding key first
inbox-ne-outbox a b h =
    let i : first (key "inbox" a) ≡ b'i' = ap first (cons-append "i" "nbox" (append ":" a)) in
    let o : first (key "outbox" b) ≡ b'o' = ap first (cons-append "o" "utbox" (append ":" b)) in
    absurd (omega (arith, ap first h))

key-inj : (kind a b : String) → key kind a ≡ key kind b → a ≡ b
unfolding key
key-inj kind a b h =
    append_cancel_left ":" a b (append_cancel_left kind (append ":" a) (append ":" b) h)

-- Reopening keeps every entry under its key, with its payload and result, and moves what was in
-- progress to its unresolved state.
reopened : ℕ → Entry → Entry
reopened n e = record e { state = interrupted e.state; epoch = n }

lookup-reopen :
    (n : ℕ) (k : String) (m : Table Entry)
    → lookup k (reopen n m) ≡ Option.map (reopened n) (lookup k m)
unfolding reopen lookup reopened
lookup-reopen n k [] = refl
lookup-reopen n k ((j, e) ∷ m) = ground (arith, lookup-reopen n k m)

abbrev pub IsIdle : String → Type 0
IsIdle st = (st ≢ "running") × (st ≢ "sending")

interrupted-IsIdle : (st : String) → IsIdle (interrupted st)
unfolding interrupted
interrupted-IsIdle st =
    if_rule IsIdle (str_eq st "running")
      (λ _.
        (ne_of_test "needs_reconcile" "running" refl, ne_of_test "needs_reconcile" "sending" refl))
      λ r.
        if_rule IsIdle (str_eq st "sending")
          (λ _. (ne_of_test "unknown" "running" refl, ne_of_test "unknown" "sending" refl))
          (λ q. (ne_of_test st "running" r, ne_of_test st "sending" q))

-- A state that was kept, or what was in progress and is unresolved now.
abbrev pub Carried : String → String → Type 0
Carried old new =
    (new ≡ old)
    ⊎ (((old ≡ "running") × (new ≡ "needs_reconcile")) ⊎ ((old ≡ "sending") × (new ≡ "unknown")))

interrupted-Carried : (st : String) → Carried st (interrupted st)
unfolding interrupted
interrupted-Carried st =
    if_rule (Carried st) (str_eq st "running")
      (λ r. inr (inl (ground (arith, eq_iff st "running"), refl)))
      λ _.
        if_rule (Carried st) (str_eq st "sending")
          (λ q. inr (inr (ground (arith, eq_iff st "sending"), refl))) (λ _. inl refl)

-- What the open journal holds under a key.
abbrev pub Reopened : Option Entry → Option Entry → Type 0
Reopened none now = now ≡ none
Reopened (some e) now =
    (e' : Entry) × (now ≡ some e')
    × IsIdle e'.state
    × Carried e.state e'.state
    × (e'.payload ≡ e.payload)
    × (e'.result ≡ e.result)
    × (e'.resolutions ≡ e.resolutions)

-- Opening the journal keeps every entry under its key with its payload, its result and its
-- resolutions; what was running or sending is in neither state any more, and other states are kept.
pub open-Reopened :
    (s : State) (k : String) {n : ℕ} {s' : State}
    → open_journal s ≡ accept n s'
    → Reopened (lookup k s.entries) (lookup k s'.entries)
unfolding open_journal reopened
open-Reopened s k {n = n} {s' = s'} h =
    let next = (s.epoch + 1) % 18446744073709551616 in
    let same : s'.entries ≡ reopen next s.entries = ground arith in
    rw (same, lookup-reopen next k s.entries) (at_entry next (lookup k s.entries))
  where
    at_entry : (n : ℕ) (o : Option Entry) → Reopened o (Option.map (reopened n) o)
    at_entry n none = refl
    at_entry n (some e) = (
      reopened n e,
      refl,
      interrupted-IsIdle e.state,
      interrupted-Carried e.state,
      refl,
      refl,
      refl,
    )

-- A second `Put` under a key creates nothing and changes nothing, whatever its payload.
pub put_twice :
    (epoch epoch' : ℕ) (kind id : String) (p p' : Payload) (t t' : ℕ) (s : State) {b : Bool}
    {s' : State}
    → put epoch kind id p t s ≡ accept b s'
    → put epoch' kind id p' t' s' ≡ accept false s'
unfolding put
put_twice epoch epoch' kind id p p' t t' s {b = b} {s' = s'} h =
    ground (arith, lookup-insert_self (key kind id) (new_entry kind id p epoch t) s.entries)

-- A transition that was made cannot be made again: of two claims of one entry from the same state to
-- another, the second is refused.
pub move_once :
    (kind id from to from' to' : String) (r r' : Option Payload) (t t' : ℕ) (s : State) {s' : State}
    → from' ≢ to
    → move kind id from to r t s ≡ accept tt s'
    → move kind id from' to' r' t' s' ≡ refuse rejected
unfolding move
move_once kind id from to from' to' r r' t t' s {s' = s'} ne h =
    elim (Option-cases (lookup (key kind id) s.entries)) [
      | inl q ↦ absurd (ground arith)
      | inr (e, q) ↦
          let e' = moved e to r t in
          let now : lookup (key kind id) s'.entries ≡ some e' =
            ground (arith, lookup-insert_self (key kind id) e' s.entries) in
          rw now (ground (arith, eq_iff to from'))
    ]

-- The entry under a key after an accepted `Move` is the old one with the new state and result; every
-- other entry is as it was, and the old one was in the state that the caller named.
pub move_lem :
    (kind id from to : String) (r : Option Payload) (t : ℕ) (s : State) {s' : State}
    → move kind id from to r t s ≡ accept tt s'
    → (e : Entry) × (lookup (key kind id) s.entries ≡ some e)
      × (e.state ≡ from)
      × (s' ≡ record s { entries = insert (key kind id) (moved e to r t) s.entries })
unfolding move
move_lem kind id from to r t s {s' = s'} h = elim (Option-cases (lookup (key kind id) s.entries)) [
  | inl q ↦ absurd (ground arith)
  | inr (e, q) ↦ (e, q, ground (arith, eq_iff e.state from), ground (arith, eq_iff e.state from))
]
