-- ===== src/Gateway/Kept.antt =====
-- Transactions of internal/journal/journal.go keep a started inbound entry started.
use gopherharness.Base.{
  ℕ, ◌≡◌, ◌≢◌, ◌⊎◌, refl, sym, ap, ◌∙◌, subst, arith, String, str_eq, eq_iff, Option, some, if_rule,
  Bool-cases, inl, inr, is_some,
}
use gopherharness.Base.Text.{ne_of_test}
use gopherharness.Base.Table.{lookup, insert, lookup-insert_self, lookup-insert_ne}
use gopherharness.Durable.Atomic.{Keeps, Keeps-intro}
use gopherharness.Journal.{State, Entry, Payload, key, put, move, moved, complete, new_entry}
use gopherharness.Journal.Lifecycle.{move_lem, inbox-ne-outbox}
use gopherharness.Journal.Publish.{completed}
use gopherharness.Gateway.Starts.{Started}

-- A write of an entry that is not pending, under any key, keeps what is started started.
write-Started :
    (k j : String) (x : Entry) (s : State)
    → x.state ≢ "pending"
    → Started k s
    → Started k (record s { entries = insert j x s.entries })
write-Started k j x s ne (e, found, st) = elim (Bool-cases (str_eq j (key "inbox" k))) [
  | inl t ↦
      let same : j ≡ key "inbox" k = (eq_iff j (key "inbox" k)).0 t in
      (
        x,
        subst (λ i. lookup i (insert j x s.entries) ≡ some x) same
            (lookup-insert_self j x s.entries),
        ne,
      )
  | inr t ↦ (
    e,
    lookup-insert_ne j (key "inbox" k) x s.entries (ne_of_test j (key "inbox" k) t) ∙ found,
    st,
  )
]

-- A write elsewhere.
beside-Started :
    (k j : String) (x : Entry) (s : State)
    → j ≢ key "inbox" k
    → Started k s
    → Started k (record s { entries = insert j x s.entries })
beside-Started k j x s ne (e, found, st) =
    (e, lookup-insert_ne j (key "inbox" k) x s.entries ne ∙ found, st)

pub put-Keeps :
    (epoch : ℕ) (k j : String) (p : Payload) (now : ℕ) (s : State)
    → Started k s
    → Keeps (Started k) (put epoch "inbox" j p now s)
unfolding put
put-Keeps epoch k j p now s (e, found, st) =
    if_rule (Keeps (Started k)) (is_some (lookup (key "inbox" j) s.entries)) (λ _. (e, found, st))
      (λ free.
        beside-Started k (key "inbox" j) (new_entry "inbox" j p epoch now) s
          (λ q.
            let there : lookup (key "inbox" j) s.entries ≡ some e =
              ap (λ i. lookup i s.entries) q ∙ found in
            absurd (ground (arith, there, free)))
          (e, found, st))

pub move-Keeps :
    (k j from to : String) (r : Option Payload) (now : ℕ) (s : State)
    → (to ≢ "pending") ⊎ (key "inbox" j ≢ key "inbox" k)
    → Started k s
    → Keeps (Started k) (move "inbox" j from to r now s)
move-Keeps k j from to r now s how h =
    Keeps-intro (Started k) (move "inbox" j from to r now s) λ a t q.
      let (e, found, was, same) = move_lem "inbox" j from to r now s q in
      subst (Started k) (sym same) (written how e)
  where
    written :
        (to ≢ "pending") ⊎ (key "inbox" j ≢ key "inbox" k)
        → (e : Entry)
        → Started k (record s { entries = insert (key "inbox" j) (moved e to r now) s.entries })
    written (inl ne) e = write-Started k (key "inbox" j) (moved e to r now) s ne h
    written (inr ne) e = beside-Started k (key "inbox" j) (moved e to r now) s ne h

pub complete-Keeps :
    (epoch : ℕ) (k j : String) (m : Payload) (now : ℕ) (s : State)
    → Started k s
    → Keeps (Started k) (complete epoch j m now s)
complete-Keeps epoch k j m now s h = Keeps-intro (Started k) (complete epoch j m now s) λ a t q.
    let (e, found, was, same) = completed epoch j m now s q in
    let x = moved e "completed" (some m) now in
    let one : Started k (record s { entries = insert (key "inbox" j) x s.entries }) =
      write-Started k (key "inbox" j) x s (ne_of_test "completed" "pending" refl) h in
    let (y, there, st) =
      beside-Started k (key "outbox" j) (new_entry "outbox" j m epoch now)
        (record s { entries = insert (key "inbox" j) x s.entries })
        (λ p. inbox-ne-outbox k j (sym p)) one in
    (y, rw same there, st)
