-- ===== src/Worker/Final.antt =====
-- Histories of a worker manager (internal/worker/manager.go): calls of its clients and steps of its
-- goroutines in any order.
use gopherharness.Base.{
  ℕ, ◌≡◌, ◌≢◌, ◌⊎◌, refl, sym, ◌∙◌, ap, subst, arith, String, str_eq, eq_iff, Bool, false, not,
  ◌||◌, Option, none, some, [], ◌∷◌, ltb, leb, length, if_rule, some_inj, inl, inr, Bool-cases,
}
use gopherharness.Base.Text.{blank, ne_of_test}
use gopherharness.Base.Table.{
  Table, lookup, insert, Entries, Entries-insert, sum_by, sum_by-insert, lookup-insert_ne,
  lookup-insert_self,
}
use gopherharness.Durable.{Fault}
use gopherharness.Worker.{
  Worker, Manager, ended, Error, active, Start, Started, ResultState, start, under_quota, recent,
  admitted, new_worker,
}
use gopherharness.Worker.Runs.{
  Move, acquire, give_up, release, begin, finish, return, move_worker, stored, move_found, move,
  send_to, send, stopping, stop_found, stop, stop_all, cancel_all, seal,
}
use gopherharness.Worker.Slots.{IsOk, StatusOk, holds}

-- A worker at its end, with what it came to.
pub record IsFinal (status result error : String) (w : Worker) : Type 0 where
  pub at_end : w.stage ≡ ended
  pub status_is : w.status ≡ status
  pub result_is : w.result ≡ result
  pub error_is : w.error ≡ error

abbrev pub Ended : String → String → String → String → Manager → Type 0
Ended id status result error m =
    (w : Worker) × (lookup id m.workers ≡ some w) × IsFinal status result error w

module _ (redact : String → String) (has_runner : Bool) (s : Start) where
  -- What a start does to the table of workers and to the slots.
  abbrev Placed : Manager → Manager → Type 0
  Placed m t =
      (t.slots_used ≡ m.slots_used)
      × (t.concurrency ≡ m.concurrency)
      × ((t.workers ≡ m.workers)
          ⊎ (t.workers ≡ insert s.id (new_worker s.id s.role s.prompt s.now) m.workers))

  admitted-Placed :
      (f : Option (Fault Error)) (m : Manager) (file : Option ResultState)
      → Placed m (admitted f s m file).manager
  admitted-Placed none m file = (refl, refl, inr refl)
  admitted-Placed (some e) m file = (refl, refl, inl refl)

  under_quota-Placed :
      (m : Manager) (file : Option ResultState) → Placed m (under_quota redact s m file).manager
  unfolding under_quota
  under_quota-Placed m file =
      if_rule (λ (o : Started). Placed m o.manager) (leb m.hourly_limit (length m.admissions))
        (λ a. (refl, refl, inl refl)) (λ a. admitted-Placed _ m _)

  start-Placed :
      (m : Manager) (file : Option ResultState)
      → Placed m (start redact has_runner s m file).manager
  unfolding start
  start-Placed m file =
      if_rule (λ (o : Started). Placed m o.manager) s.origin_done (λ a. (refl, refl, inl refl))
        (λ a.
          if_rule (λ (o : Started). Placed m o.manager) (blank s.prompt)
            (λ b. (refl, refl, inl refl))
            (λ b.
              if_rule (λ (o : Started). Placed m o.manager) (m.closed || m.over)
                (λ c. (refl, refl, inl refl))
                (λ c.
                  if_rule (λ (o : Started). Placed m o.manager) (not has_runner)
                    (λ d. (refl, refl, inl refl))
                    (λ d.
                      under_quota-Placed (record m { admissions = recent s.now m.admissions })
                        file))))

  pub start-IsOk :
      (m : Manager) (file : Option ResultState)
      → lookup s.id m.workers ≡ none
      → IsOk m
      → IsOk (start redact has_runner s m file).manager
  start-IsOk m file fresh ok =
      let (used, size, ws) = start-Placed m file in
      let t = (start redact has_runner s m file).manager in
      elim ws [
        | inl q ↦ record {
          statuses = subst (λ x. Entries (λ k w. StatusOk w) x) (sym q) ok.statuses;
          exact = omega (arith, used, ok.exact, ap (sum_by holds) q);
          fits = omega (arith, used, size, ok.fits);
        }
        | inr q ↦ record {
          statuses =
              subst (λ x. Entries (λ k w. StatusOk w) x) (sym q)
                (Entries-insert (λ k (w : Worker). StatusOk w) s.id w0 m.workers refl ok.statuses);
          exact = omega (
            arith,
            used,
            ok.exact,
            ap (sum_by holds) q,
            (rw fresh at (sum_by-insert holds s.id w0 m.workers)),
          );
          fits = omega (arith, used, size, ok.fits);
        }
      ]
    where
      w0 : Worker
      w0 = new_worker s.id s.role s.prompt s.now

  pub start-Ended :
      (id st r er : String) (m : Manager) (file : Option ResultState)
      → lookup s.id m.workers ≡ none
      → Ended id st r er m
      → Ended id st r er (start redact has_runner s m file).manager
  start-Ended id st r er m file fresh (w, found, e) =
      let (used, size, ws) = start-Placed m file in
      let other : s.id ≢ id = λ q. cc (fresh, found, q) in
      elim ws [
        | inl q ↦ (w, ap (lookup id) q ∙ found, e)
        | inr q ↦ (
          w,
          ap (lookup id) q
              ∙ lookup-insert_ne s.id id (new_worker s.id s.role s.prompt s.now) m.workers other
              ∙ found,
          e,
        )
      ]

module _ (id st r er : String) (over_now : active st ≡ false) where
  -- A worker at its end takes no step.
  no_step :
      (v : Move) (over : Bool) (used size : ℕ) (w : Worker)
      → w.stage ≡ ended
      → move_worker v over used size w ≡ none
  unfolding move_worker
  no_step acquire over used size w e = rw e refl
  no_step give_up over used size w e = rw e refl
  no_step (begin now) over used size w e = rw e refl
  no_step (return x y) over used size w e = rw e refl
  no_step release over used size w e = rw e refl
  no_step (finish now) over used size w e = rw e refl

  other-Ended :
      (k : String) (w : Worker) (m : Manager) (n : ℕ)
      → k ≢ id
      → Ended id st r er m
      → Ended id st r er (record m { workers = insert k w m.workers; slots_used = n })
  other-Ended k w m n ne (x, found, e) = (x, lookup-insert_ne k id w m.workers ne ∙ found, e)

  same-Ended :
      (k : String) (w : Worker) (m : Manager) (n : ℕ)
      → k ≡ id
      → IsFinal st r er w
      → Ended id st r er (record m { workers = insert k w m.workers; slots_used = n })
  same-Ended k w m n q e = (
    w,
    subst (λ x. lookup x (insert k w m.workers) ≡ some w) q (lookup-insert_self k w m.workers),
    e,
  )

  -- The worker under a name that is the one in question.
  found_same :
      (k : String) (m : Manager) {w x : Worker}
      → k ≡ id
      → lookup k m.workers ≡ some w
      → lookup id m.workers ≡ some x
      → w ≡ x
  found_same k m p q found = some_inj (sym q ∙ ap (λ z. lookup z m.workers) p ∙ found)

  pub move-Ended :
      (v : Move) (k : String) (m : Manager) {t : Manager}
      → Ended id st r er m
      → move v k m ≡ some t
      → Ended id st r er t
  unfolding move
  move-Ended v k m {t = t} (x, found, e) h = elim (Bool-cases (str_eq k id)) [
    | inl q ↦ stuck (lookup k m.workers) (ground (arith, eq_iff k id)) refl h
    | inr q ↦ other (lookup k m.workers) (ne_of_test k id q) h
  ]
    where
      placed : (o : Option (Worker × ℕ)) → k ≢ id → stored o k m ≡ some t → Ended id st r er t
      placed none ne h = absurd (cc)
      placed (some (w, n)) ne h =
          subst (Ended id st r er) (some_inj h) (other-Ended k w m n ne (x, found, e))

      stuck :
          (o : Option Worker)
          → k ≡ id
          → lookup k m.workers ≡ o
          → move_found o v k m ≡ some t
          → Ended id st r er t
      stuck none p y h = absurd (cc)
      stuck (some w) p y h =
          let at_rest : w.stage ≡ ended =
            ap (λ (z : Worker). z.stage) (found_same k m p y found) ∙ e.at_end in
          absurd (cc (h, no_step v m.over m.slots_used m.concurrency w at_rest))

      other : (o : Option Worker) → k ≢ id → move_found o v k m ≡ some t → Ended id st r er t
      other none ne h = absurd (cc)
      other (some w) ne h = placed (move_worker v m.over m.slots_used m.concurrency w) ne h

  pub send-Ended :
      (k message : String) (m : Manager)
      → Ended id st r er m
      → Ended id st r er (send k message m).1
  unfolding send
  send-Ended k message m (x, found, e) = from (lookup k m.workers) refl
    where
      from :
          (o : Option Worker) → lookup k m.workers ≡ o → Ended id st r er (send_to o k message m).1
      from none q = (x, found, e)
      from (some w) q =
          if_rule (λ (p : Option Error × Manager). Ended id st r er p.1)
            (m.closed || not (str_eq w.status "running" || str_eq w.status "queued"))
            (λ a. (x, found, e))
            (λ a.
              if_rule (λ (p : Option Error × Manager). Ended id st r er p.1)
                (ltb (length w.inbox) 50)
                (λ b.
                  other-Ended k _ m m.slots_used
                    (λ p.
                      let was : w.status ≡ st =
                        ap (λ (z : Worker). z.status) (found_same k m p q found) ∙ e.status_is in
                      ground (arith, over_now, was, a))
                    (x, found, e))
                (λ b. (x, found, e)))

  stopping_ended : (w : Worker) → w.status ≡ st → stopping w ≡ w
  unfolding stopping
  stopping_ended w q = ground (arith, over_now, q)

  pub stop-Ended : (k : String) (m : Manager) → Ended id st r er m → Ended id st r er (stop k m).1
  unfolding stop
  stop-Ended k m (x, found, e) = from (lookup k m.workers) refl
    where
      from : (o : Option Worker) → lookup k m.workers ≡ o → Ended id st r er (stop_found o k m).1
      from none q = (x, found, e)
      from (some w) q = elim (Bool-cases (str_eq k id)) [
        | inl p ↦
            let p' : k ≡ id = ground (arith, eq_iff k id) in
            let w_is_x = found_same k m p' q found in
            let was : w.status ≡ st = ap (λ (z : Worker). z.status) w_is_x ∙ e.status_is in
            same-Ended k (stopping w) m m.slots_used p'
              (subst (IsFinal st r er) (sym (stopping_ended w was ∙ w_is_x)) e)
        | inr p ↦ other-Ended k (stopping w) m m.slots_used (ne_of_test k id p) (x, found, e)
      ]

  stop_all-Ended :
      (ws : Table Worker) {w : Worker}
      → lookup id ws ≡ some w
      → w.status ≡ st
      → lookup id (stop_all ws) ≡ some w
  unfolding stop_all lookup
  stop_all-Ended [] h e = h
  stop_all-Ended ((k, x) ∷ ws) {w = w} h e = elim (Bool-cases (str_eq k id)) [
    | inl p ↦
        let x_is_w : x ≡ w = some_inj (rw p at h) in
        rw p (ap some (stopping_ended x (ap (λ (z : Worker). z.status) x_is_w ∙ e) ∙ x_is_w))
    | inr p ↦ rw p (stop_all-Ended ws (rw p at h) e)
  ]

  pub cancel_all-Ended : (m : Manager) → Ended id st r er m → Ended id st r er (cancel_all m)
  unfolding cancel_all
  cancel_all-Ended m (x, found, e) = (x, stop_all-Ended m.workers found e.status_is, e)

  pub seal-Ended : (m : Manager) → Ended id st r er m → Ended id st r er (seal m)
  unfolding seal
  seal-Ended m (x, found, e) = (x, stop_all-Ended m.workers found e.status_is, e)
