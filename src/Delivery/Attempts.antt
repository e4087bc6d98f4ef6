-- ===== src/Delivery/Attempts.antt =====
-- What the loop of `send` in internal/delivery/hub.go risks and reports.
use gopherharness.Base.{
  ℕ, zero, suc, ◌+◌, ◌≤◌, ◌<◌, ◌≡◌, ◌⊎◌, refl, ap, subst, inl, inr, arith, String, Bool, true,
  false, not, ◌&&◌, ◌||◌, is_empty, if_rule, Bool-cases,
}
use gopherharness.Delivery.{
  Receipt, SendError, Reply, sent, failed, Record, Turn, stop, again, counted, unknown, failure,
  attempt, World, record_of, next_turn, tries,
}

-- A reply that certainly left nothing at the other side: a definitive rejection.
abbrev pub Rejects : Reply → Type 0
Rejects (sent p) = ⊥
Rejects (failed e) = (e.rejected ≡ true) × (e.uncertain ≡ false) × (e.terminal ≡ false)

-- A reply that does not tell what became of the message: no receipt, or an error that is
-- uncertain or not terminal.
abbrev pub Doubtful : Reply → Type 0
Doubtful (sent p) = is_empty p.message ≡ true
Doubtful (failed e) = (e.uncertain ≡ true) ⊎ (e.terminal ≡ false)

-- How a loop may end with the record q, its last reply being p, after it began with the outcome o:
-- with the receipt of that reply; with an outcome that is not known, as the reply left it in doubt; or
-- with a terminal error.
abbrev pub Ends : Reply → String → Record → Type 0
Ends p o q =
    ((q.outcome ≡ "delivered")
      × ((x : Receipt) × (p ≡ sent x) × (q.receipt ≡ x) × (is_empty x.message ≡ false)))
    ⊎ (((q.outcome ≡ "unknown") × Doubtful p)
        ⊎ ((q.outcome ≡ o)
            × ((e : SendError) × (p ≡ failed e) × (e.terminal ≡ true) × (e.uncertain ≡ false))))

-- What an attempt that is followed by another must have been.
abbrev pub MayRepeat : World → String → Reply → Type 0
MayRepeat w id p = Rejects p ⊎ ((w.idempotent ≡ true) × (is_empty id ≡ false))

abbrev Goes : World → ℕ → Bool → Record → Turn → Type 0
Goes w n last r (stop q) =
    (q.message ≡ r.message) × (q.attempts ≡ r.attempts + 1) × Ends (w.replies n) r.outcome q
Goes w n last r (again q) =
    (last ≡ false)
    × (q ≡ counted r)
    × MayRepeat w r.message.id (w.replies n)
    × Doubtful (w.replies n)

module _ (w : World) (n : ℕ) (last : Bool) (r : Record) where
  failure-Goes :
      (e : SendError)
      → w.replies n ≡ failed e
      → Goes w n last r (failure e w.idempotent (w.over n) last (counted r))
  unfolding failure
  failure-Goes e q =
      if_rule (λ t. Goes w n last r t) e.uncertain
        (λ a. (refl, refl, inr (inl (refl, rw q (inl a)))))
        (λ a.
          if_rule (λ t. Goes w n last r t)
            (not e.terminal && not e.rejected && (not w.idempotent || is_empty r.message.id))
            (λ b. (refl, refl, inr (inl (refl, rw q (inr (ground (arith, b)))))))
            (λ b.
              if_rule (λ t. Goes w n last r t) (e.terminal || w.over n || last)
                (λ c.
                  if_rule (λ t. Goes w n last r (stop t)) e.terminal
                    (λ d. (refl, refl, inr (inr (refl, (e, q, d, a)))))
                    (λ d. (refl, refl, inr (inl (refl, rw q (inr d))))))
                (λ c. (
                  ground arith,
                  refl,
                  (elim (Bool-cases e.rejected) [
                    | inl d ↦ inl (rw q (d, a, ground arith))
                    | inr d ↦ inr (ground arith, ground arith)
                  ]),
                  rw q (inr (ground (arith, c))),
                ))))

  attempt-Goes :
      (p : Reply) → w.replies n ≡ p → Goes w n last r (attempt p w.idempotent (w.over n) last r)
  unfolding attempt failure
  attempt-Goes (failed e) q = failure-Goes e q
  attempt-Goes (sent p) q =
      if_rule (λ t. Goes w n last r t) (is_empty p.message)
        (λ a.
          if_rule (λ t. Goes w n last r t) (not w.idempotent || is_empty r.message.id)
            (λ b. (refl, refl, inr (inl (refl, rw q a))))
            (λ b.
              if_rule (λ t. Goes w n last r t) (w.over n || last)
                (λ c. (refl, refl, inr (inl (refl, rw q a))))
                (λ c. (ground arith, refl, inr (ground arith), rw q a))))
        (λ a. (refl, refl, inl (refl, (p, q, refl, a))))

-- A run of the loop from attempt n on, with the retries that are left.
pub record Ran (left : ℕ) (w : World) (n : ℕ) (r q : Record) : Type 0 where
  pub repeats : ℕ
  pub bounded : repeats ≤ left
  pub same_message : q.message ≡ r.message
  pub count : q.attempts ≡ r.attempts + repeats + 1
  pub earlier : (i : ℕ) → i < repeats → MayRepeat w r.message.id (w.replies (n + i))
  pub ends : Ends (w.replies (n + repeats)) r.outcome q

module _ (left : ℕ) (w : World) (n : ℕ) (r : Record) where
  at_once :
      (q : Record)
      → (q.message ≡ r.message) × (q.attempts ≡ r.attempts + 1) × Ends (w.replies n) r.outcome q
      → Ran left w n r q
  at_once q (m, c, e) = record {
    repeats = 0;
    bounded = omega arith;
    same_message = m;
    count = omega (arith, c);
    earlier = λ i lt. absurd (omega (arith, lt));
    ends = subst (λ k. Ends (w.replies k) r.outcome q) (omega arith) e;
  }

  once_more :
      (q : Record)
      → MayRepeat w r.message.id (w.replies n)
      → Ran left w (n + 1) (counted r) q
      → Ran (suc left) w n r q
  once_more q may h = record {
    repeats = suc h.repeats;
    bounded = omega (arith, h.bounded);
    same_message = h.same_message;
    count = omega (arith, h.count);
    earlier = before;
    ends = subst (λ k. Ends (w.replies k) r.outcome q) (omega arith) h.ends;
  }
    where
      before : (i : ℕ) → i < suc h.repeats → MayRepeat w r.message.id (w.replies (n + i))
      before zero lt = subst (λ k. MayRepeat w r.message.id (w.replies k)) (omega arith) may
      before (suc i) lt =
          subst (λ k. MayRepeat w r.message.id (w.replies k)) (omega arith)
            (h.earlier i (omega (arith, lt)))

pub tries-Ran : (left : ℕ) (w : World) (n : ℕ) (r : Record) → Ran left w n r (tries left w n r)
unfolding tries
tries-Ran zero w n r =
    from (attempt (w.replies n) w.idempotent (w.over n) true r)
      (attempt-Goes w n true r (w.replies n) refl)
  where
    from : (t : Turn) → Goes w n true r t → Ran zero w n r (record_of t)
    from (stop q) g = at_once zero w n r q g
    from (again q) g = absurd (cc (g.0))
tries-Ran (suc left) w n r =
    from (attempt (w.replies n) w.idempotent (w.over n) false r)
      (attempt-Goes w n false r (w.replies n) refl) (λ q. tries-Ran left w (n + 1) q)
  where
    from :
        (t : Turn)
        → Goes w n false r t
        → ((q : Record) → Ran left w (n + 1) q (tries left w (n + 1) q))
        → Ran (suc left) w n r (next_turn t (w.ends_wait n) (tries left w (n + 1) (record_of t)))
    from (stop q) g rest = at_once (suc left) w n r q g
    from (again q) (lf, e, may, doubt) rest =
        if_rule (Ran (suc left) w n r) (w.ends_wait n)
          (λ a. at_once (suc left) w n r (unknown q) (
            ap (λ (x : Record). x.message) e,
            ap (λ (x : Record). x.attempts) e,
            inr (inl (refl, doubt)),
          ))
          (λ a.
            once_more left w n r (tries left w (n + 1) q) may
              (subst (λ x. Ran left w (n + 1) x (tries left w (n + 1) q)) e (rest q)))
