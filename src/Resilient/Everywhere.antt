-- ===== src/Resilient/Everywhere.antt =====
-- What holds of every round and every wait of `Resilient.call` (internal/provider/policy.go).
use gopherharness.Base.{
  ℕ, zero, suc, ◌==◌, ◌≡◌, refl, subst, Option, none, some, some_inj, All, if_rule,
}
use gopherharness.Base.Int.{ℤ}
use gopherharness.Resilient.{
  Fault, Failure, Answer, Round, Report, Resilient, retryable, wait_for, report, answered,
  after_wait, after_answer, round, tries, rounds, all_clients, call,
}

module _ {ℓ} {A : Type ℓ} (P : Round A → Type ℓ) (Q : ℤ → Type 0) where
  pub record Everywhere (t : Report A) : Type ℓ where
    pub asked : All P t.asked
    pub waited : All Q t.waited

  nothing_asked : (a : Answer A) → Everywhere (report a)
  nothing_asked a = record { asked = tt; waited = tt }

  module _ (delay : ℤ) (script : ℕ → Round A) (next : Answer A → Report A)
      (rounds_hold : (n : ℕ) → P (script n))
      (waits_hold : (n random : ℕ) (e : Failure) → Q (wait_for delay n random e))
      (next_holds : (a : Answer A) → Everywhere (next a)) where
    after_wait-Everywhere :
        (w : ℤ) (r : Round A) (later : Report A) (done : Option Fault)
        → r.done_waiting ≡ done
        → Q w
        → Everywhere later
        → Everywhere (after_wait w r later)
    unfolding after_wait
    after_wait-Everywhere w r later (some e) q h k = rw q (record { asked = tt; waited = (h, tt) })
    after_wait-Everywhere w r later none q h k =
        rw q (record { asked = k.asked; waited = (h, k.waited) })

    round-Everywhere :
        (n : ℕ) (last : Answer A) (rest : Option (Report A)) (done : Option Fault)
        → ((t : Report A) → rest ≡ some t → Everywhere t)
        → Everywhere (round delay script next n (script n) last rest done)
    unfolding round after_answer
    round-Everywhere n last rest (some e) h = record { asked = tt; waited = tt }
    round-Everywhere n last rest none h =
        let t = from (script n).answer.error in
        record { asked = (rounds_hold n, t.asked); waited = t.waited }
      where
        r : Round A
        r = script n

        retried :
            (e : Failure) (o : Option (Report A))
            → rest ≡ o
            → Everywhere (elim o [
              | none ↦ next r.answer
              | some later ↦ after_wait (wait_for delay n r.random e) r later
            ])
        retried e none p = next_holds r.answer
        retried e (some t) p =
            after_wait-Everywhere (wait_for delay n r.random e) r t r.done_waiting refl
              (waits_hold n r.random e) (h t p)

        from : (o : Option Failure) → Everywhere (after_answer delay script next n r rest o)
        from none = nothing_asked r.answer
        from (some e) =
            if_rule (λ t. Everywhere t) (retryable e) (λ _. retried e rest refl)
              (λ _. nothing_asked r.answer)

    tries-Everywhere : (k n : ℕ) (last : Answer A) → Everywhere (tries delay script next k n last)
    unfolding tries
    tries-Everywhere zero n last = next_holds last
    tries-Everywhere (suc zero) n last =
        round-Everywhere n last none (script n).done_before λ t q. absurd (cc)
    tries-Everywhere (suc (suc k)) n last =
        round-Everywhere n last (some (tries delay script next (suc k) (suc n) (script n).answer))
          (script n).done_before
          λ t q. subst Everywhere (some_inj q) (tries-Everywhere (suc k) (suc n) (script n).answer)

  all_clients-Everywhere :
      (r : Resilient) (script : ℕ → ℕ → Round A) (m c : ℕ) (last : Answer A)
      → ((c n : ℕ) → P (script c n))
      → ((n random : ℕ) (e : Failure) → Q (wait_for r.delay n random e))
      → Everywhere (all_clients r script m c last)
  unfolding all_clients
  all_clients-Everywhere r script zero c last h k = nothing_asked last
  all_clients-Everywhere r script (suc m) c last h k =
      tries-Everywhere r.delay (script c) (λ a. all_clients r script m (suc c) a) (h c) k
        (λ a. all_clients-Everywhere r script m (suc c) a h k) (rounds r.retries) 0 last

  pub call-Everywhere :
      (r : Resilient) (empty : A) (script : ℕ → ℕ → Round A)
      → ((c n : ℕ) → P (script c n))
      → ((n random : ℕ) (e : Failure) → Q (wait_for r.delay n random e))
      → Everywhere (call r empty script)
  unfolding call
  call-Everywhere r empty script h k =
      if_rule (λ t. Everywhere t) (r.clients == 0) (λ _. record { asked = tt; waited = tt })
        λ _. all_clients-Everywhere r script r.clients 0 (answered empty none) h k
