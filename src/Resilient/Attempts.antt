-- ===== src/Resilient/Attempts.antt =====
-- How often `Resilient.call` of internal/provider/policy.go asks, and what it returns.
use gopherharness.Base.{
  ℕ, zero, suc, ◌+◌, ◌*◌, ◌≤◌, ◌<◌, ◌≡◌, ◌⊎◌, inl, inr, refl, sym, ap, ◌∙◌, subst, arith, Bool,
  true, false, Option, none, some, List, [], ◌∷◌, length, some_inj, if_rule, ◌==◌,
}
use gopherharness.Base.Int.{ℤ, pos, negsuc}
use gopherharness.Resilient.{
  Fault, Failure, answered, Answer, Round, Report, Resilient, retryable, wait_for, report,
  after_wait, after_answer, round, tries, rounds, all_clients, call,
}

module _ {ℓ} {A : Type ℓ} where
  -- An answer after which the call goes on.
  unfoldable pub goes_on : Round A → Bool
  goes_on r = elim r.answer.error [ none ↦ false | some e ↦ retryable e ]

  -- All rounds but the last failed in a way that may be tried again.
  abbrev pub Retried : List (Round A) → Type ℓ
  Retried [] = Unit
  Retried (r ∷ rs) = ((rs ≡ []) ⊎ (goes_on r ≡ true)) × Retried rs

  abbrev pub last_asked : List (Round A) → Option (Round A)
  last_asked [] = none
  last_asked (r ∷ []) = some r
  last_asked (r ∷ s ∷ rs) = last_asked (s ∷ rs)

  -- A report without an error is the answer of the last client that was asked.
  abbrev pub IsAnswered : Report A → Type ℓ
  IsAnswered t =
      t.answer.error ≡ none → (r : Round A) × (last_asked t.asked ≡ some r) × (r.answer ≡ t.answer)

  -- What holds of a report after `last`, before or after a client is asked.
  abbrev OrLast : Answer A → Report A → Type ℓ
  OrLast last t =
      t.answer.error ≡ none
      → ((r : Round A) × (last_asked t.asked ≡ some r) × (r.answer ≡ t.answer))
        ⊎ ((t.asked ≡ []) × (t.answer ≡ last))

  record Fine (bound : ℕ) (last : Answer A) (t : Report A) : Type ℓ where
    few : length t.asked ≤ bound
    retried : Retried t.asked
    or_last : OrLast last t

  asked-OrLast :
      (r : Round A) (t : Report A)
      → OrLast r.answer t
      → IsAnswered (record t { asked = r ∷ t.asked })
  asked-OrLast r t h e = from t.asked refl (h e)
    where
      from :
          (rs : List (Round A))
          → t.asked ≡ rs
          → ((s : Round A) × (last_asked t.asked ≡ some s) × (s.answer ≡ t.answer))
            ⊎ ((t.asked ≡ []) × (t.answer ≡ r.answer))
          → (s : Round A) × (last_asked (r ∷ t.asked) ≡ some s) × (s.answer ≡ t.answer)
      from [] q (inl (s, l, a)) = absurd (let k = rw q at l in cc)
      from (x ∷ rs) q (inl (s, l, a)) = (s, rw q (rw q at l), a)
      from rs q (inr (none_asked, a)) = (r, rw none_asked refl, sym a)

  -- What follows a round.
  record Behind (bound : ℕ) (r : Round A) (t : Report A) : Type ℓ where
    few : length t.asked ≤ bound
    retried : Retried (r ∷ t.asked)
    or_last : OrLast r.answer t

  report-Behind : (bound : ℕ) (r : Round A) → Behind bound r (report r.answer)
  report-Behind bound r = record {
    few = omega arith;
    retried = (inl refl, tt);
    or_last = λ e. inr (refl, refl);
  }

  failed-Behind :
      (bound : ℕ) (r : Round A) (v : A) (e : Failure)
      → Behind bound r (report (answered v (some e)))
  failed-Behind bound r v e = record {
    few = omega arith;
    retried = (inl refl, tt);
    or_last = λ q. absurd (cc);
  }

  Fine-Behind :
      (bound : ℕ) (r : Round A) (t : Report A)
      → goes_on r ≡ true
      → Fine bound r.answer t
      → Behind bound r t
  Fine-Behind bound r t on f = record {
    few = f.few;
    retried = (inr on, f.retried);
    or_last = f.or_last;
  }

  after_wait-Behind :
      (w : ℤ) (bound : ℕ) (r : Round A) (later : Report A) (done : Option Fault)
      → r.done_waiting ≡ done
      → goes_on r ≡ true
      → Fine bound r.answer later
      → Behind bound r (after_wait w r later)
  unfolding after_wait goes_on
  after_wait-Behind w bound r later (some e) q on f =
      rw q (record { few = omega arith; retried = (inl refl, tt); or_last = λ p. absurd (cc) })
  after_wait-Behind w bound r later none q on f =
      rw q (record { few = f.few; retried = (inr on, f.retried); or_last = f.or_last })

  module _ (delay : ℤ) (script : ℕ → Round A) (next : Answer A → Report A) (bound : ℕ)
      (fine : (a : Answer A) → Fine bound a (next a)) where
    after_answer-Behind :
        (n k : ℕ) (r : Round A) (rest : Option (Report A)) (error : Option Failure)
        → r.answer.error ≡ error
        → ((t : Report A) → rest ≡ some t → Fine (k + bound) r.answer t)
        → Behind (k + bound) r (after_answer delay script next n r rest error)
    unfolding after_answer goes_on
    after_answer-Behind n k r rest none q h = report-Behind (k + bound) r
    after_answer-Behind n k r rest (some e) q h =
        if_rule (λ t. Behind (k + bound) r t) (retryable e) (λ t. retried rest refl (rw q t))
          (λ f. report-Behind (k + bound) r)
      where
        retried :
            (o : Option (Report A))
            → rest ≡ o
            → goes_on r ≡ true
            → Behind (k + bound) r (elim o [
              | none ↦ next r.answer
              | some later ↦ after_wait (wait_for delay n r.random e) r later
            ])
        retried none p on =
            let f = fine r.answer in
            Fine-Behind (k + bound) r (next r.answer) on
              (record { few = omega (arith, f.few); retried = f.retried; or_last = f.or_last })
        retried (some t) p on =
            after_wait-Behind (wait_for delay n r.random e) (k + bound) r t r.done_waiting refl on
              (h t p)

    -- One round, before rounds that are fine.
    round-Fine :
        (n k : ℕ) (last : Answer A) (rest : Option (Report A)) (done : Option Fault)
        → ((t : Report A) → rest ≡ some t → Fine (k + bound) (script n).answer t)
        → Fine (suc k + bound) last (round delay script next n (script n) last rest done)
          × IsAnswered (round delay script next n (script n) last rest done)
    unfolding round
    round-Fine n k last rest (some e) h =
        (record { few = omega arith; retried = tt; or_last = λ q. absurd (cc) }, λ q. absurd (cc))
    round-Fine n k last rest none h =
        let r = script n in
        let t = after_answer delay script next n r rest r.answer.error in
        let b = after_answer-Behind n k r rest r.answer.error refl h in
        let a = asked-OrLast r t b.or_last in
        (record { few = omega (arith, b.few); retried = b.retried; or_last = λ e. inl (a e) }, a)

    tries-Fine :
        (k n : ℕ) (last : Answer A)
        → Fine (suc k + bound) last (tries delay script next (suc k) n last)
          × IsAnswered (tries delay script next (suc k) n last)
    unfolding tries
    tries-Fine zero n last = round-Fine n 0 last none (script n).done_before λ t q. absurd (cc)
    tries-Fine (suc k) n last =
        let (f, a) = tries-Fine k (suc n) (script n).answer in
        let rest = tries delay script next (suc k) (suc n) (script n).answer in
        round-Fine n (suc k) last (some rest) (script n).done_before
          λ t q. subst (λ t. Fine (suc k + bound) (script n).answer t) (some_inj q) f

  all_clients-Fine :
      (r : Resilient) (script : ℕ → ℕ → Round A) (k m c : ℕ) (last : Answer A)
      → r.retries ≡ pos k
      → Fine (m * suc k) last (all_clients r script m c last)
  unfolding all_clients
  all_clients-Fine r script k zero c last q = record {
    few = omega arith;
    retried = tt;
    or_last = λ e. inr (refl, refl);
  }
  all_clients-Fine r script k (suc m) c last q = rw q (
      let f =
        (tries-Fine r.delay (script c) (λ a. all_clients r script m (suc c) a) (m * suc k)
          (λ a. all_clients-Fine r script k m (suc c) a q) k 0 last).0 in
      record { few = grind (arith, f.few); retried = f.retried; or_last = f.or_last })

  all_clients-IsAnswered :
      (r : Resilient) (script : ℕ → ℕ → Round A) (k m c : ℕ) (last : Answer A)
      → r.retries ≡ pos k
      → IsAnswered (all_clients r script (suc m) c last)
  unfolding all_clients
  all_clients-IsAnswered r script k m c last q =
      rw q
        (tries-Fine r.delay (script c) (λ a. all_clients r script m (suc c) a) (m * suc k)
          (λ a. all_clients-Fine r script k m (suc c) a q) k 0 last).1

  pub record Honest (r : Resilient) (t : Report A) : Type ℓ where
    pub few : length t.asked ≤ r.clients * rounds r.retries
    pub retried : Retried t.asked
    pub answered : IsAnswered t

  -- A call that is configured with a client, and with retries from 0 on, ends after at most that many
  -- rounds for each client; all but the last failed in a way that may be tried again, and an answer
  -- without an error is the answer of the client that was asked last.
  pub call-Honest :
      (r : Resilient) (k : ℕ) (empty : A) (script : ℕ → ℕ → Round A)
      → r.retries ≡ pos k
      → 0 < r.clients
      → Honest r (call r empty script)
  unfolding call
  call-Honest r k empty script q some_client =
      let bare : (r.clients == 0) ≡ false = ground arith in rw bare (configured r.clients refl)
    where
      configured :
          (m : ℕ) → r.clients ≡ m → Honest r (all_clients r script m 0 (answered empty none))
      configured zero e = absurd (omega (arith, e, some_client))
      configured (suc m) e =
          let last : Answer A = answered empty none in
          let f = all_clients-Fine r script k (suc m) 0 last q in
          record {
            few =
                subst (λ n. length (all_clients r script (suc m) 0 last).asked ≤ n)
                  (ap (λ j. suc m * rounds j) (sym q) ∙ ap (λ n. n * rounds r.retries) (sym e))
                  f.few;
            retried = f.retried;
            answered = all_clients-IsAnswered r script k m 0 last q;
          }

  none_asked :
      (r : Resilient) (script : ℕ → ℕ → Round A) (k m c : ℕ) (last : Answer A)
      → r.retries ≡ negsuc k
      → (all_clients r script m c last).asked ≡ []
  unfolding all_clients tries
  none_asked r script k zero c last q = refl
  none_asked r script k (suc m) c last q = rw q (none_asked r script k m (suc c) last q)

  pub call-Retried :
      (r : Resilient) (empty : A) (script : ℕ → ℕ → Round A) → Retried (call r empty script).asked
  unfolding call
  call-Retried r empty script =
      if_rule (λ (t : Report A). Retried t.asked) (r.clients == 0) (λ _. tt)
        λ _. by_retries r.retries refl
    where
      last : Answer A
      last = answered empty none

      by_retries : (j : ℤ) → r.retries ≡ j → Retried (all_clients r script r.clients 0 last).asked
      by_retries (pos k) q = (all_clients-Fine r script k r.clients 0 last q).retried
      by_retries (negsuc k) q = subst Retried (sym (none_asked r script k r.clients 0 last q)) tt
