-- ===== src/Journal/Changes.antt =====
-- One change of the journal's file by its owner (`mutate` of internal/journal/journal.go).
use gopherharness.Base.{
  ◌≡◌, inl, inr, arith, none, some, Option, ◌==◌, Bool-cases, if_cases, if_rule,
}
use gopherharness.Durable.{Disk, Verdict, accept, Outcome, current}
use gopherharness.Durable.Atomic.{FileHas, Keeps, update-FileHas, update_committed}
use gopherharness.Journal.{Owner, State, Error, empty_state, mutate, fenced}

module _ {A : Type 0} (o : Owner) (fn : State → Verdict Error A State) (d : Disk)
    (file : Option State) where
  pub mutate-FileHas :
      (P : State → Type 0)
      → ((t : State) → P t → Keeps P (fn t))
      → FileHas empty_state P file
      → FileHas empty_state P (mutate o fn d file).file
  unfolding mutate fenced
  mutate-FileHas P keep h =
      if_rule (λ (r : Outcome Error A State). FileHas empty_state P r.file) o.closed (λ c. h)
        (λ c.
          update-FileHas empty_state P (fenced o.epoch fn) d file
            (λ t p. if_rule (Keeps P) (t.epoch == o.epoch) (λ q. keep t p) (λ q. tt)) h)

  pub mutate_committed :
      (mutate o fn d file).failure ≡ none
      → (a : A) × (t : State) × (fn (current empty_state file) ≡ accept a t)
        × ((mutate o fn d file).file ≡ some t)
        × ((mutate o fn d file).out ≡ some a)
  unfolding mutate fenced
  mutate_committed h = elim (Bool-cases o.closed) [
    | inl c ↦ absurd (ground (arith, c))
    | inr c ↦
        let (a, t, accepted, stored, out) =
          update_committed empty_state (fenced o.epoch fn) d file (rw c at h) in
        elim (if_cases ((current empty_state file).epoch == o.epoch) accepted) [
          | inl (q, x) ↦ (a, t, x, rw (c, stored), rw (c, out))
          | inr (q, x) ↦ absurd (cc)
        ]
  ]
