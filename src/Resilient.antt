-- ===== src/Resilient.antt =====
-- internal/provider/policy.go: which errors are tried again, and `Resilient.call`, which tries its
-- clients in turn. What contexts, clients, timers and random numbers do is a script for each attempt.
-- A duration is a number of nanoseconds.
pub mod Attempts
pub mod Everywhere
pub mod Waits
pub mod Streaming
mod Tests
use gopherharness.Base.{
  ℕ, zero, suc, ◌+◌, ◌-◌, ◌*◌, ◌/◌, ◌%◌, ◌^◌, min, max, leb, ltb, ◌==◌, String, str_eq, Bool, true,
  false, not, ◌&&◌, ◌||◌, Option, none, some, List, [], ◌∷◌, ◌++◌, if◌then◌else◌, is_empty, is_some,
}
use gopherharness.Base.Int.{ℤ, pos, negsuc, pos_part, ltb_ℤ, leb_ℤ, max_ℤ}

pub record HttpError : Type 0 where
  pub status : ℤ
  pub detail : String
  pub retry_after : ℤ

-- What `errors.Is` and `errors.As` find in an error.
pub data Fault : Type 0 where
  budget_exhausted budget_accounting budget_state nested_budget : Fault
  canceled deadline_exceeded : Fault
  http : HttpError → Fault
  network unexpected_eof eof other : Fault

-- An error is the faults that it wraps; `partialStream` hides the ones below it.
pub data Failure : Type 0 where
  wraps : List Fault → Failure
  partial_stream : List Fault → Failure

abbrev pub is_fatal : Fault → Bool
is_fatal budget_exhausted = true
is_fatal budget_accounting = true
is_fatal budget_state = true
is_fatal nested_budget = true
is_fatal _ = false

abbrev pub is_done : Fault → Bool
is_done canceled = true
is_done deadline_exceeded = true
is_done _ = false

abbrev pub is_lost : Fault → Bool
is_lost network = true
is_lost unexpected_eof = true
is_lost eof = true
is_lost _ = false

abbrev pub any : (Fault → Bool) → List Fault → Bool
any p [] = false
any p (f ∷ fs) = p f || any p fs

-- `errors.As` with a `*HTTPError`: the first one.
abbrev or_else : Option HttpError → Option HttpError → Option HttpError
or_else none o = o
or_else (some h) o = some h

abbrev this_http : Fault → Option HttpError
this_http (http h) = some h
this_http _ = none

unfoldable pub first_http : List Fault → Option HttpError
first_http [] = none
first_http (f ∷ fs) = or_else (this_http f) (first_http fs)

abbrev retryable_status : ℤ → Bool
retryable_status (pos n) = n == 408 || n == 429 || leb 500 n
retryable_status (negsuc n) = false

abbrev by_status : Option HttpError → List Fault → Bool
by_status (some h) fs = retryable_status h.status
by_status none fs = any is_lost fs

unfoldable pub retryable : Failure → Bool
retryable (partial_stream fs) = false
retryable (wraps fs) =
    if any is_fatal fs
    then false
    else (if any is_done fs then false else by_status (first_http fs) fs)

-- The int64 product of a duration and a power of two.
abbrev pub signed : ℕ → ℤ
signed bits = if ltb bits (2 ^ 63) then pos bits else negsuc (2 ^ 64 - 1 - bits)

abbrev millisecond : ℕ
millisecond = 1000000

abbrev pub second : ℕ
second = 1000000000

abbrev pub backoff : ℤ → ℕ → ℤ
backoff delay n = signed ((max millisecond (pos_part delay) * 2 ^ min n 8) % 2 ^ 64)

abbrev pub min_ℤ : ℤ → ℤ → ℤ
min_ℤ a b = if ltb_ℤ b a then b else a

-- `wait + rand.Int64N(max(1, wait/4))`, with the random number reduced below its bound.
abbrev pub jittered : ℤ → ℕ → ℤ
jittered (pos w) random = pos (w + random % max 1 (w / 4))
jittered (negsuc w) random = negsuc w

abbrev pub longer : Option HttpError → ℤ → ℤ
longer none w = w
longer (some h) w = max_ℤ w (min_ℤ (pos (60 * second)) h.retry_after)

abbrev pub faults : Failure → List Fault
faults (wraps fs) = fs
faults (partial_stream fs) = []

unfoldable pub wait_for : ℤ → ℕ → ℕ → Failure → ℤ
wait_for delay n random e =
    longer (first_http (faults e)) (jittered (min_ℤ (pos (30 * second)) (backoff delay n)) random)

-- What `run` returns: the completion, and its error.
pub record Answer {ℓ} (A : Type ℓ) : Type ℓ where
  pub value : A
  pub error : Option Failure

-- One round: the context's error before it, the client's answer, the random number, and the
-- context's error if it ends while the timer runs.
pub record Round {ℓ} (A : Type ℓ) : Type ℓ where
  pub done_before : Option Fault
  pub answer : Answer A
  pub random : ℕ
  pub done_waiting : Option Fault

-- What `call` does: the rounds whose client was asked, the waits, and the answer.
pub record Report {ℓ} (A : Type ℓ) : Type ℓ where
  pub asked : List (Round A)
  pub waited : List ℤ
  pub answer : Answer A

pub record Resilient : Type 0 where
  pub clients : ℕ
  pub retries : ℤ
  pub delay : ℤ

-- n from 0 to `Retries`
abbrev pub rounds : ℤ → ℕ
rounds (pos n) = suc n
rounds (negsuc n) = 0

module _ {ℓ} {A : Type ℓ} where
  abbrev pub answered : A → Option Failure → Answer A
  answered v e = record { value = v; error = e }

  abbrev pub report : Answer A → Report A
  report a = record { asked = []; waited = []; answer = a }

  abbrev pub asked_first : Round A → Report A → Report A
  asked_first r t = record t { asked = r ∷ t.asked }

  abbrev pub waited_first : ℤ → Report A → Report A
  waited_first w t = record t { waited = w ∷ t.waited }

  -- After a failure that may be tried again: the timer, or the end of the context.
  unfoldable pub after_wait : ℤ → Round A → Report A → Report A
  after_wait w r later = waited_first w (elim r.done_waiting [
    | some e ↦ report (answered r.answer.value (some (wraps (e ∷ []))))
    | none ↦ later
  ])

  module _ (delay : ℤ) (script : ℕ → Round A) (next : Answer A → Report A) where
    -- The answer of the client that was asked in round n; `rest` is what the rounds after it do, if
    -- there are any.
    unfoldable pub after_answer : ℕ → Round A → Option (Report A) → Option Failure → Report A
    after_answer n r rest none = report r.answer
    after_answer n r rest (some e) =
        if retryable e
        then elim rest [
          | none ↦ next r.answer
          | some later ↦ after_wait (wait_for delay n r.random e) r later
        ]
        else report r.answer

    unfoldable pub round : ℕ → Round A → Answer A → Option (Report A) → Option Fault → Report A
    round n r last rest (some e) = report (answered last.value (some (wraps (e ∷ []))))
    round n r last rest none = asked_first r (after_answer n r rest r.answer.error)

    -- The inner loop, from round n on.
    unfoldable pub tries : ℕ → ℕ → Answer A → Report A
    tries zero n last = next last
    tries (suc zero) n last = round n (script n) last none (script n).done_before
    tries (suc (suc k)) n last =
        round n (script n) last (some (tries (suc k) (suc n) (script n).answer))
          (script n).done_before

  -- The outer loop, over the clients that are left.
  unfoldable pub all_clients : Resilient → (ℕ → ℕ → Round A) → ℕ → ℕ → Answer A → Report A
  all_clients r script zero c last = report last
  all_clients r script (suc m) c last =
      tries r.delay (script c) (λ a. all_clients r script m (suc c) a) (rounds r.retries) 0 last

  unfoldable pub call : Resilient → A → (ℕ → ℕ → Round A) → Report A
  call r empty script =
      if r.clients == 0
      then report (answered empty (some (wraps (other ∷ []))))
      else all_clients r script r.clients 0 (answered empty none)
