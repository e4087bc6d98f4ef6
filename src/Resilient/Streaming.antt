-- ===== src/Resilient/Streaming.antt =====
-- `Resilient.Stream` of internal/provider/policy.go: text that was shown is not followed by another
-- client's. What a client streams is a script; the texts that it shows are kept beside its value.
use gopherharness.Base.{
  ℕ, ◌≡◌, ◌⊎◌, inl, inr, Bool, true, false, not, ◌||◌, String, Option, none, some, List, [], ◌∷◌,
  All, is_empty, if◌then◌else◌, if_rule, is_some, Bool-cases,
}
use gopherharness.Resilient.{
  Fault, Failure, wraps, partial_stream, Answer, Round, Report, Resilient, retryable, call,
  answered,
}
use gopherharness.Resilient.Attempts.{goes_on, Retried, call-Retried}
use gopherharness.Resilient.Everywhere.{call-Everywhere}

-- A text that a client passes to `emit`, and the error of the callback `delta` on it.
pub record Chunk : Type 0 where
  pub text : String
  pub refused : Option (List Fault)

pub record Play (A : Type 0) : Type 0 where
  pub is_stream : Bool
  pub chunks : List Chunk
  pub value : A
  pub error : Option (List Fault)
  pub last_chunk : Chunk

-- A value, with the texts that were shown before it.
pub record Shown (A : Type 0) : Type 0 where
  pub value : A
  pub texts : List String

abbrev texts : List Chunk → List String
texts [] = []
texts (c ∷ cs) = c.text ∷ texts cs

abbrev pub visible : List String → Bool
visible [] = false
visible (t ∷ ts) = not (is_empty t) || visible ts

-- `callbackFailed` after these texts.
abbrev callback_failed : Bool → List Chunk → Bool
callback_failed b [] = b
callback_failed b (c ∷ cs) = callback_failed (is_some c.refused) cs

abbrev as_failure : Option (List Fault) → Option Failure
as_failure none = none
as_failure (some e) = some (wraps e)

-- `if e != nil && (emitted || callbackFailed)`
abbrev hide : Bool → Option (List Fault) → Option Failure
hide b none = none
hide b (some e) = some (if b then partial_stream e else wraps e)

module _ {A : Type 0} (text_of : A → String) where
  abbrev shown : A → List String → Shown A
  shown v ts = record { value = v; texts = ts }

  abbrev streamed : List Chunk → A → Option (List Fault) → Answer (Shown A)
  streamed cs v e =
      answered (shown v (texts cs)) (hide (visible (texts cs) || callback_failed false cs) e)

  -- The function that `Stream` hands to `call`. A client that does not stream is asked at once, and
  -- its text is emitted if it has no error.
  unfoldable pub play : Play A → Answer (Shown A)
  play p = if p.is_stream then streamed p.chunks p.value p.error else elim p.error [
    | some e ↦ streamed [] p.value (some e)
    | none ↦
        streamed (record { text = text_of p.value; refused = p.last_chunk.refused } ∷ []) p.value
          p.last_chunk.refused
  ]

  -- A round of `Stream`.
  pub record Attempt : Type 0 where
    pub done_before : Option Fault
    pub client : Play A
    pub random : ℕ
    pub done_waiting : Option Fault

  abbrev pub stream_round : Attempt → Round (Shown A)
  stream_round a = record {
    done_before = a.done_before;
    answer = play a.client;
    random = a.random;
    done_waiting = a.done_waiting;
  }

  -- `err = partial.err`
  abbrev unhide : Option Failure → Option (List Fault)
  unhide none = none
  unhide (some (wraps e)) = some e
  unhide (some (partial_stream e)) = some e

  unfoldable pub stream_report : Resilient → A → (ℕ → ℕ → Attempt) → Report (Shown A)
  stream_report r empty script = call r (shown empty []) λ c n. stream_round (script c n)

  -- What `Stream` returns.
  unfoldable pub stream : Resilient → A → (ℕ → ℕ → Attempt) → A × Option (List Fault)
  stream r empty script =
      let a = (stream_report r empty script).answer in (a.value.value, unhide a.error)

  -- An answer after which the call goes on comes with nothing that was shown.
  abbrev Quiet : Answer (Shown A) → Type 0
  Quiet a =
      (elim a.error [ none ↦ false | some e ↦ retryable e ]) ≡ true → visible a.value.texts ≡ false

  streamed-Quiet : (cs : List Chunk) (v : A) (e : Option (List Fault)) → Quiet (streamed cs v e)
  unfolding retryable
  streamed-Quiet cs v none on = absurd (cc)
  streamed-Quiet cs v (some e) on = elim (Bool-cases (visible (texts cs))) [
    | inl t ↦ absurd (let k = rw t at on in cc)
    | inr f ↦ f
  ]

  play-Quiet : (p : Play A) → Quiet (play p)
  unfolding play
  play-Quiet p =
      if_rule (λ a. Quiet a) p.is_stream (λ _. streamed-Quiet p.chunks p.value p.error)
        λ _. from p.error
    where
      from :
          (o : Option (List Fault))
          → Quiet (elim o [
            | some e ↦ streamed [] p.value (some e)
            | none ↦
                streamed
                  (record { text = text_of p.value; refused = p.last_chunk.refused } ∷ [])
                  p.value
                  p.last_chunk.refused
          ])
      from none =
          streamed-Quiet (record { text = text_of p.value; refused = p.last_chunk.refused } ∷ [])
            p.value p.last_chunk.refused
      from (some e) = streamed-Quiet [] p.value (some e)

  round-Quiet :
      (a : Attempt)
      → goes_on (stream_round a) ≡ true
      → visible (stream_round a).answer.value.texts ≡ false
  unfolding goes_on
  round-Quiet a = play-Quiet a.client

  -- Only the last of these rounds may have shown a text.
  abbrev pub ShownOnce : List (Round (Shown A)) → Type 0
  ShownOnce [] = Unit
  ShownOnce (r ∷ rs) = ((rs ≡ []) ⊎ (visible r.answer.value.texts ≡ false)) × ShownOnce rs

  Retried-ShownOnce :
      (rs : List (Round (Shown A)))
      → Retried rs
      → All (λ r. goes_on r ≡ true → visible r.answer.value.texts ≡ false) rs
      → ShownOnce rs
  Retried-ShownOnce [] h k = tt
  Retried-ShownOnce (r ∷ rs) (inl q, h) k = (inl q, Retried-ShownOnce rs h k.1)
  Retried-ShownOnce (r ∷ rs) (inr on, h) k = (inr (k.0 on), Retried-ShownOnce rs h k.1)

  -- Of all the clients and retries of one `Stream`, only the one that was asked last can have shown a
  -- text that is not empty: once output was visible, no other attempt is made.
  pub stream-ShownOnce :
      (r : Resilient) (empty : A) (script : ℕ → ℕ → Attempt)
      → ShownOnce (stream_report r empty script).asked
  unfolding stream_report
  stream-ShownOnce r empty script =
      let rounds = λ (c n : ℕ). stream_round (script c n) in
      let start : Shown A = shown empty [] in
      Retried-ShownOnce (call r start rounds).asked (call-Retried r start rounds)
        (call-Everywhere (λ r. goes_on r ≡ true → visible r.answer.value.texts ≡ false) (λ _. Unit)
          r start rounds (λ c n. round-Quiet (script c n)) (λ n random e. tt)).asked
