-- ===== src/Outbox/Retries.antt =====
-- The counters of the jobs of internal/memory/outbox.go.
use gopherharness.Base.{
  ℕ, ◌≤◌, ◌≡◌, refl, sym, subst, arith, String, str_eq, Bool, true, false, not, ◌||◌, Option, none,
  some, List, [], ◌∷◌, is_empty, ltb, if_rule,
}
use gopherharness.Base.Table.{lookup, insert, Entries, Entries-insert, Entries-lookup}
use gopherharness.Durable.{Verdict, refuse, accept}
use gopherharness.Outbox.{
  Evidence, WriteJob, WriteState, WriterOptions, Error, new_job, prepare_found, prepare, attempted,
  record_found, record_result, Commit, not_committed, commit_error, committed, flush_ready,
  flush_job, reopened, retry_found, retry,
}

abbrev pub stored : Verdict Error (Unit {0}) WriteState → WriteState → WriteState
stored (refuse e) s = s
stored (accept a t) s = t

-- What happens to the file: a turn is prepared, `flush` comes to a job, a job is reopened.
-- `flush` holds a lease while it walks over the jobs that it has read, so that only a reopening can
-- change a job before it comes to it, and that makes a job no less ready; a job that it passes over for
-- its older state is one whose turn is not committed here.
pub data Op : Type 0 where
  prepares : Bool → String → String → List Evidence → Op
  flushes : ℕ → Commit → String → Op
  retries : String → Op

-- A job that may be tried again has tries left.
pub record JobOk (max : ℕ) (j : WriteJob) : Type 0 where
  pub bounded : j.attempts ≤ max
  pub tries_left : (j.is_done || j.is_failed || ltb j.attempts max) ≡ true

module _ (base clean : String → String) (o : WriterOptions) where
  abbrev pub flush_found : Option WriteJob → ℕ → Commit → String → WriteState → WriteState
  flush_found none now c key s = s
  flush_found (some j) now c key s = flush_job o now c key j s

  unfoldable pub apply : Op → WriteState → WriteState
  apply (prepares closed turn session evidence) s =
      stored (prepare base clean closed turn session evidence s) s
  apply (flushes now c key) s = flush_found (lookup key s.jobs) now c key s
  apply (retries turn) s = stored (retry turn s) s

  unfoldable pub after : List Op → WriteState → WriteState
  after [] s = s
  after (op ∷ ops) s = after ops (apply op s)

  abbrev pub JobsOk : WriteState → Type 0
  JobsOk s = Entries (λ k j. JobOk o.max_attempts j) s.jobs

  module _ (some_try : 1 ≤ o.max_attempts) where
    put-JobsOk :
        (key : String) (j : WriteJob) (s : WriteState)
        → JobOk o.max_attempts j
        → JobsOk s
        → JobsOk (record s { jobs = insert key j s.jobs })
    put-JobsOk key j s good ok =
        Entries-insert (λ k (x : WriteJob). JobOk o.max_attempts x) key j s.jobs good ok

    prepare-JobsOk :
        (closed : Bool) (turn session : String) (evidence : List Evidence) (s : WriteState)
        → JobsOk s
        → JobsOk (stored (prepare base clean closed turn session evidence s) s)
    unfolding prepare
    prepare-JobsOk closed turn session evidence s ok =
        if_rule (λ v. JobsOk (stored v s))
          (is_empty turn || not (str_eq (base turn) turn) || is_empty session) (λ a. ok)
          (λ a.
            if_rule (λ v. JobsOk (stored v s)) closed (λ b. ok) (λ b. from (lookup turn s.jobs)))
      where
        job : WriteJob
        job = new_job clean turn session evidence

        from : (f : Option WriteJob) → JobsOk (stored (prepare_found f turn job s) s)
        from none =
            put-JobsOk turn job s
              (record { bounded = omega arith; tries_left = ground (arith, some_try) }) ok
        from (some old) =
            if_rule (λ v. JobsOk (stored v s)) (not (str_eq old.session job.session)) (λ b. ok)
              (λ b. ok)

    attempted-JobOk :
        (now : ℕ) (err : Option String) (j : WriteJob)
        → (j.is_done || j.is_failed) ≡ false
        → JobOk o.max_attempts j
        → JobOk o.max_attempts (attempted o now err j)
    unfolding attempted
    attempted-JobOk now none j free ok = record {
      bounded = ground (arith, ok.tries_left, free);
      tries_left = refl;
    }
    attempted-JobOk now (some e) j free ok = record {
      bounded = ground (arith, ok.tries_left, free);
      tries_left = ground arith;
    }

    record_result-JobsOk :
        (now : ℕ) (key : String) (err : Option String) (s : WriteState) {j : WriteJob}
        → lookup key s.jobs ≡ some j
        → (j.is_done || j.is_failed) ≡ false
        → JobsOk s
        → JobsOk (record_result o now key err s)
    unfolding record_result
    record_result-JobsOk now key err s {j = j} found free ok =
        subst (λ f. JobsOk (record_found f o now key err s)) (sym found)
          (if_rule JobsOk j.is_done (λ a. ok)
            (λ a.
              put-JobsOk key (attempted o now err j) s
                (attempted-JobOk now err j free
                  (Entries-lookup (λ k (x : WriteJob). JobOk o.max_attempts x) key s.jobs ok found))
                ok))

    flush-JobsOk :
        (now : ℕ) (c : Commit) (key : String) (s : WriteState)
        → JobsOk s
        → JobsOk (flush_found (lookup key s.jobs) now c key s)
    unfolding flush_job
    flush-JobsOk now c key s ok = from (lookup key s.jobs) refl
      where
        ready :
            (c : Commit) {j : WriteJob}
            → lookup key s.jobs ≡ some j
            → (j.is_done || j.is_failed) ≡ false
            → JobsOk (flush_ready c o now key s)
        ready not_committed q free = ok
        ready (commit_error e) q free = record_result-JobsOk now key (some e) s q free ok
        ready (committed err) q free = record_result-JobsOk now key err s q free ok

        from : (f : Option WriteJob) → lookup key s.jobs ≡ f → JobsOk (flush_found f now c key s)
        from none q = ok
        from (some j) q =
            if_rule JobsOk (j.is_done || j.is_failed || ltb now j.next_attempt) (λ a. ok)
              (λ a. ready c q (ground arith))

    retry-JobsOk : (turn : String) (s : WriteState) → JobsOk s → JobsOk (stored (retry turn s) s)
    unfolding retry
    retry-JobsOk turn s ok = from (lookup turn s.jobs)
      where
        from : (f : Option WriteJob) → JobsOk (stored (retry_found f turn s) s)
        from none = ok
        from (some j) =
            if_rule (λ v. JobsOk (stored v s)) j.is_done (λ a. ok)
              (λ a.
                put-JobsOk turn (reopened j) s
                  (record { bounded = omega arith; tries_left = ground (arith, some_try) }) ok)

    pub apply-JobsOk : (op : Op) (s : WriteState) → JobsOk s → JobsOk (apply op s)
    unfolding apply
    apply-JobsOk (prepares closed turn session evidence) s ok =
        prepare-JobsOk closed turn session evidence s ok
    apply-JobsOk (flushes now c key) s ok = flush-JobsOk now c key s ok
    apply-JobsOk (retries turn) s ok = retry-JobsOk turn s ok
