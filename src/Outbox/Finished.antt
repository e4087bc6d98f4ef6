-- ===== src/Outbox/Finished.antt =====
-- A finished job of internal/memory/outbox.go is not written again.
use gopherharness.Base.{
  ℕ, ◌≡◌, ◌≢◌, refl, sym, ◌∙◌, ap, String, str_eq, Bool, true, false, not, ◌||◌, Option, none, some,
  List, [], ◌∷◌, is_empty, ltb, if_rule, some_inj,
}
use gopherharness.Base.Table.{lookup, insert, lookup-insert_ne}
use gopherharness.Outbox.{
  Evidence, WriteJob, WriteState, WriterOptions, new_job, prepare_found, prepare, attempted,
  record_found, record_result, Commit, not_committed, commit_error, committed, flush_ready,
  flush_job, reopened, retry_found, retry,
}
use gopherharness.Outbox.Retries.{stored, flush_found, Op, prepares, flushes, retries, apply, after}

abbrev Has : String → WriteJob → WriteState → Type 0
Has k j s = lookup k s.jobs ≡ some j

module _ (k : String) (j : WriteJob) (over : j.is_done ≡ true) where
  -- A write under a name whose job is not done leaves the finished one.
  write-Has :
      (key : String) (x : WriteJob) (s : WriteState)
      → key ≢ k
      → Has k j s
      → Has k j (record s { jobs = insert key x s.jobs })
  write-Has key x s ne h = lookup-insert_ne key k x s.jobs ne ∙ h

  other_job :
      (key : String) (s : WriteState) {x : WriteJob}
      → lookup key s.jobs ≡ some x
      → x.is_done ≡ false
      → Has k j s
      → key ≢ k
  other_job key s q free h p =
      let same = some_inj (sym q ∙ ap (λ z. lookup z s.jobs) p ∙ h) in
      let clash : true ≡ false = sym over ∙ sym (ap (λ (z : WriteJob). z.is_done) same) ∙ free in
      absurd (cc)

  module _ (base clean : String → String) (o : WriterOptions) where
    prepare-Has :
        (closed : Bool) (turn session : String) (evidence : List Evidence) (s : WriteState)
        → Has k j s
        → Has k j (stored (prepare base clean closed turn session evidence s) s)
    unfolding prepare
    prepare-Has closed turn session evidence s h =
        if_rule (λ v. Has k j (stored v s))
          (is_empty turn || not (str_eq (base turn) turn) || is_empty session) (λ a. h)
          (λ a.
            if_rule (λ v. Has k j (stored v s)) closed (λ b. h)
              (λ b. from (lookup turn s.jobs) refl))
      where
        job : WriteJob
        job = new_job clean turn session evidence

        from :
            (f : Option WriteJob)
            → lookup turn s.jobs ≡ f
            → Has k j (stored (prepare_found f turn job s) s)
        from none q =
            write-Has turn job s
              (λ p.
                let clash : none ≡ some j = sym q ∙ ap (λ z. lookup z s.jobs) p ∙ h in absurd (cc))
              h
        from (some old) q =
            if_rule (λ v. Has k j (stored v s)) (not (str_eq old.session job.session)) (λ b. h)
              (λ b. h)

    record_result-Has :
        (now : ℕ) (key : String) (err : Option String) (s : WriteState)
        → Has k j s
        → Has k j (record_result o now key err s)
    unfolding record_result
    record_result-Has now key err s h = from (lookup key s.jobs) refl
      where
        from :
            (f : Option WriteJob) → lookup key s.jobs ≡ f → Has k j (record_found f o now key err s)
        from none q = h
        from (some x) q =
            if_rule (Has k j) x.is_done (λ a. h)
              (λ a. write-Has key (attempted o now err x) s (other_job key s q a h) h)

    flush-Has :
        (now : ℕ) (c : Commit) (key : String) (s : WriteState)
        → Has k j s
        → Has k j (flush_found base clean o (lookup key s.jobs) now c key s)
    unfolding flush_job
    flush-Has now c key s h = from (lookup key s.jobs)
      where
        ready : (c : Commit) → Has k j (flush_ready c o now key s)
        ready not_committed = h
        ready (commit_error e) = record_result-Has now key (some e) s h
        ready (committed err) = record_result-Has now key err s h

        from : (f : Option WriteJob) → Has k j (flush_found base clean o f now c key s)
        from none = h
        from (some x) =
            if_rule (Has k j) (x.is_done || x.is_failed || ltb now x.next_attempt) (λ a. h)
              (λ a. ready c)

    retry-Has : (turn : String) (s : WriteState) → Has k j s → Has k j (stored (retry turn s) s)
    unfolding retry
    retry-Has turn s h = from (lookup turn s.jobs) refl
      where
        from :
            (f : Option WriteJob)
            → lookup turn s.jobs ≡ f
            → Has k j (stored (retry_found f turn s) s)
        from none q = h
        from (some x) q =
            if_rule (λ v. Has k j (stored v s)) x.is_done (λ a. h)
              (λ a. write-Has turn (reopened x) s (other_job turn s q a h) h)

    apply-Has : (op : Op) (s : WriteState) → Has k j s → Has k j (apply base clean o op s)
    unfolding apply
    apply-Has (prepares closed turn session evidence) s h =
        prepare-Has closed turn session evidence s h
    apply-Has (flushes now c key) s h = flush-Has now c key s h
    apply-Has (retries turn) s h = retry-Has turn s h

    -- A job that is done stays exactly as it is, whatever is prepared, flushed and reopened next.
    pub after-lookup :
        (ops : List Op) (s : WriteState)
        → lookup k s.jobs ≡ some j
        → lookup k (after base clean o ops s).jobs ≡ some j
    unfolding after
    after-lookup [] s h = h
    after-lookup (op ∷ ops) s h = after-lookup ops (apply base clean o op s) (apply-Has op s h)
