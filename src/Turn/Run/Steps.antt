-- ===== src/Turn/Run/Steps.antt =====
-- What one attempt of a turn counts (internal/runtime/engine.go).
use Prim.Native.String.{◌++◌ as append}
use gopherharness.Base.{
  ℕ, suc, ◌+◌, ◌-◌, ◌≤◌, ltb, leb, ◌≡◌, inl, inr, refl, ap, ◌∙◌, arith, String, str_eq, Bool, true,
  false, not, ◌&&◌, ◌||◌, Option, none, some, List, [], ◌∷◌, if◌then◌else◌, if_rule, if_cases,
  some_inj,
}
use gopherharness.Closure.{contains}
use gopherharness.Recovery.{Call}
use gopherharness.Turn.{Kind, tools, final, retry, Parsed, LoopGuard, Agent}
use gopherharness.Turn.Batch.{Batch, Outcome, stopped, went_on, execute_new}
use gopherharness.Turn.Batch.Accepts.{After, Counted, open_count}
use gopherharness.Turn.Batch.Whole.{Completes, execute_new-After}
use gopherharness.Turn.Loop.{
  Turn, Reply, Attempt, Ending, aborted, out_of_fuel, Step, next, leave, ended, and_then, check,
  finish_error, parsed,
}
use gopherharness.Turn.Respond.{
  decision, respond_retry, retry_messages, completed, plain_message, remind, prepare_facts,
  persisted, finish_answer, respond_final, consed, number, call_id, called_ids, as_batch,
  from_batch, after_batch, run_calls, after_number, respond_tools, by_kind, respond,
  append_messages, calling,
}

abbrev pub is_fuel : Ending → Bool
is_fuel out_of_fuel = true
is_fuel _ = false

-- What holds where a step goes on, and where it leaves or returns.
abbrev pub On : (Turn → Type 0) → (Turn → Type 0) → Step → Type 0
On P Q (next t) = P t
On P Q (leave t) = Q t
On P Q (ended e t) = (is_fuel e ≡ false) × Q t

pub and_then-On :
    (P P' Q : Turn → Type 0) (s : Step) (f : Turn → Step)
    → On P Q s
    → ((t : Turn) → P t → On P' Q (f t))
    → On P' Q (and_then s f)
and_then-On P P' Q (next t) f h k = k t h
and_then-On P P' Q (leave t) f h k = h
and_then-On P P' Q (ended e t) f h k = h

module _ (a : Agent) where
  pub record Within (t : Turn) : Type 0 where
    pub attempts : t.task.attempts ≤ a.max_attempts
    pub steps : t.task.tool_steps ≤ a.max_steps
    pub finals : t.guard.final_calls ≤ 2
    pub calls : t.model_calls ≤ a.max_attempts + 2
    pub counted : t.task.attempts ≤ t.model_calls + 1
    pub retried : t.overflow_retries ≤ t.model_calls

  -- Within the limits, after k attempts, j of which have called the model.
  pub record At (k j : ℕ) (t : Turn) : Type 0 where
    pub within : Within t
    pub count : t.task.attempts ≡ k
    pub calls : t.model_calls ≤ j + t.overflow_retries
    pub overflows : t.overflow_retries ≤ 2
    pub least : j ≤ t.model_calls

  module _ (k j : ℕ) where
    pub check-At :
        (ok : Bool) (e : Ending) (t : Turn)
        → is_fuel e ≡ false
        → At k j t
        → On (At k j) Within (check ok e t)
    check-At ok e t f h = if_rule (λ s. On (At k j) Within s) ok (λ _. h) (λ _. (f, h.within))

    pub finish_error-At :
        (reason text : String) (t : Turn)
        → At k j t
        → On (At k j) Within (finish_error reason text t)
    unfolding finish_error
    finish_error-At reason text t h = (
      refl,
      record {
        attempts = h.within.attempts;
        steps = h.within.steps;
        finals = h.within.finals;
        calls = h.within.calls;
        counted = h.within.counted;
        retried = h.within.retried;
      },
    )

    persisted-At :
        (ok : Bool) (text : String) (t : Turn) → At k j t → On (At k j) Within (persisted ok text t)
    persisted-At ok text t h =
        if_rule (λ s. On (At k j) Within s) ok (λ _. h)
          (λ _. finish_error-At "persistence_error" text t h)

    -- A turn with the same counts.
    pub same-At :
        (t u : Turn)
        → u.task.attempts ≡ t.task.attempts
        → u.task.tool_steps ≡ t.task.tool_steps
        → u.guard.final_calls ≡ t.guard.final_calls
        → u.model_calls ≡ t.model_calls
        → u.overflow_retries ≡ t.overflow_retries
        → At k j t
        → At k j u
    same-At t u p q r m o h = record {
      within = record {
        attempts = omega (arith, h.within.attempts, p);
        steps = omega (arith, h.within.steps, q);
        finals = omega (arith, h.within.finals, r);
        calls = omega (arith, h.within.calls, m);
        counted = omega (arith, h.within.counted, p, m);
        retried = omega (arith, h.within.retried, m, o);
      };
      count = p ∙ h.count;
      calls = omega (arith, h.calls, m, o);
      overflows = omega (arith, h.overflows, o);
      least = omega (arith, h.least, m);
    }

    respond_retry-At :
        (s : Attempt) (r : Reply) (p : Parsed) (t : Turn)
        → At k j t
        → On (At k j) Within (respond_retry s r p t)
    unfolding respond_retry
    respond_retry-At s r p t h =
        let u : Turn =
          append_messages (retry_messages s r p) (record t { retries = suc t.retries }) in
        and_then-On (At k j) (At k j) Within (check s.save_retry aborted u)
          (λ u.
            if leb 3 u.retries
            then finish_error "retry_limit_reached" "model output retry limit reached" u
            else next u)
          (check-At s.save_retry aborted u refl (same-At t u refl refl refl refl refl h))
          λ v g.
            if_rule (λ s. On (At k j) Within s) (leb 3 v.retries)
              (λ _. finish_error-At "retry_limit_reached" "model output retry limit reached" v g)
              (λ _. g)

    pub bind :
        (s : Step) (f : Turn → Step)
        → On (At k j) Within s
        → ((t : Turn) → At k j t → On (At k j) Within (f t))
        → On (At k j) Within (and_then s f)
    bind s f h g = and_then-On (At k j) (At k j) Within s f h g

    prepare_facts-At :
        (s : Attempt) (t : Turn) → At k j t → On (At k j) Within (prepare_facts a s t)
    unfolding prepare_facts
    prepare_facts-At s t h =
        if_rule (λ s. On (At k j) Within s) (not a.has_fact_writer) (λ _. h)
          (λ _. from s.prepare_error)
      where
        from :
            (o : Option String)
            → On
                (At k j)
                Within
                (elim o [ none ↦ next t | some e ↦ finish_error "persistence_error" e t ])
        from none = h
        from (some e) = finish_error-At "persistence_error" e t h

    finish_answer-At :
        (s : Attempt) (answer : String) (t : Turn)
        → At k j t
        → On (At k j) Within (finish_answer a s answer t)
    unfolding finish_answer
    finish_answer-At s answer t h =
        let u =
          append_messages (plain_message "assistant" answer s.now ∷ []) (completed answer t) in
        bind (prepare_facts a s u) _ (prepare_facts-At s u (same-At t u refl refl refl refl refl h))
          λ t h.
            bind (persisted s.write_checkpoint "checkpoint" t) _
              (persisted-At s.write_checkpoint "checkpoint" t h)
              λ t h.
                bind (persisted s.save_final "session" t) _
                  (persisted-At s.save_final "session" t h)
                  λ t h.
                    bind (persisted s.write_final "task" t) _
                      (persisted-At s.write_final "task" t h)
                      λ t h.
                        bind (check s.write_report aborted t) _
                          (check-At s.write_report aborted t refl h) λ t h. (refl, h.within)

    respond_final-At :
        (s : Attempt) (p : Parsed) (t : Turn)
        → At k j t
        → On (At k j) Within (respond_final a s p t)
    unfolding respond_final remind
    respond_final-At s p t h =
        if_rule (λ s. On (At k j) Within s)
          (str_eq (decision a s t.task).action "runtime_notice"
            || str_eq (decision a s t.task).action "block")
          (λ _.
            check-At (s.write_notice && s.save_notice) aborted _ refl
              (same-At t _ refl refl refl refl refl h))
          (λ _. finish_answer-At s p.text t h)

    -- The calls that are not blocked fit into the steps that are left.
    number-open :
        (s : Attempt) (g : LoopGuard) (steps i : ℕ) (seen : List String) (cs ds : List Call)
        (bs : List Bool)
        → number a s g steps i seen cs ≡ some (ds, bs)
        → open_count bs ds ≤ a.max_steps - (steps + i)
    unfolding number open_count
    number-open s g steps i seen [] ds bs h =
        let q : open_count [] [] ≡ open_count bs ds =
          ap (λ (p : List Call × List Bool). open_count p.1 p.0) (some_inj h) in
        omega (arith, q)
    number-open s g steps i seen (c ∷ cs) ds bs h =
        let id = call_id s i c in
        let rest = number a s g steps (suc i) (id ∷ seen) cs in
        elim (if_cases (contains id seen) h) [
          | inl (b, e) ↦ absurd (cc)
          | inr (b, e) ↦
              from rest id (λ ds' bs' e'. number-open s g steps (suc i) (id ∷ seen) cs ds' bs' e') e
        ]
      where
        from :
            (o : Option (List Call × List Bool)) (id : String)
            → ((ds' : List Call) (bs' : List Bool)
                → o ≡ some (ds', bs')
                → open_count bs' ds' ≤ a.max_steps - (steps + suc i))
            → consed (record c { id = id }) (g.final_only || ltb a.max_steps (steps + suc i)) o
              ≡ some (ds, bs)
            → open_count bs ds ≤ a.max_steps - (steps + i)
        from none id k e = absurd (cc)
        from (some (ds', bs')) id k e =
            let fits = k ds' bs' refl in
            let blocked = g.final_only || ltb a.max_steps (steps + suc i) in
            let q : (if blocked then 0 else 1) + open_count bs' ds' ≡ open_count bs ds =
              ap (λ (p : List Call × List Bool). open_count p.1 p.0) (some_inj e) in
            let one : (if blocked then 0 else 1) + open_count bs' ds' ≤ a.max_steps - (steps + i) =
              if_rule (λ n. n + open_count bs' ds' ≤ a.max_steps - (steps + i)) blocked
                (λ _. omega (arith, fits))
                (λ f.
                  let room : steps + suc i ≤ a.max_steps = ground (arith, f) in
                  omega (arith, fits, room)) in
            omega (arith, q, one)

    run_calls-At :
        (s : Attempt) (r : Reply) (cs : List Call) (blocked : List Bool) (t : Turn)
        → t.task.tool_steps + open_count blocked cs ≤ a.max_steps
        → At k j t
        → On (At k j) Within (run_calls a s r cs blocked t)
    unfolding run_calls finish_error
    run_calls-At s r cs blocked t fits h =
        let u = append_messages (calling s r cs ∷ []) t in
        if_rule
          (λ x. On (At k j) Within (
            and_then x λ t.
              and_then (persisted s.save_calls "session" (append_messages (calling s r cs ∷ []) t))
                λ t.
                  after_batch t
                    (execute_new a s.save_batch s.clear_batch s.groups cs blocked (as_batch t))))
          (not a.async_approval || s.is_freezeable)
          (λ _.
            if_rule
              (λ x. On (At k j) Within (
                and_then x λ t.
                  after_batch t
                    (execute_new a s.save_batch s.clear_batch s.groups cs blocked (as_batch t))))
              s.save_calls
              (λ _.
                from (execute_new a s.save_batch s.clear_batch s.groups cs blocked (as_batch u))
                  (execute_new-After a s.save_batch s.clear_batch s.groups cs blocked (as_batch u)))
              (λ _.
                finish_error-At "persistence_error" "session" u
                  (same-At t u refl refl refl refl refl h)))
          (λ _. (refl, h.within))
      where
        counted :
            (b : Batch)
            → Counted (open_count blocked cs) (as_batch (append_messages (calling s r cs ∷ []) t)) b
            → At k j (from_batch (append_messages (calling s r cs ∷ []) t) b)
        counted b c = record {
          within = record {
            attempts = omega (arith, h.within.attempts, c.attempts);
            steps = omega (arith, fits, c.steps);
            finals = omega (arith, h.within.finals, c.final_calls);
            calls = h.within.calls;
            counted = omega (arith, h.within.counted, c.attempts);
            retried = h.within.retried;
          };
          count = c.attempts ∙ h.count;
          calls = h.calls;
          overflows = h.overflows;
          least = h.least;
        }

        from :
            (o : Outcome)
            → After
                (Completes a cs blocked (as_batch (append_messages (calling s r cs ∷ []) t)))
                (Counted
                  (open_count blocked cs)
                  (as_batch (append_messages (calling s r cs ∷ []) t)))
                o
            → On (At k j) Within (after_batch (append_messages (calling s r cs ∷ []) t) o)
        from (stopped st b) (f, c) = (refl, (counted b c).within)
        from (went_on b) (c, _) = counted b c

    respond_tools-At :
        (s : Attempt) (r : Reply) (p : Parsed) (t : Turn)
        → At k j t
        → On (At k j) Within (respond_tools a s r p t)
    unfolding respond_tools
    respond_tools-At s r p t h =
        from (number a s t.guard t.task.tool_steps 0 (called_ids t.messages) p.calls) refl
      where
        from :
            (o : Option (List Call × List Bool))
            → number a s t.guard t.task.tool_steps 0 (called_ids t.messages) p.calls ≡ o
            → On (At k j) Within (after_number a s r o t)
        from none q = finish_error-At "invalid_tool_call" "duplicate tool call ID" t h
        from (some (cs, bs)) q =
            let fits =
              number-open s t.guard t.task.tool_steps 0 (called_ids t.messages) p.calls cs bs q in
            run_calls-At s r cs bs t (omega (arith, fits, h.within.steps)) h

    pub respond-At :
        (s : Attempt) (r : Reply) (t : Turn) → At k j t → On (At k j) Within (respond a s r t)
    unfolding respond
    respond-At s r t h = from r.error
      where
        kinds : (x : Kind) → On (At k j) Within (by_kind a s r (parsed a r) x t)
        kinds tools = respond_tools-At s r (parsed a r) t h
        kinds final = respond_final-At s (parsed a r) t h
        kinds retry = respond_retry-At s r (parsed a r) t h

        from :
            (o : Option String)
            → On (At k j) Within (elim o [
              | some e ↦
                  if t.guard.final_only && not r.is_done
                  then leave t
                  else finish_error "model_error" (append "model: " e) t
              | none ↦ by_kind a s r (parsed a r) (parsed a r).kind t
            ])
        from none = kinds (parsed a r).kind
        from (some e) =
            if_rule (λ s. On (At k j) Within s) (t.guard.final_only && not r.is_done)
              (λ _. h.within) (λ _. finish_error-At "model_error" (append "model: " e) t h)
