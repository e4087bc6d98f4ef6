-- ===== src/Turn/Run/Limits.antt =====
-- The limits of a turn (internal/runtime/engine.go): its attempts, its tool steps, its final calls.
use gopherharness.Base.{
  ℕ, zero, suc, ◌+◌, ◌≤◌, ◌<◌, ◌-◌, ◌||◌, ltb, leb, ◌≡◌, refl, sym, subst, arith, String, str_eq,
  true, false, not, ◌&&◌, Option, none, some, List, is_empty, if_rule,
}
use gopherharness.Recovery.{Message}
use gopherharness.Turn.{TaskState, LoopGuard, Agent}
use gopherharness.Turn.Loop.{
  Turn, Attempt, answered, finished_error, aborted, out_of_fuel, Step, next, leave, ended, and_then,
  check, finish_error, guard_steps, count_attempt, receive, take_results, Reply, Asked, ask,
  failed_to_measure,
}
use gopherharness.Turn.Received.{ingest}
use gopherharness.Turn.Run.{
  check_done, stop_reason, step_limit, stop_final, asked, counted_calls, attempt, turns, Frame,
  conclude, new_turn, run_turn, advanced, concluded, prepared, ingest_first, close_task,
}
use gopherharness.Turn.Run.Steps.{
  is_fuel, On, and_then-On, Within, At, check-At, finish_error-At, same-At, respond-At,
}

module _ (a : Agent) where
  -- Before an attempt is counted.
  record Ready (k j : ℕ) (t : Turn) : Type 0 where
    at : At a k j t
    room : t.guard.final_only ≡ true → t.guard.final_calls ≤ 1

  guard_steps-At : (k j : ℕ) (t : Turn) → At a k j t → At a k j (guard_steps a t)
  unfolding guard_steps
  guard_steps-At k j t h =
      if_rule (λ u. At a k j u) (leb a.max_steps t.task.tool_steps)
        (λ _. same-At a k j t _ refl refl refl refl refl h) (λ _. h)

  stop_final-Ready : (k j : ℕ) (t : Turn) → At a k j t → On (Ready k j) (Within a) (stop_final t)
  stop_final-Ready k j t h =
      if_rule (λ s. On (Ready k j) (Within a) s) (t.guard.final_only && leb 2 t.guard.final_calls)
        (λ _. h.within) (λ f. record { at = h; room = λ o. ground (arith, f, o) })

  count_attempt-At :
      (k : ℕ) (t : Turn) → k < a.max_attempts → Ready k k t → At a (suc k) k (count_attempt t)
  unfolding count_attempt
  count_attempt-At k t h r = record {
    within = record {
      attempts = omega (arith, h, r.at.count);
      steps = r.at.within.steps;
      finals =
          if_rule (λ n. n ≤ 2) t.guard.final_only (λ o. omega (arith, r.room o))
            (λ _. r.at.within.finals);
      calls = r.at.within.calls;
      counted = omega (arith, r.at.least, r.at.count);
      retried = r.at.within.retried;
    };
    count = omega (arith, r.at.count);
    calls = r.at.calls;
    overflows = r.at.overflows;
    least = r.at.least;
  }

  check_done-At :
      (k j : ℕ) (o : Option String) (t : Turn)
      → At a k j t
      → On (At a k j) (Within a) (check_done o t)
  check_done-At k j none t h = h
  check_done-At k j (some e) t h = (refl, h.within)

  advanced-At :
      (k j : ℕ) (o : Option String) (t : Turn)
      → At a k j t
      → On (At a k j) (Within a) (advanced o t)
  advanced-At k j none t h = h
  advanced-At k j (some e) t h = finish_error-At a k j "context_budget_exceeded" e t h

  receive-At :
      (k j : ℕ) (s : Attempt) (t : Turn) → At a k j t → On (At a k j) (Within a) (receive s t)
  unfolding receive
  receive-At k j s t h =
      check-At a k j _ aborted _ refl (same-At a k j t _ refl refl refl refl refl h)

  take_results-At :
      (k j : ℕ) (s : Attempt) (t : Turn) → At a k j t → On (At a k j) (Within a) (take_results s t)
  unfolding take_results
  take_results-At k j s t h =
      check-At a k j _ aborted _ refl (same-At a k j t _ refl refl refl refl refl h)

  -- The calls of the model in one attempt, by the retries before and those that are left: at least one,
  -- as many as the retries that it takes, and at most one more.
  abbrev Costs : ℕ → ℕ → Asked → Type 0
  Costs left n r =
      (r.calls + n ≤ suc r.retries)
      × (r.retries ≤ n + left)
      × (1 ≤ r.calls)
      × (r.retries ≤ n + r.calls)

  ask-Costs : (reply : ℕ → Reply) (left n : ℕ) → Costs left n (ask reply left n)
  unfolding ask
  ask-Costs reply zero n = (omega arith, omega arith, omega arith, omega arith)
  ask-Costs reply (suc left) n =
      if_rule (Costs (suc left) n)
        (not (reply n).is_overflow
          || (reply n).is_done
          || not (is_empty (reply n).text)
          || not (reply n).shrinks)
        (λ _. (omega arith, omega arith, omega arith, omega arith))
        (λ _.
          measured (ask reply left (suc n)) (ask-Costs reply left (suc n)) (reply n).measure_error)
    where
      measured :
          (later : Asked)
          → Costs left (suc n) later
          → (o : Option String) → Costs (suc left) n (failed_to_measure (reply n) (suc n) o later)
      measured later (c, r, one, m) none =
          (omega (arith, c), omega (arith, r), omega arith, omega (arith, m))
      measured later h (some e) = (omega arith, omega arith, omega arith, omega arith)

  asked-At :
      (k : ℕ) (s : Attempt) (t : Turn)
      → k < a.max_attempts
      → At a (suc k) k t
      → At a (suc k) (suc k) (counted_calls (asked s t) t)
  asked-At k s t lt h =
      let (c, r, one, n) = ask-Costs s.reply (2 - t.overflow_retries) t.overflow_retries in
      let retries : (asked s t).retries ≤ 2 = omega (arith, r, h.overflows) in
      let calls : t.model_calls + (asked s t).calls ≤ suc k + (asked s t).retries =
        omega (arith, c, h.calls) in
      record {
        within = record {
          attempts = h.within.attempts;
          steps = h.within.steps;
          finals = h.within.finals;
          calls = omega (arith, calls, retries, lt);
          counted = omega (arith, h.count, h.least);
          retried = omega (arith, n, h.within.retried);
        };
        count = h.count;
        calls = calls;
        overflows = retries;
        least = omega (arith, one, h.least);
      }

  attempt-At :
      (s : Attempt) (k : ℕ) (t : Turn)
      → k < a.max_attempts
      → At a k k t
      → On (At a (suc k) (suc k)) (Within a) (attempt a s t)
  unfolding attempt
  attempt-At s k t lt h =
      let N = At a (suc k) (suc k) in
      let M = At a (suc k) k in
      and_then-On (At a k k) N (Within a) (check_done s.done_before t) _
        (check_done-At k k s.done_before t h)
        λ t h.
          and_then-On (Ready k k) N (Within a) (stop_final (guard_steps a t)) _
            (stop_final-Ready k k (guard_steps a t) (guard_steps-At k k t h))
            λ t h.
              and_then-On M N (Within a) (check s.write_task aborted (count_attempt t)) _
                (check-At a (suc k) k s.write_task aborted (count_attempt t) refl
                  (count_attempt-At k t lt h))
                λ t h.
                  and_then-On M N (Within a) (receive s t) _ (receive-At (suc k) k s t h) λ t h.
                    and_then-On M N (Within a) (take_results s t) _
                      (take_results-At (suc k) k s t h)
                      λ t h.
                        and_then-On M N (Within a) (advanced s.advance_error t) _
                          (advanced-At (suc k) k s.advance_error t h)
                          λ t h.
                            respond-At a (suc k) (suc k) s (asked s t).reply
                              (counted_calls (asked s t) t) (asked-At k s t lt h)

  abbrev Never : Turn → Type 0
  Never t = true ≡ false

  turns-Within :
      (scripts : ℕ → Attempt) (fuel : ℕ) (t : Turn)
      → a.max_attempts ≤ t.task.attempts + fuel
      → At a t.task.attempts t.task.attempts t
      → On Never (Within a) (turns a scripts fuel t)
  unfolding turns
  turns-Within scripts zero t h w =
      if_rule (λ s. On Never (Within a) s) (ltb t.task.attempts a.max_attempts)
        (λ b. absurd (ground (arith, b, h))) (λ _. w.within)
  turns-Within scripts (suc fuel) t h w =
      if_rule (λ s. On Never (Within a) s) (ltb t.task.attempts a.max_attempts)
        (λ b.
          let k = t.task.attempts in
          and_then-On (At a (suc k) (suc k)) Never (Within a) (attempt a (scripts k) t)
            (turns a scripts fuel) (attempt-At (scripts k) k t (ground (arith, b)) w)
            λ u g.
              turns-Within scripts fuel u (omega (arith, h, g.count))
                (subst (λ n. At a n n u) (sym g.count) g))
        (λ _. w.within)

  -- A step that returns, in a state where P holds.
  abbrev pub Returns : (Turn → Type 0) → Step → Type 0
  Returns P (next t) = true ≡ false
  Returns P (leave t) = true ≡ false
  Returns P (ended e t) = (is_fuel e ≡ false) × P t

  abbrev SameTask : TaskState → TaskState → Type 0
  SameTask t u = (u.attempts ≡ t.attempts) × (u.tool_steps ≡ t.tool_steps)

  stop_reason-SameTask :
      (g : LoopGuard) (t : TaskState) → SameTask t (stop_reason g (step_limit a t))
  stop_reason-SameTask g t =
      let limited : SameTask t (step_limit a t) =
        if_rule (λ u. SameTask t u) (ltb t.tool_steps a.max_steps) (λ _. (refl, refl))
          (λ _. (refl, refl)) in
      if_rule (λ u. SameTask t u)
        (g.final_only && not (str_eq g.reason "tool step budget exhausted")) (λ _. limited)
        (λ _. limited)

  conclude-Returns : (f : Frame) (t : Turn) → (Within a) t → Returns (Within a) (conclude a f t)
  unfolding conclude
  conclude-Returns f t w =
      let task = stop_reason t.guard (step_limit a (record t.task { status = "failed" })) in
      let u : Turn = record t { task = task } in
      let (attempts, steps) = stop_reason-SameTask t.guard (record t.task { status = "failed" }) in
      let v : (Within a) u = record {
        attempts = omega (arith, attempts, w.attempts);
        steps = omega (arith, steps, w.steps);
        finals = w.finals;
        calls = w.calls;
        counted = omega (arith, attempts, w.counted);
        retried = w.retried;
      } in
      if_rule
        (λ s. Returns (Within a) (
          and_then s λ t.
            and_then (check f.write_report aborted t) λ t. ended (answered t.task.final_answer) t))
        f.write_end
        (λ _.
          if_rule (λ s. Returns (Within a) (and_then s λ t. ended (answered t.task.final_answer) t))
            f.write_report (λ _. (refl, v)) (λ _. (refl, v)))
        (λ _. (refl, v))

  close_task-Returns :
      (f : Frame) (s : Step) → Returns (Within a) s → Returns (Within a) (close_task f s)
  close_task-Returns f (next t) h = h
  close_task-Returns f (leave t) h = h
  close_task-Returns f (ended (answered x) t) h = h
  close_task-Returns f (ended (finished_error x) t) h = h
  close_task-Returns f (ended out_of_fuel t) h = h
  close_task-Returns f (ended aborted t) (q, w) =
      let v =
        λ (u : Turn) (p : u.task.attempts ≡ t.task.attempts)
            (q : u.task.tool_steps ≡ t.task.tool_steps)
            (r : u.guard.final_calls ≡ t.guard.final_calls) (m : u.model_calls ≡ t.model_calls)
            (o : u.overflow_retries ≡ t.overflow_retries).
          let z : (Within a) u = record {
            attempts = omega (arith, p, w.attempts);
            steps = omega (arith, q, w.steps);
            finals = omega (arith, r, w.finals);
            calls = omega (arith, m, w.calls);
            counted = omega (arith, p, m, w.counted);
            retried = omega (arith, m, o, w.retried);
          } in
          z in
      (
        refl,
        if_rule (λ u. (Within a) u) (str_eq t.task.status "running")
            (λ _. v _ refl refl refl refl refl) (λ _. w),
      )

  concluded-Returns :
      (f : Frame) (s : Step) → On Never (Within a) s → Returns (Within a) (concluded a f s)
  concluded-Returns f (next t) h = h
  concluded-Returns f (leave t) w = conclude-Returns f t w
  concluded-Returns f (ended e t) h = h

  begin :
      (f : Frame) (scripts : ℕ → Attempt) (t : Turn)
      → At a 0 0 t
      → Returns (Within a) (
          and_then (check (f.save_start && f.write_start) aborted t) λ t.
            and_then (ingest_first f t) λ t.
              and_then
                (prepared f.prepare_error t)
                λ t. concluded a f (turns a scripts a.max_attempts t))
  unfolding finish_error
  begin f scripts t w =
      if_rule
        (λ s. Returns (Within a) (
          and_then s λ t. and_then (ingest_first f t) λ t.
            and_then (prepared f.prepare_error t)
              λ t. concluded a f (turns a scripts a.max_attempts t)))
        (f.save_start && f.write_start)
        (λ _.
          let (ok, ms) = ingest f.ingested t.messages in
          let u : Turn = record t { messages = ms } in
          let v : At a 0 0 u = same-At a 0 0 t u refl refl refl refl refl w in
          if_rule
            (λ s. Returns (Within a) (
              and_then s λ t.
                and_then (prepared f.prepare_error t)
                  λ t. concluded a f (turns a scripts a.max_attempts t)))
            ok (λ _. context u v f.prepare_error) (λ _. (refl, v.within)))
        (λ _. (refl, w.within))
    where
      context :
          (u : Turn)
          → At a 0 0 u
          → (o : Option String)
          → Returns
              (Within a)
              (and_then (prepared o u) λ t. concluded a f (turns a scripts a.max_attempts t))
      context u v none = concluded-Returns f (turns a scripts a.max_attempts u) (
          turns-Within scripts a.max_attempts u (omega (arith, v.count))
            (subst (λ n. At a n n u) (sym v.count) v))
      context u v (some e) = (
        refl,
        record {
          attempts = v.within.attempts;
          steps = v.within.steps;
          finals = v.within.finals;
          calls = v.within.calls;
          counted = v.within.counted;
          retried = v.within.retried;
        },
      )

  -- Whatever the model, the tools and the disk do, a turn returns, after at most the configured number
  -- of attempts and two calls of the model more than that, which repeat a request whose context
  -- overflowed; with at most the configured number of tool steps; and with at most two attempts at a
  -- final answer once it is limited to one. Each attempt but the last has called the model, and each
  -- retry has.
  pub run_turn-Within :
      (f : Frame) (scripts : ℕ → Attempt) (request : String) (ms : List Message)
      → Returns (Within a) (run_turn a f scripts request ms)
  unfolding run_turn
  run_turn-Within f scripts request ms =
      let start : (g : Frame) → At a 0 0 (new_turn g request ms) = λ g. record {
        within = record {
          attempts = omega arith;
          steps = omega arith;
          finals = omega arith;
          calls = omega arith;
          counted = omega arith;
          retried = omega arith;
        };
        count = refl;
        calls = omega arith;
        overflows = omega arith;
        least = omega arith;
      } in
      if_rule (λ s. Returns (Within a) s) (is_empty request)
        (λ _. (refl, (start (record f { persist_user = false })).within))
        (λ _. close_task-Returns f _ (begin f scripts (new_turn f request ms) (start f)))
