-- ===== src/Turn/Run/Closed.antt =====
-- A whole turn keeps the exchanges of its session complete (internal/runtime/engine.go).
use gopherharness.Base.{
  ℕ, zero, suc, ltb, leb, ◌≡◌, refl, subst, String, Bool, true, false, ◌&&◌, Option, none, some,
  List, [], ◌∷◌, ◌++◌, map, if◌then◌else◌, is_empty, if_rule,
}
use gopherharness.Closure.{validate_closure}
use gopherharness.Recovery.{Message, view}
use gopherharness.Turn.{Agent}
use gopherharness.Turn.Received.{
  WorkerResult, Ingest, ingest, drain_inbox, follow_ups, new_results, message_ids, user_message,
}
use gopherharness.Turn.Loop.{
  Turn, Attempt, answered, finished_error, aborted, out_of_fuel, Step, next, leave, ended, check,
  finish_error, guard_steps, count_attempt, receive, take_results,
}
use gopherharness.Turn.Respond.{append_messages}
use gopherharness.Turn.Run.{
  check_done, stop_final, asked, counted_calls, attempt, turns, Frame, conclude, new_turn, run_turn,
  advanced, concluded, prepared, ingest_first, close_task,
}
use gopherharness.Turn.Run.Exchange.{settled, Settled-of, Settled-validate_closure, is_plain}
use gopherharness.Turn.Run.Valid.{
  Plain, follow_ups-Plain, new_results-Plain, Complete, added, Kept, then_Kept, check-Kept, same,
  respond-Kept,
}

drain_inbox-Complete :
    (s : Attempt) (t : Turn)
    → Complete t
    → Complete (record t { messages = drain_inbox s.injected s.inbox s.now t.messages })
unfolding drain_inbox
drain_inbox-Complete s t h =
    let first = follow_ups "Follow-up: " s.now s.injected in
    let u = append_messages first t in
    added u (follow_ups "Worker follow-up: " s.now s.inbox)
      (follow_ups-Plain "Worker follow-up: " s.now s.inbox)
      (added t first (follow_ups-Plain "Follow-up: " s.now s.injected) h)

ingest-Complete :
    (i : Ingest) (t : Turn)
    → Complete t
    → Complete (record t { messages = (ingest i t.messages).1 })
unfolding ingest
ingest-Complete i t h = from i.pending
  where
    from :
        (o : Option (List WorkerResult))
        → Complete (record t {
          messages =
              (elim o as (λ _. Bool × List Message) [
                | none ↦ (false, t.messages)
                | some [] ↦ (true, t.messages)
                | some (r ∷ rs) ↦ (
                  i.save && i.acknowledge,
                  t.messages ++ new_results (message_ids t.messages) (r ∷ rs),
                )
              ]).1;
        })
    from none = h
    from (some []) = h
    from (some (r ∷ rs)) =
        added t (new_results (message_ids t.messages) (r ∷ rs))
          (new_results-Plain (message_ids t.messages) (r ∷ rs)) h

module _ (a : Agent) where
  guard_steps-Complete : (t : Turn) → Complete t → Complete (guard_steps a t)
  unfolding guard_steps
  guard_steps-Complete t h =
      if_rule (λ u. Complete u) (leb a.max_steps t.task.tool_steps) (λ _. same t _ refl h) (λ _. h)

  check_done-Kept : (o : Option String) (t : Turn) → Complete t → Kept (check_done o t)
  check_done-Kept none t h = h
  check_done-Kept (some e) t h = tt

  advanced-Kept : (o : Option String) (t : Turn) → Complete t → Kept (advanced o t)
  unfolding finish_error
  advanced-Kept none t h = h
  advanced-Kept (some e) t h = tt

  attempt-Kept : (s : Attempt) (t : Turn) → Complete t → Kept (attempt a s t)
  unfolding attempt count_attempt receive take_results
  attempt-Kept s t h =
      then_Kept (check_done s.done_before t) _ (check_done-Kept s.done_before t h) λ t h.
        then_Kept (stop_final (guard_steps a t)) _ (stopped_or t (guard_steps-Complete t h)) λ t h.
          then_Kept (check s.write_task aborted (count_attempt t)) _
            (check-Kept s.write_task (count_attempt t) (same t _ refl h))
            λ t h. then_Kept (receive s t) _ (check-Kept _ _ (drain_inbox-Complete s t h)) λ t h.
              then_Kept (take_results s t) _ (check-Kept _ _ (ingest-Complete s.ingested t h))
                λ t h.
                  then_Kept (advanced s.advance_error t) _ (advanced-Kept s.advance_error t h)
                    λ t h.
                      respond-Kept a s (asked s t).reply (counted_calls (asked s t) t)
                        (same t _ refl h)
    where
      stopped_or : (t : Turn) → Complete (guard_steps a t) → Kept (stop_final (guard_steps a t))
      stopped_or t h =
          let u = guard_steps a t in
          if_rule (λ s. Kept s) (u.guard.final_only && leb 2 u.guard.final_calls) (λ _. h) (λ _. h)

  turns-Kept :
      (scripts : ℕ → Attempt) (fuel : ℕ) (t : Turn) → Complete t → Kept (turns a scripts fuel t)
  unfolding turns
  turns-Kept scripts zero t h =
      if_rule (λ s. Kept s) (ltb t.task.attempts a.max_attempts) (λ _. tt) (λ _. h)
  turns-Kept scripts (suc fuel) t h =
      if_rule (λ s. Kept s) (ltb t.task.attempts a.max_attempts)
        (λ _.
          then_Kept (attempt a (scripts t.task.attempts) t) (turns a scripts fuel)
            (attempt-Kept (scripts t.task.attempts) t h) λ u g. turns-Kept scripts fuel u g)
        (λ _. h)

  conclude-Kept : (f : Frame) (t : Turn) → Complete t → Kept (conclude a f t)
  unfolding conclude
  conclude-Kept f t h =
      then_Kept (check f.write_end aborted _) _ (check-Kept f.write_end _ (same t _ refl h))
        λ t h. then_Kept (check f.write_report aborted t) _ (check-Kept f.write_report t h) λ t h. h

  concluded-Kept : (f : Frame) (s : Step) → Kept s → Kept (concluded a f s)
  concluded-Kept f (next t) h = h
  concluded-Kept f (leave t) h = conclude-Kept f t h
  concluded-Kept f (ended e t) h = h

  close_task-Kept : (f : Frame) (s : Step) → Kept s → Kept (close_task f s)
  close_task-Kept f (next t) h = h
  close_task-Kept f (leave t) h = h
  close_task-Kept f (ended (answered x) t) h = h
  close_task-Kept f (ended (finished_error x) t) h = tt
  close_task-Kept f (ended out_of_fuel t) h = tt
  close_task-Kept f (ended aborted t) h = tt

  prepared-Kept : (o : Option String) (t : Turn) → Complete t → Kept (prepared o t)
  unfolding finish_error
  prepared-Kept none t h = h
  prepared-Kept (some e) t h = tt

  run_turn-Kept :
      (f : Frame) (scripts : ℕ → Attempt) (request : String) (ms : List Message)
      → validate_closure (map view ms) ≡ none
      → Kept (run_turn a f scripts request ms)
  unfolding run_turn is_plain
  run_turn-Kept f scripts request ms h =
      let (seen, settled) = Settled-of ms h in
      let base : Turn = record (new_turn f request ms) { messages = ms } in
      let asked_for = if f.persist_user then user_message "" request f.now ∷ [] else [] in
      let start : Complete (new_turn f request ms) =
        added base asked_for (if_rule (λ l. Plain l) f.persist_user (λ _. (refl, tt)) (λ _. tt))
          (record { seen = seen; settled = settled }) in
      if_rule (λ s. Kept s) (is_empty request) (λ _. tt)
        λ _. close_task-Kept f _ (
          then_Kept (check (f.save_start && f.write_start) aborted (new_turn f request ms)) _
            (check-Kept _ _ start)
            λ t h.
              then_Kept (ingest_first f t) _ (check-Kept _ _ (ingest-Complete f.ingested t h))
                λ t h.
                  then_Kept (prepared f.prepare_error t) _ (prepared-Kept f.prepare_error t h)
                    λ t h. concluded-Kept f _ (turns-Kept scripts a.max_attempts t h))

  -- A turn that starts on a session that `ValidateClosure` accepts, and returns an answer, leaves a
  -- session that it accepts: whatever the model asked for, every call has exactly one receipt.
  pub run_turn-validate_closure :
      (f : Frame) (scripts : ℕ → Attempt) (request : String) (ms : List Message) {answer : String}
      {t : Turn}
      → validate_closure (map view ms) ≡ none
      → run_turn a f scripts request ms ≡ ended (answered answer) t
      → validate_closure (map view t.messages) ≡ none
  run_turn-validate_closure f scripts request ms {t = t} h e =
      let c : Complete t = subst Kept e (run_turn-Kept f scripts request ms h) in
      Settled-validate_closure t.messages c.seen c.settled
