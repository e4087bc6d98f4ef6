-- ===== src/Turn/Run/Valid.antt =====
-- A turn that returns an answer leaves complete exchanges (internal/runtime/engine.go).
use Prim.Native.String.{◌++◌ as append}
use gopherharness.Base.{
  ℕ, suc, leb, ◌≡◌, refl, sym, ap, ◌∙◌, subst, String, str_eq, Bool, true, not, ◌&&◌, ◌||◌, Option,
  none, some, List, [], ◌∷◌, ◌++◌, map, if◌then◌else◌, is_empty, if_rule, All, append_assoc,
}
use gopherharness.Closure.{Sets, contains, validate_closure}
use gopherharness.Closure
use gopherharness.Recovery.{Call, Message, view}
use gopherharness.Recovery.Sync.{sets, map-append, run-append}
use gopherharness.Turn.{Kind, tools, final, retry, Parsed, Agent}
use gopherharness.Turn.Batch.{Outcome, stopped, went_on, execute_new}
use gopherharness.Turn.Batch.Accepts.{After, Counted, open_count, replies}
use gopherharness.Turn.Batch.Whole.{Completes, execute_new-After}
use gopherharness.Turn.Received.{WorkerResult, follow_ups, new_results}
use gopherharness.Turn.Loop.{
  Turn, Reply, Attempt, answered, finished_error, aborted, out_of_fuel, Step, next, leave, ended,
  and_then, check, finish_error, parsed,
}
use gopherharness.Turn.Respond.{
  decision, respond_retry, retry_messages, completed, plain_message, remind, prepare_facts,
  persisted, finish_answer, respond_final, number, called_ids, as_batch, after_batch, run_calls,
  after_number, respond_tools, by_kind, respond, append_messages, calling,
}
use gopherharness.Turn.Run.Exchange.{
  Settled, settled, settled-append, is_plain, plain-run, TakenUp, number-TakenUp, exchange-run,
}

abbrev pub Plain : List Message → Type 0
Plain ms = All (λ m. is_plain m ≡ true) ms

pub follow_ups-Plain :
    (prefix : String) (now : ℕ) (ts : List String) → Plain (follow_ups prefix now ts)
unfolding follow_ups is_plain
follow_ups-Plain prefix now [] = tt
follow_ups-Plain prefix now (t ∷ ts) =
    if_rule (λ ms. Plain ms) (is_empty t) (λ _. follow_ups-Plain prefix now ts)
      (λ _. (refl, follow_ups-Plain prefix now ts))

pub new_results-Plain : (seen : List String) (rs : List WorkerResult) → Plain (new_results seen rs)
unfolding new_results is_plain
new_results-Plain seen [] = tt
new_results-Plain seen (r ∷ rs) =
    if_rule (λ ms. Plain ms) (contains (append "worker-result:" r.id) seen)
      (λ _. new_results-Plain seen rs)
      (λ _. (refl, new_results-Plain (append "worker-result:" r.id ∷ seen) rs))

-- The exchanges of a turn are complete.
pub record Complete (t : Turn) : Type 0 where
  pub seen : List String
  pub settled : Settled t.messages seen

pub added : (t : Turn) (ms : List Message) → Plain ms → Complete t → Complete (append_messages ms t)
added t ms p h = record {
  seen = h.seen;
  settled = settled-append t.messages ms h.seen h.seen h.settled (plain-run ms h.seen p);
}

-- Where a step goes on, leaves, or returns an answer.
abbrev pub Kept : Step → Type 0
Kept (next t) = Complete t
Kept (leave t) = Complete t
Kept (ended (answered x) t) = Complete t
Kept (ended e t) = Unit

pub then_Kept :
    (s : Step) (f : Turn → Step)
    → Kept s
    → ((t : Turn) → Complete t → Kept (f t))
    → Kept (and_then s f)
then_Kept (next t) f h k = k t h
then_Kept (leave t) f h k = h
then_Kept (ended (answered x) t) f h k = h
then_Kept (ended (finished_error x) t) f h k = tt
then_Kept (ended aborted t) f h k = tt
then_Kept (ended out_of_fuel t) f h k = tt

pub check-Kept : (ok : Bool) (t : Turn) → Complete t → Kept (check ok aborted t)
check-Kept ok t h = if_rule (λ s. Kept s) ok (λ _. h) (λ _. tt)

persisted-Kept : (ok : Bool) (text : String) (t : Turn) → Complete t → Kept (persisted ok text t)
unfolding finish_error
persisted-Kept ok text t h = if_rule (λ s. Kept s) ok (λ _. h) (λ _. tt)

pub same : (t u : Turn) → u.messages ≡ t.messages → Complete t → Complete u
same t u q h = record { seen = h.seen; settled = subst (λ ms. Settled ms h.seen) (sym q) h.settled }

respond_retry-Kept :
    (s : Attempt) (r : Reply) (p : Parsed) (t : Turn) → Complete t → Kept (respond_retry s r p t)
unfolding respond_retry finish_error is_plain
respond_retry-Kept s r p t h =
    let t' : Turn = record t { retries = suc t.retries } in
    let u = append_messages (retry_messages s r p) t' in
    then_Kept (check s.save_retry aborted u) _
      (check-Kept s.save_retry u
        (added t' (retry_messages s r p) (refl, (refl, tt)) (same t t' refl h)))
      λ v g. if_rule (λ s. Kept s) (leb 3 v.retries) (λ _. tt) (λ _. g)

module _ (a : Agent) where
  prepare_facts-Kept : (s : Attempt) (t : Turn) → Complete t → Kept (prepare_facts a s t)
  unfolding prepare_facts finish_error
  prepare_facts-Kept s t h =
      if_rule (λ s. Kept s) (not a.has_fact_writer) (λ _. h) (λ _. from s.prepare_error)
    where
      from :
          (o : Option String)
          → Kept (elim o [ none ↦ next t | some e ↦ finish_error "persistence_error" e t ])
      from none = h
      from (some e) = tt

  respond_final-Kept :
      (s : Attempt) (p : Parsed) (t : Turn) → Complete t → Kept (respond_final a s p t)
  unfolding respond_final remind finish_answer is_plain
  respond_final-Kept s p t h =
      let t' : Turn = record t { task = record t.task { readiness_reminded = true } } in
      let notice = plain_message "system" (a.notice (decision a s t.task)) s.now in
      let m = plain_message "assistant" p.text s.now in
      let c = completed p.text t in
      if_rule (λ s. Kept s)
        (str_eq (decision a s t.task).action "runtime_notice"
          || str_eq (decision a s t.task).action "block")
        (λ _.
          check-Kept (s.write_notice && s.save_notice) _
            (added t' (notice ∷ []) (refl, tt) (same t t' refl h)))
        λ _.
          then_Kept (prepare_facts a s (append_messages (m ∷ []) c)) _
            (prepare_facts-Kept s _ (added c (m ∷ []) (refl, tt) (same t c refl h)))
            λ t h.
              then_Kept (persisted s.write_checkpoint "checkpoint" t) _
                (persisted-Kept s.write_checkpoint "checkpoint" t h)
                λ t h.
                  then_Kept (persisted s.save_final "session" t) _
                    (persisted-Kept s.save_final "session" t h)
                    λ t h.
                      then_Kept (persisted s.write_final "task" t) _
                        (persisted-Kept s.write_final "task" t h)
                        λ t h.
                          then_Kept (check s.write_report aborted t) _
                            (check-Kept s.write_report t h) λ t h. h

  module _ (s : Attempt) (r : Reply) (cs : List Call) (blocked : List Bool) (t : Turn) where
    abbrev asking : Turn
    asking = append_messages (calling s r cs ∷ []) t

    batch-Kept :
        (o : Outcome) (seen q seen' : List String)
        → Settled t.messages seen
        → TakenUp [] seen cs q seen'
        → After
            (Completes a cs blocked (as_batch asking))
            (Counted (open_count blocked cs) (as_batch asking))
            o
        → Kept (after_batch asking o)
    batch-Kept (stopped x b) seen q seen' h k w = tt
    batch-Kept (went_on b) seen q seen' h k (_, messages) =
        let m = calling s r cs in
        let all : map view b.messages ≡ map view t.messages ++ (view m ∷ replies cs) =
          messages
          ∙ ap (λ l. l ++ replies cs) (map-append t.messages (m ∷ []))
          ∙ append_assoc (map view t.messages) (view m ∷ []) (replies cs) in
        record {
          seen = seen';
          settled = settled b.messages seen' (
              ap (λ l. Closure.run l (sets [] [])) all
              ∙ run-append (map view t.messages) (view m ∷ replies cs) (sets [] []) h.ran
              ∙ exchange-run m cs seen q seen' refl refl refl refl k);
        }

    run_calls-Kept :
        (h : Complete t) (q seen' : List String)
        → TakenUp [] h.seen cs q seen'
        → Kept (run_calls a s r cs blocked t)
    unfolding run_calls finish_error
    run_calls-Kept h q seen' k =
        let run = λ (t : Turn).
          after_batch t
            (execute_new a s.save_batch s.clear_batch s.groups cs blocked (as_batch t)) in
        if_rule
          (λ x. Kept (
            and_then x λ t.
              and_then (persisted s.save_calls "session" (append_messages (calling s r cs ∷ []) t))
                run))
          (not a.async_approval || s.is_freezeable)
          (λ _.
            if_rule (λ x. Kept (and_then x run)) s.save_calls
              (λ _.
                batch-Kept
                  (execute_new a s.save_batch s.clear_batch s.groups cs blocked (as_batch asking))
                  h.seen q seen' h.settled k
                  (execute_new-After a s.save_batch s.clear_batch s.groups cs blocked
                    (as_batch asking)))
              (λ _. tt))
          (λ _. tt)

  respond_tools-Kept :
      (s : Attempt) (r : Reply) (p : Parsed) (t : Turn)
      → Complete t
      → Kept (respond_tools a s r p t)
  unfolding respond_tools finish_error
  respond_tools-Kept s r p t h =
      from (number a s t.guard t.task.tool_steps 0 (called_ids t.messages) p.calls) refl
    where
      from :
          (o : Option (List Call × List Bool))
          → number a s t.guard t.task.tool_steps 0 (called_ids t.messages) p.calls ≡ o
          → Kept (after_number a s r o t)
      from none e = tt
      from (some (cs, bs)) e =
          let (q, seen', k) =
            number-TakenUp a s t.guard t.task.tool_steps 0 (called_ids t.messages) [] h.seen p.calls
              cs bs e h.settled.called in
          run_calls-Kept s r cs bs t h q seen' k

  pub respond-Kept : (s : Attempt) (r : Reply) (t : Turn) → Complete t → Kept (respond a s r t)
  unfolding respond finish_error
  respond-Kept s r t h = from r.error
    where
      kinds : (j : Kind) → Kept (by_kind a s r (parsed a r) j t)
      kinds tools = respond_tools-Kept s r (parsed a r) t h
      kinds final = respond_final-Kept s (parsed a r) t h
      kinds retry = respond_retry-Kept s r (parsed a r) t h

      from :
          (o : Option String)
          → Kept (elim o [
            | some e ↦
                if t.guard.final_only && not r.is_done
                then leave t
                else finish_error "model_error" (append "model: " e) t
            | none ↦ by_kind a s r (parsed a r) (parsed a r).kind t
          ])
      from none = kinds (parsed a r).kind
      from (some e) = if_rule (λ s. Kept s) (t.guard.final_only && not r.is_done) (λ _. h) (λ _. tt)
