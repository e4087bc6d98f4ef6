-- ===== src/Turn/Tests.antt =====
-- A turn of internal/runtime/engine.go: the model reads a file and answers.
use gopherharness.Base.{
  ℕ, zero, suc, ◌≡◌, refl, arith, String, Bool, true, false, Option, none, some, List, [], ◌∷◌, map,
}
use gopherharness.Base.Table.{Table}
use gopherharness.Closure.{validate_closure}
use gopherharness.Recovery.{Call, view}
use gopherharness.Tools.{Capability, read, ToolResult, Execution, returned, failed_call}
use gopherharness.Turn.{Agent, Parsed, tools, final}
use gopherharness.Turn.Batch.{Script, Batch, fresh, execute_new}
use gopherharness.Turn.Batch.Accepts.{After, Counted, open_count}
use gopherharness.Turn.Batch.Whole.{Completes, execute_new-After}
use gopherharness.Turn.Received.{WorkerResult, ingest}
use gopherharness.Turn.Received.Once.{ingest_again}
use gopherharness.Turn.Loop.{Turn, Reply, Attempt, Step, next, leave, ended, answered}
use gopherharness.Turn.Run.{Frame, run_turn, new_task}
use gopherharness.Turn.Run.Limits.{Returns, run_turn-Within}
use gopherharness.Turn.Run.Steps.{Within}
use gopherharness.Turn.Run.Closed.{run_turn-validate_closure}

abbrev read_call : Call
read_call = record { id = ""; name = "read_file"; args = "{}" }

abbrev agent : Agent
agent = record {
  max_steps = 3;
  max_attempts = 4;
  async_approval = false;
  registry = ("read_file", record { effect = read; concurrency_safe = true }) ∷ [];
  readiness = "off";
  has_fact_writer = false;
  digest = λ c r. c.name;
  render = λ r. r.output;
  is_verification = λ c. false;
  is_native = false;
  parse = λ t. record { kind = final; calls = []; text = t };
  trim = λ t. t;
  sign = λ rs. "";
  notice = λ d. "";
}

abbrev reading : Agent
reading = record agent { is_native = true }

abbrev group_script : ℕ → Script
group_script i = record {
  done_before = none;
  is_risky = false;
  save_start = true;
  done_at = λ i. none;
  execute = λ i c. returned (record (failed_call "" "" c) { status = "ok"; output = "text" });
  done_after_tool = λ i. none;
  message_id = λ i. "m";
  now = λ i. 3;
  save_pending = true;
  write_pending = true;
  save_buffered = true;
  redact = λ t. t;
  save_session = true;
  write_checkpoint = true;
  write_task = true;
  save_end = true;
  done_after = none;
}

abbrev reply_in : ℕ → Reply
reply_in zero = record {
  text = "";
  calls = read_call ∷ [];
  error = none;
  is_overflow = false;
  is_done = false;
  shrinks = false;
  measure_error = none;
}
reply_in (suc k) = record {
  text = "Done.";
  calls = [];
  error = none;
  is_overflow = false;
  is_done = false;
  shrinks = false;
  measure_error = none;
}

abbrev script : ℕ → Attempt
script k = record {
  done_before = none;
  write_task = true;
  injected = [];
  inbox = "hurry" ∷ [];
  save_received = true;
  ingested = record { pending = some []; save = true; acknowledge = true };
  advance_error = none;
  reply = λ n. reply_in k;
  now = 2;
  message_id = "m";
  save_retry = true;
  running_workers = [];
  write_notice = true;
  save_notice = true;
  prepare_error = none;
  write_checkpoint = true;
  save_final = true;
  write_final = true;
  write_report = true;
  call_id = λ i. "7";
  is_freezeable = true;
  save_calls = true;
  save_batch = true;
  clear_batch = true;
  groups = group_script;
}

abbrev frame : Frame
frame = record {
  persist_user = true;
  now = 1;
  save_start = true;
  write_start = true;
  ingested = record { pending = some []; save = true; acknowledge = true };
  prepare_error = none;
  write_end = true;
  write_report = true;
  context_error = none;
}

abbrev state_of : Step → Turn
state_of (next t) = t
state_of (leave t) = t
state_of (ended e t) = t

abbrev outcome : Step
outcome = run_turn reading frame script "Read it." []

answers : outcome ≡ ended (answered "Done.") (state_of outcome)
unfolding run_turn gopherharness.Turn.Run.turns gopherharness.Turn.Run.attempt
    gopherharness.Turn.Loop.guard_steps gopherharness.Turn.Loop.receive
    gopherharness.Turn.Loop.take_results gopherharness.Turn.Received.ingest
    gopherharness.Turn.Received.drain_inbox gopherharness.Turn.Received.follow_ups
    gopherharness.Turn.Loop.ask gopherharness.Turn.Respond.respond
    gopherharness.Turn.Loop.count_attempt gopherharness.Turn.Loop.parsed
    gopherharness.Turn.Loop.native_parsed gopherharness.Turn.Respond.respond_tools
    gopherharness.Turn.Respond.number gopherharness.Closure.contains
    gopherharness.Turn.Respond.called_ids gopherharness.Base.Table.insert
    gopherharness.Base.Table.lookup gopherharness.Readiness.evaluate gopherharness.Tools.cancelled
    gopherharness.Tools.capability gopherharness.Tools.group_size gopherharness.Tools.run_from
    gopherharness.Tools.run_group gopherharness.Tools.run_indexed_batch
    gopherharness.Tools.safe_prefix gopherharness.Turn.Batch.accept
    gopherharness.Turn.Batch.accept_all gopherharness.Turn.Batch.execute_new
    gopherharness.Turn.Batch.group gopherharness.Turn.Batch.groups gopherharness.Turn.Batch.persist
    gopherharness.Turn.Batch.results gopherharness.Turn.Batch.tool_run
    gopherharness.Turn.Loop.has_prefix gopherharness.Turn.Received.message_ids
    gopherharness.Turn.Respond.finish_answer gopherharness.Turn.Respond.prepare_facts
    gopherharness.Turn.Respond.respond_final gopherharness.Turn.Respond.run_calls
    gopherharness.Turn.accept_task gopherharness.Turn.append_unique gopherharness.Turn.observe
answers = refl

run_turn-Within_example : Returns agent (Within agent) (run_turn agent frame script "Read it." [])
run_turn-Within_example = run_turn-Within agent frame script "Read it." []

nothing_open : validate_closure (map view []) ≡ none
unfolding validate_closure gopherharness.Closure.run
nothing_open = refl

run_turn-validate_closure_example : validate_closure (map view (state_of outcome).messages) ≡ none
run_turn-validate_closure_example =
    run_turn-validate_closure reading frame script "Read it." [] nothing_open answers

abbrev result : WorkerResult
result = record { id = "w1"; body = "{}"; finished_at = 4 }

ingest_again_example :
    (let first =
        ingest (record { pending = some (result ∷ []); save = true; acknowledge = false }) [] in
      (ingest (record { pending = some (result ∷ []); save = true; acknowledge = true }) first.1).1
      ≡ first.1)
ingest_again_example = ingest_again (result ∷ []) true true false true []

-- The batch of the first attempt.
abbrev batch : Batch
batch = record {
  messages = [];
  task = new_task;
  guard = record { failures = []; final_only = false; final_calls = 0; reason = "" };
  continuation =
      fresh new_task (record { failures = []; final_only = false; final_calls = 0; reason = "" });
  saved = none;
}

abbrev numbered : Call
numbered = record read_call { id = "call_7" }

execute_new-After_example :
    After
      (Completes agent (numbered ∷ []) (false ∷ []) batch)
      (Counted (open_count (false ∷ []) (numbered ∷ [])) batch)
      (execute_new agent true true group_script (numbered ∷ []) (false ∷ []) batch)
execute_new-After_example =
    execute_new-After agent true true group_script (numbered ∷ []) (false ∷ []) batch
