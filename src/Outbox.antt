-- ===== src/Outbox.antt =====
-- internal/memory/outbox.go: the writes to memory that wait for a committed turn. Durations are
-- nanoseconds, and a retry base is below 2 ^ 54 of them, so that nothing wraps.
pub mod Retries
pub mod Finished
pub mod Tries
mod Tests
use gopherharness.Base.{
  ℕ, ◌+◌, ◌-◌, ◌*◌, ◌^◌, min, String, str_eq, Bool, true, false, not, ◌&&◌, ◌||◌, Option, none,
  some, List, [], ◌∷◌, is_empty, if◌then◌else◌, leb, ltb,
}
use gopherharness.Base.Table.{Table, lookup, insert}
use gopherharness.Durable.{Verdict, refuse, accept}

pub record Evidence : Type 0 where
  pub id : String
  pub kind : String
  pub text : String
  pub observed_at : ℕ

pub record WriteJob : Type 0 where
  pub turn : String
  pub session : String
  pub evidence : List Evidence
  pub attempts : ℕ
  pub is_done : Bool
  pub is_failed : Bool
  pub last_error : String
  pub next_attempt : ℕ

pub record WriteState : Type 0 where
  pub jobs : Table WriteJob

pub record WriterOptions : Type 0 where
  pub retry_base : ℕ
  pub max_attempts : ℕ

pub data Error : Type 0 where
  invalid_turn writer_closed other_session job_not_found : Error

unfoldable pub sanitized : (String → String) → List Evidence → List Evidence
sanitized clean [] = []
sanitized clean (e ∷ es) = record e { text = clean e.text } ∷ sanitized clean es

abbrev pub new_job : (String → String) → String → String → List Evidence → WriteJob
new_job clean turn session evidence = record {
  turn = turn;
  session = session;
  evidence = sanitized clean evidence;
  attempts = 0;
  is_done = false;
  is_failed = false;
  last_error = "";
  next_attempt = 0;
}

abbrev pub prepare_found :
    Option WriteJob → String → WriteJob → WriteState → Verdict Error (Unit {0}) WriteState
prepare_found none turn job s = accept tt (record s { jobs = insert turn job s.jobs })
prepare_found (some old) turn job s =
    if not (str_eq old.session job.session) then refuse other_session else accept tt s

-- `Prepare`, with the last element of a path as a parameter.
unfoldable pub prepare :
    (String → String)
    → (String → String)
    → Bool
    → String
    → String
    → List Evidence
    → WriteState
    → Verdict Error (Unit {0}) WriteState
prepare base clean closed turn session evidence s =
    if is_empty turn || not (str_eq (base turn) turn) || is_empty session
    then refuse invalid_turn
    else (if closed
        then refuse writer_closed
        else prepare_found (lookup turn s.jobs) turn (new_job clean turn session evidence) s)

abbrev pub five_minutes : ℕ
five_minutes = 300000000000

-- `recordResult`
unfoldable pub attempted : WriterOptions → ℕ → Option String → WriteJob → WriteJob
attempted o now none j = record j { attempts = j.attempts + 1; is_done = true; last_error = "" }
attempted o now (some e) j = record j {
  attempts = j.attempts + 1;
  last_error = e;
  is_failed = leb o.max_attempts (j.attempts + 1);
  next_attempt = now + min (o.retry_base * 2 ^ min j.attempts 8) five_minutes;
}

abbrev pub record_found :
    Option WriteJob → WriterOptions → ℕ → String → Option String → WriteState → WriteState
record_found none o now key err s = s
record_found (some j) o now key err s =
    if j.is_done then s else record s { jobs = insert key (attempted o now err j) s.jobs }

unfoldable pub record_result : WriterOptions → ℕ → String → Option String → WriteState → WriteState
record_result o now key err s = record_found (lookup key s.jobs) o now key err s

-- What the report of a job's turn says: not there or not completed, unreadable, or committed, and then
-- what the store answers.
pub data Commit : Type 0 where
  not_committed : Commit
  commit_error : String → Commit
  committed : Option String → Commit

-- One job of `flush`, with the state that was read before.
abbrev pub flush_ready : Commit → WriterOptions → ℕ → String → WriteState → WriteState
flush_ready not_committed o now key s = s
flush_ready (commit_error e) o now key s = record_result o now key (some e) s
flush_ready (committed err) o now key s = record_result o now key err s

unfoldable pub flush_job : WriterOptions → ℕ → Commit → String → WriteJob → WriteState → WriteState
flush_job o now c key j s =
    if j.is_done || j.is_failed || ltb now j.next_attempt then s else flush_ready c o now key s

-- The loop over the jobs that were read.
unfoldable pub flush :
    WriterOptions → ℕ → (String → Commit) → Table WriteJob → WriteState → WriteState
flush o now c [] s = s
flush o now c ((key, j) ∷ js) s = flush o now c js (flush_job o now (c key) key j s)

-- `Retry`
abbrev pub reopened : WriteJob → WriteJob
reopened j = record j { is_failed = false; attempts = 0; next_attempt = 0 }

abbrev pub retry_found : Option WriteJob → String → WriteState → Verdict Error (Unit {0}) WriteState
retry_found none turn s = refuse job_not_found
retry_found (some j) turn s =
    if j.is_done
    then accept tt s
    else accept tt (record s { jobs = insert turn (reopened j) s.jobs })

unfoldable pub retry : String → WriteState → Verdict Error (Unit {0}) WriteState
retry turn s = retry_found (lookup turn s.jobs) turn s

-- `Pending`
unfoldable pub pending : Table WriteJob → ℕ
pending [] = 0
pending ((k, j) ∷ js) = (if j.is_done then 0 else 1) + pending js
