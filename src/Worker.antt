-- ===== src/Worker.antt =====
-- internal/worker/manager.go: background workers under a quota of starts in a rolling hour. The
-- goroutine of `run` stands in the stage of its worker. Times are nanoseconds.
pub mod Quota
pub mod Runs
pub mod Slots
pub mod Final
pub mod Life
pub mod Receipts
mod Tests
use gopherharness.Base.{
  ℕ, ◌+◌, ◌-◌, String, str_eq, Bool, true, false, not, ◌&&◌, ◌||◌, Option, none, some, List, [],
  ◌∷◌, ◌++◌, ltb, leb, length, if◌then◌else◌, is_some,
}
use gopherharness.Base.Table.{Table, lookup, insert}
use gopherharness.Base.Text.{blank}
use gopherharness.Durable.{Disk, Verdict, refuse, accept, Fault, update, current}

-- Where the goroutine of a worker stands: before its slot, before the status is set, in the runner,
-- behind it with the error, or at its end.
pub data Stage : Type 0 where
  waiting ready running : Stage
  leaving : Bool → String → Option String → Stage
  ended : Stage

pub record Worker : Type 0 where
  pub id : String
  pub role : String
  pub prompt : String
  pub status : String
  pub result : String
  pub error : String
  pub created_at : ℕ
  pub started_at : ℕ
  pub finished_at : ℕ
  pub inbox : List String
  pub cancelled : Bool
  pub stage : Stage

pub record Receipt : Type 0 where
  pub id : String
  pub role : String
  pub prompt : String
  pub status : String
  pub result : String
  pub error : String
  pub created_at : ℕ
  pub started_at : ℕ
  pub finished_at : ℕ
  pub acknowledged : Bool
  pub revoked : Bool

pub record ResultState : Type 0 where
  pub session : String
  pub principal : String
  pub records : Table Receipt
  pub admissions : List ℕ

pub record Manager : Type 0 where
  pub workers : Table Worker
  pub closed : Bool
  pub over : Bool
  pub slots_used : ℕ
  pub concurrency : ℕ
  pub hourly_limit : ℕ
  pub admissions : List ℕ

pub data Error : Type 0 where
  origin_done prompt_required manager_closed runner_required quota not_persisted : Error
  not_found not_running inbox_full : Error
  ownership_mismatch receipt_missing unknown_receipt not_finished : Error

abbrev pub active : String → Bool
active status = str_eq status "queued" || str_eq status "running" || str_eq status "stopping"

abbrev pub hour : ℕ
hour = 3600000000000

-- The starts that are within the hour before now: the older ones stand first.
unfoldable pub recent : ℕ → List ℕ → List ℕ
recent now [] = []
recent now (a ∷ rest) = if ltb now (a + hour) then a ∷ rest else recent now rest

abbrev pub new_worker : String → String → String → ℕ → Worker
new_worker id role prompt now = record {
  id = id;
  role = role;
  prompt = prompt;
  status = "queued";
  result = "";
  error = "";
  created_at = now;
  started_at = 0;
  finished_at = 0;
  inbox = [];
  cancelled = false;
  stage = waiting;
}

-- The callback of `persistQueued`, with the redaction of texts.
abbrev pub queued_receipt : (String → String) → Worker → Receipt
queued_receipt redact w = record {
  id = w.id;
  role = redact w.role;
  prompt = redact w.prompt;
  status = "queued";
  result = "";
  error = "";
  created_at = w.created_at;
  started_at = 0;
  finished_at = 0;
  acknowledged = false;
  revoked = false;
}

unfoldable pub persist_queued :
    (String → String) → Worker → List ℕ → ResultState → Verdict Error (Unit {0}) ResultState
persist_queued redact w admissions s = accept tt (record s {
  records = insert w.id (queued_receipt redact w) s.records;
  admissions = admissions;
})

pub record Start : Type 0 where
  pub origin_done : Bool
  pub role : String
  pub prompt : String
  pub now : ℕ
  pub id : String
  pub disk : Disk

pub record Started : Type 0 where
  pub answer : Option Error
  pub manager : Manager
  pub file : Option ResultState

abbrev pub zero_state : ResultState
zero_state = record { session = ""; principal = ""; records = []; admissions = [] }

abbrev pub admitted : Option (Fault Error) → Start → Manager → Option ResultState → Started
admitted (some e) s m file = record { answer = some not_persisted; manager = m; file = file }
admitted none s m file = record {
  answer = none;
  manager = record m {
    workers = insert s.id (new_worker s.id s.role s.prompt s.now) m.workers;
    admissions = m.admissions ++ s.now ∷ [];
  };
  file = file;
}

abbrev pub refusal : Error → Manager → Option ResultState → Started
refusal e m file = record { answer = some e; manager = m; file = file }

-- The part of `StartContext` behind its checks, with what is left of the admissions. A start that is
-- not persisted is not counted.
unfoldable pub under_quota : (String → String) → Start → Manager → Option ResultState → Started
under_quota redact s kept file =
    if leb kept.hourly_limit (length kept.admissions)
    then refusal quota kept file
    else (let w = new_worker s.id s.role s.prompt s.now in
        let o =
          update zero_state (persist_queued redact w (kept.admissions ++ s.now ∷ [])) s.disk file in
        admitted o.failure s kept o.file)

-- `StartContext` of a durable manager.
unfoldable pub start : (String → String) → Bool → Start → Manager → Option ResultState → Started
start redact has_runner s m file =
    if s.origin_done
    then refusal origin_done m file
    else (if blank s.prompt
        then refusal prompt_required m file
        else (if m.closed || m.over
            then refusal manager_closed m file
            else (if not has_runner
                then refusal runner_required m file
                else under_quota redact s (record m { admissions = recent s.now m.admissions })
                    file)))
