-- ===== src/Worker/Receipts.antt =====
-- internal/worker/results.go: the durable receipts of workers. Each function is a callback of
-- `durable.File.Update`.
pub mod Pending
use gopherharness.Base.{
  ℕ, ◌≡◌, ◌≢◌, ◌⊎◌, refl, sym, ◌∙◌, ap, subst, arith, String, str_eq, eq_iff, Bool, true, false,
  not, ◌&&◌, ◌||◌, Option, none, some, List, [], ◌∷◌, if◌then◌else◌, if_rule, if_cases, is_empty,
  inl, inr, Bool-cases, some_inj, Option-cases,
}
use gopherharness.Base.Text.{ne_of_test}
use gopherharness.Base.Table.{Table, lookup, insert, lookup-insert_self, lookup-insert_ne}
use gopherharness.Durable.{Verdict, refuse, accept}
use gopherharness.Worker.{
  Receipt, ResultState, Worker, Error, ownership_mismatch, receipt_missing, unknown_receipt,
  not_finished, active, persist_queued, queued_receipt,
}

abbrev pub interrupted_text : String
interrupted_text = "owning runtime exited before a terminal result; worker was not restarted"

-- The loop of `NewDurable` over the records: what was not finished is interrupted.
unfoldable pub interrupt : ℕ → Receipt → Receipt
interrupt now r =
    if active r.status
    then record r { status = "interrupted"; error = interrupted_text; finished_at = now }
    else r

unfoldable pub interrupt_all : ℕ → Table Receipt → Table Receipt
interrupt_all now [] = []
interrupt_all now ((id, r) ∷ m) = (id, interrupt now r) ∷ interrupt_all now m

unfoldable pub open_results :
    String → String → ℕ → ResultState → Verdict Error (Unit {0}) ResultState
open_results session principal now s =
    if not (is_empty s.session)
      && (not (str_eq s.session session) || not (str_eq s.principal principal))
    then refuse ownership_mismatch
    else accept tt (record s {
      session = session;
      principal = principal;
      records = interrupt_all now s.records;
    })

-- `persistFinished`, with the worker as it ended.
abbrev pub finished_receipt : (String → String) → Worker → Receipt → Receipt
finished_receipt redact w r = record r {
  status = w.status;
  result = redact w.result;
  error = redact w.error;
  started_at = w.started_at;
  finished_at = w.finished_at;
  revoked = r.revoked || str_eq w.status "stopped";
}

abbrev pub finish_found :
    Option Receipt → (String → String) → Worker → ResultState → Verdict Error (Unit {0}) ResultState
finish_found none redact w s = refuse receipt_missing
finish_found (some r) redact w s =
    accept tt (record s { records = insert w.id (finished_receipt redact w r) s.records })

unfoldable pub persist_finished :
    (String → String) → Worker → ResultState → Verdict Error (Unit {0}) ResultState
persist_finished redact w s = finish_found (lookup w.id s.records) redact w s

-- `Acknowledge`
abbrev pub acknowledge_found :
    Option Receipt → String → ResultState → Verdict Error (Unit {0}) ResultState
acknowledge_found none id s = refuse unknown_receipt
acknowledge_found (some r) id s =
    if active r.status
    then refuse not_finished
    else accept tt (record s { records = insert id (record r { acknowledged = true }) s.records })

unfoldable pub acknowledge : String → ResultState → Verdict Error (Unit {0}) ResultState
acknowledge id s = acknowledge_found (lookup id s.records) id s

-- `RevokeNotifications`
unfoldable pub revoke_all : Table Receipt → Table Receipt
revoke_all [] = []
revoke_all ((id, r) ∷ m) = (id, record r { revoked = true }) ∷ revoke_all m

unfoldable pub revoke_notifications : ResultState → Verdict Error (Unit {0}) ResultState
revoke_notifications s = accept tt (record s { records = revoke_all s.records })

-- The test of `PendingResults`; the list is sorted by time of creation.
unfoldable pub is_pending : Receipt → Bool
is_pending r = not (active r.status) && not r.acknowledged && not r.revoked

unfoldable pub pending_results : Table Receipt → List Receipt
pending_results [] = []
pending_results ((id, r) ∷ m) = if is_pending r then r ∷ pending_results m else pending_results m

-- The changes of the file of one session, but for the creation of receipts.
pub data Change : Type 0 where
  opens : String → String → ℕ → Change
  finishes : Worker → Change
  acknowledges : String → Change
  revokes : Change

abbrev pub or_same : Verdict Error (Unit {0}) ResultState → ResultState → ResultState
or_same (refuse e) s = s
or_same (accept a t) s = t

module _ (redact : String → String) where
  unfoldable pub change : Change → ResultState → Verdict Error (Unit {0}) ResultState
  change (opens session principal now) s = open_results session principal now s
  change (finishes w) s = persist_finished redact w s
  change (acknowledges id) s = acknowledge id s
  change revokes s = revoke_notifications s

  unfoldable pub changed : List Change → ResultState → ResultState
  changed [] s = s
  changed (c ∷ cs) s = changed cs (or_same (change c s) s)
