-- ===== src/Journal/Resolve.antt =====
-- `Resolve` of internal/journal/journal.go: an operator settles an outcome that is not known.
use gopherharness.Base.{
  ℕ, String, str_eq, Bool, not, ◌&&◌, ◌||◌, Option, none, some, [], ◌∷◌, ◌++◌, if◌then◌else◌,
  is_some,
}
use gopherharness.Base.Table.{lookup, insert}
use gopherharness.Base.Text.{blank}
use gopherharness.Durable.{Verdict, refuse, accept}
use gopherharness.Journal.{
  Payload, message_id, Resolution, Entry, State, Error, key, new_entry, not_unresolved,
  result_exists, invalid_decision, decision_incomplete,
}

-- `Resolve`: what the operator's decision does to an entry that is unresolved.
abbrev pub unresolved : String → Entry → Bool
unresolved kind e =
    (str_eq kind "outbox" && str_eq e.state "unknown")
    || (str_eq kind "inbox" && str_eq e.state "needs_reconcile")

abbrev pub resolved : Entry → String → Option Payload → Resolution → Entry
resolved e to result d = record e {
  state = to;
  result = result;
  updated_at = d.at;
  resolutions = e.resolutions ++ d ∷ [];
}

abbrev pub store : String → Entry → State → State
store k e s = record s { entries = insert k e s.entries }

-- The case `recover_result`, with the encoded message.
unfoldable pub recover_result :
    ℕ → String → Resolution → Payload → Entry → State → Verdict Error (Unit {0}) State
recover_result epoch id d message e s =
    if is_some (lookup (key "outbox" id) s.entries)
    then refuse result_exists
    else accept tt (
        store (key "inbox" id) (resolved e "completed" (some message) d)
          (store (key "outbox" id) (new_entry "outbox" id message epoch d.at) s))

abbrev pub recover_with :
    Option Payload → ℕ → String → Resolution → Entry → State → Verdict Error (Unit {0}) State
recover_with none epoch id d e s = refuse invalid_decision
recover_with (some message) epoch id d e s = recover_result epoch id d message e s

unfoldable pub decide :
    ℕ
    → String
    → String
    → Resolution
    → Option Payload
    → Entry
    → State
    → Verdict Error (Unit {0}) State
decide epoch kind id d recovered e s =
    if str_eq d.action "abandon"
    then accept tt (store (key kind id) (resolved e "abandoned" e.result d) s)
    else (if str_eq kind "outbox" && str_eq d.action "delivered" && not (blank d.receipt)
        then accept tt
            (store (key kind id) (resolved e "delivered" (some (message_id d.receipt)) d) s)
        else (if str_eq kind "outbox" && str_eq d.action "confirmed_not_sent"
            then accept tt (store (key kind id) (resolved e "pending" e.result d) s)
            else (if str_eq kind "inbox" && str_eq d.action "recover_result"
                then recover_with recovered epoch id d e s
                else refuse invalid_decision)))

abbrev resolve_found :
    Option Entry
    → ℕ
    → String
    → String
    → Resolution
    → Option Payload
    → State
    → Verdict Error (Unit {0}) State
resolve_found none epoch kind id d recovered s = refuse not_unresolved
resolve_found (some e) epoch kind id d recovered s =
    if unresolved kind e then decide epoch kind id d recovered e s else refuse not_unresolved

-- The callback of `Resolve`, behind its check of the decision.
unfoldable pub resolve :
    ℕ → String → String → Resolution → Option Payload → ℕ → State → Verdict Error (Unit {0}) State
resolve epoch kind id d recovered now s =
    if blank d.actor || blank d.reason || blank d.evidence
    then refuse decision_incomplete
    else resolve_found (lookup (key kind id) s.entries) epoch kind id (record d { at = now })
        recovered s
