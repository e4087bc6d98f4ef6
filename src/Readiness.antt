-- ===== src/Readiness.antt =====
-- internal/governance/readiness.go: `Evaluate`, the gate before a final answer. The digest of the
-- reasons is a parameter.
pub mod Gate
mod Tests
use Prim.Native.String.{◌++◌ as append}
use gopherharness.Base.{
  String, str_eq, Bool, true, false, not, ◌&&◌, ◌||◌, List, [], ◌∷◌, ◌++◌, if◌then◌else◌,
}

pub record Evidence : Type 0 where
  pub changed_paths : List String
  pub attempted : Bool
  pub succeeded : Bool
  pub running_workers : List String
  pub reminder_sent : Bool

pub record Reason : Type 0 where
  pub code : String
  pub severity : String
  pub message : String

pub record Decision : Type 0 where
  pub mode : String
  pub decision : String
  pub action : String
  pub reasons : List Reason
  pub signature : String

abbrev pub no_items : {A : Type 0} → List A → Bool
no_items [] = true
no_items (x ∷ xs) = false

-- `strings.Join(words, ", ")`
unfoldable pub join : List String → String
join [] = ""
join (w ∷ []) = w
join (w ∷ v ∷ ws) = append w (append ", " (join (v ∷ ws)))

unfoldable pub unverified : Evidence → List Reason
unverified e =
    if not (no_items e.changed_paths) && not e.succeeded
    then (record {
      code = "changed_paths_without_verification";
      severity = "hard";
      message =
          if e.attempted
          then "Files changed, and the latest verification did not succeed."
          else "Files changed, but no successful verification was recorded.";
    })
      ∷ []
    else []

unfoldable pub still_running : Evidence → List Reason
still_running e =
    if no_items e.running_workers
    then []
    else (record {
      code = "workers_still_running";
      severity = "soft";
      message =
          append "Background workers are still running: " (append (join e.running_workers) ".");
    })
      ∷ []

unfoldable pub has_hard : List Reason → Bool
has_hard [] = false
has_hard (r ∷ rs) = str_eq r.severity "hard" || has_hard rs

-- The `switch` on the mode.
unfoldable pub judge : String → Bool → Decision → Decision
judge mode reminded d =
    if str_eq mode "warn"
    then record d { decision = "warn" }
    else (if str_eq mode "soft"
        then (if reminded
            then record d { decision = "warn" }
            else record d { decision = "remind"; action = "runtime_notice" })
        else (if str_eq mode "strict"
            then (if has_hard d.reasons
                then record d { decision = "block"; action = "block" }
                else record d { decision = "warn" })
            else d))

abbrev pub allowed : String → Decision
allowed mode = record {
  mode = mode;
  decision = "allow";
  action = "none";
  reasons = [];
  signature = "";
}

unfoldable pub evaluate : (List Reason → String) → String → Evidence → Decision
evaluate sign mode e =
    if str_eq mode "off"
    then allowed mode
    else (let reasons = unverified e ++ still_running e in
        if no_items reasons
        then allowed mode
        else judge mode e.reminder_sent
            (record (allowed mode) { reasons = reasons; signature = sign reasons }))
