-- ===== src/Approval/Tests.antt =====
-- An approval that is created, approved, claimed and settled (internal/permission/store.go), and the
-- theorems at inputs that meet their hypotheses.
use Prim.Native.String.{◌++◌ as append}
use gopherharness.Base.{◌≡◌, ◌≤◌, refl, String, true, Option, some, List, [], ◌∷◌}
use gopherharness.Base.Int.{pos}
use gopherharness.Base.Table.{lookup, insert}
use gopherharness.Durable.{accept}
use gopherharness.Approval.{
  Action, ApprovalRecord, ApprovalState, granted, create, decide, decide_record, claim,
  claim_record, claimed, finish, finish_record, new_record, with_status,
}
use gopherharness.Approval.History.{
  Op, decide_op, claim_op, finish_op, total_grants, grants, apply, claimed_at_most_once,
}

-- Stand-ins for the hashes: the tool with its arguments, and the call's number.
abbrev digest : Action → Option String
digest a = some (append a.tool a.args)

abbrev hash : String → String → String → String → String
hash principal session turn call = call

abbrev write_file : Action
write_file = record {
  principal = "alice";
  session = "s";
  turn = "t";
  call_id = "c1";
  tool = "write";
  args = "a.txt";
  definition_digest = "d";
  preconditions = [];
}

abbrev pending_record : ApprovalRecord
pending_record = new_record "c1" "writea.txt" write_file 10 (pos 100)

abbrev asked : ApprovalState
asked = record { records = ("c1", pending_record) ∷ [] }

created :
    create digest hash write_file (pos 100) 10 (record { records = [] })
    ≡ accept pending_record asked
unfolding create lookup insert
created = refl

abbrev approved_record : ApprovalRecord
approved_record = with_status pending_record "approved" 20

abbrev approved : ApprovalState
approved = record { records = ("c1", approved_record) ∷ [] }

abbrev after_claim : ApprovalState
after_claim = record { records = ("c1", claimed approved_record "token" 31) ∷ [] }

claim_granted :
    claim digest hash "c1" "alice" write_file "token" 30 31 approved
    ≡ accept (granted (claimed approved_record "token" 31) "token") after_claim
unfolding claim claim_record lookup insert
claim_granted = refl

abbrev history : List Op
history =
    decide_op "c1" "alice" true 20 20
    ∷ claim_op "c1" "alice" write_file "token" 30 31
    ∷ claim_op "c1" "alice" write_file "again" 32 33
    ∷ finish_op "c1" "token" "unknown" "" 34
    ∷ decide_op "c1" "alice" true 35 35
    ∷ claim_op "c1" "alice" write_file "third" 36 37
    ∷ []

history_grants : total_grants digest hash "c1" history asked ≡ 1
unfolding total_grants grants apply decide decide_record claim claim_record finish finish_record
    lookup insert
history_grants = refl

claimed_at_most_once_example : total_grants digest hash "c1" history asked ≤ 1
claimed_at_most_once_example = claimed_at_most_once digest hash "c1" history asked (refl, tt)
