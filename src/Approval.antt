-- ===== src/Approval.antt =====
-- internal/permission/store.go: durable approvals of frozen tool calls. Statuses are texts, as in
-- the code. Hashing an encoded value is a parameter: `digest` of an action, which fails where the
-- encoding fails, and `hash` of the four texts that identify a call.
pub mod Claims
pub mod History
mod Tests
use gopherharness.Base.{
  ℕ, ◌+◌, String, str_eq, Bool, true, false, not, ◌&&◌, ◌||◌, Option, none, some, ltb,
  if◌then◌else◌, is_empty,
}
use gopherharness.Base.Int.{ℤ, pos, pos_part, leb_ℤ}
use gopherharness.Base.Table.{Table, lookup, insert}
use gopherharness.Durable.{Verdict, refuse, accept}

-- `args` is the encoded map of arguments.
pub record Action : Type 0 where
  pub principal : String
  pub session : String
  pub turn : String
  pub call_id : String
  pub tool : String
  pub args : String
  pub definition_digest : String
  pub preconditions : Table String

pub record ApprovalRecord : Type 0 where
  pub id : String
  pub digest : String
  pub status : String
  pub action : Action
  pub created_at : ℕ
  pub expires_at : ℕ
  pub updated_at : ℕ
  pub claim_token : String
  pub receipt : String

pub record ApprovalState : Type 0 where
  pub records : Table ApprovalRecord

pub data Error : Type 0 where
  wrong_state identity_mismatch changed expired incomplete encoding invalid_outcome : Error

-- What `Decide` hands out, with the error that it returns beside a stored change.
pub record Decision : Type 0 where
  pub decided : ApprovalRecord
  pub problem : Option Error

-- What `Claim` hands out.
pub data Claim : Type 0 where
  granted : ApprovalRecord → String → Claim
  lapsed : Claim

abbrev pub store : ApprovalRecord → String → ApprovalState → ApprovalState
store r id s = record s { records = insert id r s.records }

abbrev ten_minutes : ℕ
ten_minutes = 600000000000

abbrev lifetime : ℤ → ℕ
lifetime ttl = if leb_ℤ ttl (pos 0) then ten_minutes else pos_part ttl

abbrev pub new_record : String → String → Action → ℕ → ℤ → ApprovalRecord
new_record id digest action now ttl = record {
  id = id;
  digest = digest;
  status = "pending";
  action = action;
  created_at = now;
  expires_at = now + lifetime ttl;
  updated_at = now;
  claim_token = "";
  receipt = "";
}

abbrev create_found :
    Option ApprovalRecord
    → String
    → String
    → Action
    → ℤ
    → ℕ
    → ApprovalState
    → Verdict Error ApprovalRecord ApprovalState
create_found none id digest action ttl now s =
    accept (new_record id digest action now ttl) (store (new_record id digest action now ttl) id s)
create_found (some old) id digest action ttl now s =
    if str_eq old.digest digest then accept old s else refuse changed

abbrev pub complete_identity : Action → Bool
complete_identity a = not (
    is_empty a.principal
    || is_empty a.session
    || is_empty a.turn
    || is_empty a.call_id
    || is_empty a.tool)

abbrev create_with :
    Option String
    → String
    → Action
    → ℤ
    → ℕ
    → ApprovalState
    → Verdict Error ApprovalRecord ApprovalState
create_with none id action ttl now s = refuse encoding
create_with (some digest) id action ttl now s =
    create_found (lookup id s.records) id digest action ttl now s

-- The callback of `Decide` on a record of the caller. `now` is read for the test and `stamp` for the
-- new time.
abbrev pub with_status : ApprovalRecord → String → ℕ → ApprovalRecord
with_status r status stamp = record r { status = status; updated_at = stamp }

abbrev pub wanted : Bool → String
wanted true = "approved"
wanted false = "denied"

unfoldable pub decide_record :
    ApprovalRecord → String → Bool → ℕ → ℕ → ApprovalState → Verdict Error Decision ApprovalState
decide_record r id allow now stamp s =
    if str_eq r.status "pending" && not (ltb now r.expires_at)
    then accept (record { decided = with_status r "expired" stamp; problem = some expired })
        (store (with_status r "expired" stamp) id s)
    else (if str_eq r.status (wanted allow)
        then accept (record { decided = r; problem = none }) s
        else (if not (str_eq r.status "pending") && not (str_eq r.status "approved" && not allow)
            then refuse wrong_state
            else accept (record { decided = with_status r (wanted allow) stamp; problem = none })
                (store (with_status r (wanted allow) stamp) id s)))

abbrev decide_found :
    Option ApprovalRecord
    → String
    → String
    → Bool
    → ℕ
    → ℕ
    → ApprovalState
    → Verdict Error Decision ApprovalState
decide_found none id principal allow now stamp s = refuse wrong_state
decide_found (some r) id principal allow now stamp s =
    if not (str_eq r.action.principal principal)
    then refuse identity_mismatch
    else decide_record r id allow now stamp s

unfoldable pub decide :
    String → String → Bool → ℕ → ℕ → ApprovalState → Verdict Error Decision ApprovalState
decide id principal allow now stamp s =
    decide_found (lookup id s.records) id principal allow now stamp s

-- The callback of `Claim`, with the digest of the current action. The random token is an argument.
abbrev pub claimed : ApprovalRecord → String → ℕ → ApprovalRecord
claimed r token stamp = record r { status = "claimed"; claim_token = token; updated_at = stamp }

unfoldable pub claim_record :
    ApprovalRecord
    → String
    → String
    → String
    → Action
    → String
    → ℕ
    → ℕ
    → ApprovalState
    → Verdict Error Claim ApprovalState
claim_record r id principal digest current token now stamp s =
    if not (str_eq r.action.principal principal) || not (str_eq current.principal principal)
    then refuse identity_mismatch
    else (if not (str_eq r.digest digest)
        then refuse changed
        else (if not (str_eq r.status "approved")
            then refuse wrong_state
            else (if not (ltb now r.expires_at)
                then accept lapsed (store (with_status r "expired" stamp) id s)
                else accept (granted (claimed r token stamp) token)
                    (store (claimed r token stamp) id s))))

abbrev claim_found :
    Option ApprovalRecord
    → String
    → String
    → String
    → Action
    → String
    → ℕ
    → ℕ
    → ApprovalState
    → Verdict Error Claim ApprovalState
claim_found none id principal digest current token now stamp s = refuse wrong_state
claim_found (some r) id principal digest current token now stamp s =
    claim_record r id principal digest current token now stamp s

abbrev claim_with :
    Option String
    → String
    → String
    → Action
    → String
    → ℕ
    → ℕ
    → ApprovalState
    → Verdict Error Claim ApprovalState
claim_with none id principal current token now stamp s = refuse encoding
claim_with (some digest) id principal current token now stamp s =
    claim_found (lookup id s.records) id principal digest current token now stamp s

-- `Finish`, with the id and the token of the claim.
abbrev pub is_outcome : String → Bool
is_outcome o = str_eq o "completed" || str_eq o "failed" || str_eq o "unknown"

abbrev pub finished : ApprovalRecord → String → String → ℕ → ApprovalRecord
finished r outcome receipt stamp = record r {
  status = outcome;
  receipt = receipt;
  updated_at = stamp;
}

unfoldable pub finish_record :
    ApprovalRecord
    → String
    → String
    → String
    → ℕ
    → ApprovalState
    → Verdict Error (Unit {0}) ApprovalState
finish_record r token outcome receipt stamp s =
    if is_empty token || not (str_eq r.claim_token token)
    then refuse identity_mismatch
    else (if str_eq r.status outcome && str_eq r.receipt receipt
        then accept tt s
        else (if not (str_eq r.status "claimed")
            then refuse wrong_state
            else accept tt (store (finished r outcome receipt stamp) r.id s)))

abbrev finish_found :
    Option ApprovalRecord
    → String
    → String
    → String
    → ℕ
    → ApprovalState
    → Verdict Error (Unit {0}) ApprovalState
finish_found none token outcome receipt stamp s = refuse wrong_state
finish_found (some r) token outcome receipt stamp s = finish_record r token outcome receipt stamp s

unfoldable pub finish :
    String → String → String → String → ℕ → ApprovalState → Verdict Error (Unit {0}) ApprovalState
finish id token outcome receipt stamp s =
    if not (is_outcome outcome)
    then refuse invalid_outcome
    else finish_found (lookup id s.records) token outcome receipt stamp s

-- `Get`, on the value that was read.
abbrev get_found : Option ApprovalRecord → String → Verdict Error ApprovalRecord (Unit {0})
get_found none principal = refuse wrong_state
get_found (some r) principal =
    if not (str_eq r.action.principal principal) then refuse identity_mismatch else accept r tt

unfoldable pub get : String → String → ApprovalState → Verdict Error ApprovalRecord (Unit {0})
get id principal s = get_found (lookup id s.records) principal

module _ (digest : Action → Option String) (hash : String → String → String → String → String) where
  -- `approvalID`
  unfoldable pub approval_id : Action → String
  approval_id a = hash a.principal a.session a.turn a.call_id

  -- `Create`
  unfoldable pub create :
      Action → ℤ → ℕ → ApprovalState → Verdict Error ApprovalRecord ApprovalState
  unfolding approval_id
  create a ttl now s =
      if complete_identity a
      then create_with (digest a) (approval_id a) a ttl now s
      else refuse incomplete

  -- `Find`
  unfoldable pub find : Action → ApprovalState → Option ApprovalRecord
  unfolding approval_id
  find a s = lookup (approval_id a) s.records

  -- `Claim`
  unfoldable pub claim :
      String → String → Action → String → ℕ → ℕ → ApprovalState → Verdict Error Claim ApprovalState
  claim id principal current token now stamp s =
      claim_with (digest current) id principal current token now stamp s
