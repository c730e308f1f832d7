-- ===== src/Approval.antt =====
-- crates/gateway-approval/src: approval requests. The repository is a trait, a record over its
-- state `R` here. `from_std` is chrono's conversion of the time to live; the clock readings and the
-- new identifier are arguments. Metrics and tracing are left out.
pub mod Text
pub mod Claims
use Prim.Native.Char.{Char}
use Prim.Native.Nat.{min}
use Prim.Native.String.{len}
use tuenel.Prelude.{
  ℕ, ◌+◌, String, Bool, true, false, not, ◌&&◌, ◌||◌, Option, none, some, List, Result, ok, err,
  Exec, ok_or, continue, ◌>>=◌, ◌>>◌, lift, pure, raise, leb, ltb, ◌==◌, string_eq, if◌then◌else◌,
}
use tuenel.Types.Identity.{Uuid, DateTime, Principal}
use tuenel.Types.Json.{Value}
use tuenel.Types.Mcp.{ToolRiskLevel}
use tuenel.Types.Approval
use tuenel.Types.Approval.{ApprovalId, ApprovalStatus, ApprovalResourceType, ApprovalRequest}
use tuenel.Approval.Text.{is_blank, take_chars}

pub record ApprovalDecision : Type 0 where
  pub approval_id : ApprovalId
  pub tenant_id : String
  pub decided_by : String
  pub status : ApprovalStatus
  pub sanitized_reason : Option String
  pub decided_at : DateTime

pub data ExecutionClaim : Type 0 where
  claimed : ExecutionClaim
  completed : Value → ExecutionClaim
  indeterminate : ExecutionClaim

pub data ApprovalError : Type 0 where
  not_found forbidden pending rejected expired replay unavailable : ApprovalError

pub record ApprovalRepository (R : Type 0) : Type 0 where
  pub insert_approval : ApprovalRequest → Exec R ApprovalError (Unit {0})
  pub approval : String → ApprovalId → Exec R ApprovalError (Option ApprovalRequest)
  pub list_approvals :
      String → Option ApprovalStatus → ℕ → Exec R ApprovalError (List ApprovalRequest)
  pub decide_approval : ApprovalDecision → Exec R ApprovalError ApprovalRequest
  pub expire_approvals : DateTime → Exec R ApprovalError ℕ
  pub claim_execution :
      ApprovalRequest → String → String → String → Exec R ApprovalError ExecutionClaim
  pub complete_execution : ApprovalId → String → Value → Exec R ApprovalError (Unit {0})
  pub fail_execution : ApprovalId → String → Bool → Exec R ApprovalError (Unit {0})

pub record ApprovalService (R : Type 0) : Type 0 where
  pub repository : ApprovalRepository R
  pub expiration : ℕ

unfoldable pub is_expired : DateTime → DateTime → Bool
is_expired expires_at now = leb expires_at now

-- `status == ApprovalStatus::Pending`
abbrev pub is_pending : ApprovalStatus → Bool
is_pending ApprovalStatus.pending = true
is_pending _ = false

module _ {R : Type 0} (a : ApprovalService R) where
  unfoldable pub create :
      (ℕ → Option ℕ)
      → DateTime
      → ApprovalId
      → Principal
      → Uuid
      → ApprovalResourceType
      → String
      → String
      → Value
      → ToolRiskLevel
      → String
      → Exec R ApprovalError ApprovalRequest
  create from_std now id p request_id resource_type resource_id action arguments risk hash = do
    ttl ← lift (ok_or (from_std a.expiration) unavailable)
    let request : ApprovalRequest = record {
      approval_id = id;
      tenant_id = p.tenant_id;
      project_id = p.project_id;
      principal_id = p.principal_id;
      request_id = request_id;
      resource_type = resource_type;
      resource_id = resource_id;
      action = action;
      sanitized_arguments = arguments;
      risk_level = risk;
      status = ApprovalStatus.pending;
      request_hash = hash;
      expires_at = now + ttl;
      created_at = now;
    }
    a.repository.insert_approval request >> pure request

  unfoldable pub expire : DateTime → Exec R ApprovalError (Unit {0})
  expire now = a.repository.expire_approvals now >> pure tt

  -- `get`; `now` is read for the expiry of all requests, `later` for that of the one.
  unfoldable pub get_approval :
      DateTime → DateTime → String → ApprovalId → Exec R ApprovalError ApprovalRequest
  get_approval now later tenant_id id = do
    expire now
    found ← a.repository.approval tenant_id id
    request ← lift (ok_or found not_found)
    if is_pending request.status && is_expired request.expires_at later
        then raise expired
        else pure request

  unfoldable pub list :
      DateTime → String → Option ApprovalStatus → ℕ → Exec R ApprovalError (List ApprovalRequest)
  list now tenant_id status limit =
      expire now >> a.repository.list_approvals tenant_id status (min limit 200)

  -- The error of a decision on a request that is no longer pending.
  abbrev pub decided_error : ApprovalStatus → ApprovalError
  decided_error ApprovalStatus.rejected = rejected
  decided_error ApprovalStatus.expired = expired
  decided_error _ = replay

  abbrev pub short_reason : Option String → Option String
  short_reason none = none
  short_reason (some text) = some (take_chars 512 text)

  unfoldable pub decide_approval :
      DateTime
      → DateTime
      → DateTime
      → String
      → ApprovalId
      → Principal
      → Bool
      → Option String
      → Exec R ApprovalError ApprovalRequest
  decide_approval now later decided_at tenant_id id administrator approve reason = do
    current ← get_approval now later tenant_id id
    if not (is_pending current.status)
        then raise (decided_error current.status)
        else a.repository.decide_approval (record {
          approval_id = id;
          tenant_id = tenant_id;
          decided_by = administrator.principal_id;
          status = if approve then ApprovalStatus.approved else ApprovalStatus.rejected;
          sanitized_reason = short_reason reason;
          decided_at = decided_at;
        })

  unfoldable pub claim :
      Principal
      → String
      → String
      → ApprovalRequest
      → ApprovalStatus
      → Exec R ApprovalError ExecutionClaim
  claim p key hash request ApprovalStatus.approved =
      a.repository.claim_execution request p.principal_id key hash
  claim p key hash request ApprovalStatus.pending = raise pending
  claim p key hash request ApprovalStatus.rejected = raise rejected
  claim p key hash request ApprovalStatus.expired = raise expired
  claim p key hash request ApprovalStatus.cancelled = raise replay

  unfoldable pub authorize_retry :
      (Char → Bool)
      → DateTime
      → DateTime
      → Principal
      → ApprovalId
      → String
      → String
      → Exec R ApprovalError ExecutionClaim
  authorize_retry is_whitespace now later p id key hash =
      if is_blank is_whitespace key || ltb 255 (len key) then raise replay else do
        request ← get_approval now later p.tenant_id id
        if not (request.principal_id == p.principal_id) || not (request.request_hash == hash)
            then raise forbidden
            else claim p key hash request request.status

  unfoldable pub complete : ApprovalId → String → Value → Exec R ApprovalError (Unit {0})
  complete id key result = a.repository.complete_execution id key result

  unfoldable pub fail : ApprovalId → String → Bool → Exec R ApprovalError (Unit {0})
  fail id key is_indeterminate = a.repository.fail_execution id key is_indeterminate
