-- ===== src/Tests/Approvals.antt =====
-- The theorems on approvals, over a repository of one request.
use Prim.Native.Char.{Char}
use Prim.Native.String.{len}
use tuenel.Prelude.{◌≡◌, ◌≤◌, refl, Bool, true, false, none, some, [], ◌∷◌, ok, err, ◌⊎◌}
use tuenel.Types.Json
use tuenel.Types.Mcp.{destructive}
use tuenel.Types.Approval.{ApprovalStatus, ApprovalRequest, mcp_tool}
use tuenel.Approval.{
  ApprovalRepository, ApprovalService, ApprovalError, claimed, is_expired, is_pending, get_approval,
  decide_approval, authorize_retry,
}
use tuenel.Approval
use tuenel.Approval.Text.{is_blank}
use tuenel.Approval.Claims.{authorize_retry-approved, decision_of, decide_approval-pending}
use tuenel.Tests.Data.{caller}

abbrev pending_request : ApprovalRequest
pending_request = record {
  approval_id = 1;
  tenant_id = "acme";
  project_id = none;
  principal_id = "p1";
  request_id = 9;
  resource_type = mcp_tool;
  resource_id = "server";
  action = "delete";
  sanitized_arguments = Json.null;
  risk_level = destructive;
  status = ApprovalStatus.pending;
  request_hash = "hash";
  expires_at = 60;
  created_at = 0;
}

abbrev pub approved_request : ApprovalRequest
approved_request = record pending_request { status = ApprovalStatus.approved }

-- The state is the one request.
abbrev pub repository : ApprovalRepository ApprovalRequest
repository = record {
  insert_approval = λ request _. (ok tt, request);
  approval = λ _ _ s. (ok (some s), s);
  list_approvals = λ _ _ _ s. (ok (s ∷ []), s);
  decide_approval = λ decision s.
      (ok (record s { status = decision.status }), record s { status = decision.status });
  expire_approvals = λ _ s. (ok 0, s);
  claim_execution = λ _ _ _ _ s. (ok claimed, s);
  complete_execution = λ _ _ _ s. (ok tt, s);
  fail_execution = λ _ _ _ s. (ok tt, s);
}

abbrev pub service : ApprovalService ApprovalRequest
service = record { repository = repository; expiration = 60 }

abbrev pub no_space : Char → Bool
no_space _ = false

authorize_retry-approved_example :
    (is_blank no_space "once" ≡ false)
    × (len "once" ≤ 255)
    × ((request : ApprovalRequest) × ((get_approval service 5 6 "acme" 1 approved_request).0
          ≡ ok request)
        × (request.status ≡ ApprovalStatus.approved)
        × (request.principal_id ≡ "p1")
        × (request.request_hash ≡ "hash")
        × (authorize_retry service no_space 5 6 caller 1 "once" "hash" approved_request
            ≡ (ok claimed, (get_approval service 5 6 "acme" 1 approved_request).1)))
unfolding authorize_retry is_blank get_approval Approval.expire Approval.claim
authorize_retry-approved_example =
    authorize_retry-approved service no_space 5 6 caller 1 "once" "hash" approved_request claimed
      refl

decide_approval-pending_example :
    let got = get_approval service 5 6 "acme" 1 pending_request in
    let result = decide_approval service 5 6 7 "acme" 1 caller true none pending_request in
    ((request : ApprovalRequest) × (got.0 ≡ ok request)
      × (is_pending request.status ≡ true)
      × (is_expired request.expires_at 6 ≡ false)
      × (result
          ≡ repository.decide_approval (decision_of service 7 "acme" 1 caller true none) got.1))
    ⊎ ((request : ApprovalRequest) × (got.0 ≡ ok request)
        × (is_pending request.status ≡ false)
        × (e : ApprovalError) × (result ≡ (err e, got.1)))
    ⊎ ((e : ApprovalError) × (got.0 ≡ err e) × (result ≡ (err e, got.1)))
decide_approval-pending_example =
    decide_approval-pending service 5 6 7 "acme" 1 caller true none pending_request
