-- ===== src/Approval/Claims.antt =====
-- What a retry and a decision need (crates/gateway-approval/src/service.rs).
use Prim.Native.Char.{Char}
use Prim.Native.String.{len}
use tuenel.Prelude.{
  String, ◌≡◌, refl, ◌≤◌, Bool, true, false, ◌&&◌, Option, ok, string_eq, arith, inl, inr,
  Result-cases, eq_iff, ◌⊎◌, err, Bool-cases, if◌then◌else◌,
}
use tuenel.Types.Identity.{DateTime, Principal}
use tuenel.Types.Approval.{ApprovalId, ApprovalStatus, ApprovalRequest}
use tuenel.Approval.{
  ApprovalService, ApprovalDecision, ApprovalError, short_reason, decided_error, ExecutionClaim,
  is_expired, is_pending, get_approval, decide_approval, claim, authorize_retry,
}
use tuenel.Approval.Text.{is_blank}

module _ {R : Type 0} (a : ApprovalService R) where
  claim-approved :
      (p : Principal) (key hash : String) (request : ApprovalRequest) (s : ApprovalStatus) (r : R)
      (c : ExecutionClaim)
      → (claim a p key hash request s r).0 ≡ ok c
      → (s ≡ ApprovalStatus.approved)
        × (claim a p key hash request s r
            ≡ a.repository.claim_execution request p.principal_id key hash r)
  unfolding claim
  claim-approved p key hash request ApprovalStatus.approved r c h = (refl, refl)
  claim-approved p key hash request ApprovalStatus.pending r c h = absurd (cc)
  claim-approved p key hash request ApprovalStatus.rejected r c h = absurd (cc)
  claim-approved p key hash request ApprovalStatus.expired r c h = absurd (cc)
  claim-approved p key hash request ApprovalStatus.cancelled r c h = absurd (cc)

  get_approval-expired :
      (now later : DateTime) (tenant : String) (id : ApprovalId) (r : R) (request : ApprovalRequest)
      → (get_approval a now later tenant id r).0 ≡ ok request
      → (is_pending request.status && is_expired request.expires_at later) ≡ false
  unfolding get_approval
  get_approval-expired now later tenant id r request h = ground arith

  -- A retry that gets a claim comes with a key that is not blank and has at most 255 bytes, from
  -- the principal of a request in its tenant that is approved, with the hash of that request; the
  -- claim is then what the repository gives.
  pub authorize_retry-approved :
      (is_whitespace : Char → Bool) (now later : DateTime) (p : Principal) (id : ApprovalId)
      (key hash : String) (r : R) (c : ExecutionClaim)
      → (authorize_retry a is_whitespace now later p id key hash r).0 ≡ ok c
      → (is_blank is_whitespace key ≡ false)
        × (len key ≤ 255)
        × ((request : ApprovalRequest) × ((get_approval a now later p.tenant_id id r).0
              ≡ ok request)
            × (request.status ≡ ApprovalStatus.approved)
            × (request.principal_id ≡ p.principal_id)
            × (request.request_hash ≡ hash)
            × (authorize_retry a is_whitespace now later p id key hash r
                ≡ a.repository.claim_execution request p.principal_id key hash
                    (get_approval a now later p.tenant_id id r).1))
  unfolding authorize_retry
  authorize_retry-approved is_whitespace now later p id key hash r c h =
      elim (Result-cases (get_approval a now later p.tenant_id id r).0) [
        | inr failed ↦ absurd (ground (arith, failed.1, h))
        | inl found ↦
            let request = found.0 in
            let ok_claim : (claim a p key hash request request.status
                  (get_approval a now later p.tenant_id id r).1).0
                ≡ ok c =
              ground (arith, found.1, h) in
            let approved =
              claim-approved p key hash request request.status
                (get_approval a now later p.tenant_id id r).1 c ok_claim in
            (
              ground (arith, h),
              ground (arith, h),
              (
                request,
                found.1,
                approved.0,
                (eq_iff request.principal_id p.principal_id).0 (ground (arith, found.1, h)),
                (eq_iff request.request_hash hash).0 (ground (arith, found.1, h)),
                ground (arith, found.1, h, approved.1),
              ),
            )
      ]

  -- The decision that the repository is asked for.
  abbrev pub decision_of :
      DateTime → String → ApprovalId → Principal → Bool → Option String → ApprovalDecision
  decision_of decided_at tenant id admin approve reason = record {
    approval_id = id;
    tenant_id = tenant;
    decided_by = admin.principal_id;
    status = if approve then ApprovalStatus.approved else ApprovalStatus.rejected;
    sanitized_reason = short_reason a reason;
    decided_at = decided_at;
  }

  -- A decision on a request of the tenant that is pending and not expired is the one call of the
  -- repository's `decide_approval`, for this tenant, request, administrator and verdict, and its
  -- answer. Where the request cannot be read, as when it is not there or expired, or where it is not
  -- pending, the decision fails without this call: the repository is as the reading left it.
  pub decide_approval-pending :
      (now later decided_at : DateTime) (tenant : String) (id : ApprovalId) (admin : Principal)
      (approve : Bool) (reason : Option String) (r : R)
      → let got = get_approval a now later tenant id r in
        let result = decide_approval a now later decided_at tenant id admin approve reason r in
        ((request : ApprovalRequest) × (got.0 ≡ ok request)
          × (is_pending request.status ≡ true)
          × (is_expired request.expires_at later ≡ false)
          × (result
              ≡ a.repository.decide_approval
                  (decision_of decided_at tenant id admin approve reason)
                  got.1))
        ⊎ ((request : ApprovalRequest) × (got.0 ≡ ok request)
            × (is_pending request.status ≡ false)
            × (e : ApprovalError) × (result ≡ (err e, got.1)))
        ⊎ ((e : ApprovalError) × (got.0 ≡ err e) × (result ≡ (err e, got.1)))
  unfolding decide_approval
  decide_approval-pending now later decided_at tenant id admin approve reason r =
      elim (Result-cases (get_approval a now later tenant id r).0) [
        | inr failed ↦ inr (inr (failed.0, failed.1, ground (arith, failed.1)))
        | inl found ↦ elim (Bool-cases (is_pending found.0.status)) [
          | inl waiting ↦
              let fresh = get_approval-expired now later tenant id r found.0 found.1 in
              inl (
                found.0,
                found.1,
                waiting,
                ground (arith, waiting, fresh),
                ground (arith, found.1, waiting),
              )
          | inr over ↦ inr (
              inl (
                found.0,
                found.1,
                over,
                decided_error a found.0.status,
                ground (arith, found.1, over),
              ))
        ]
      ]
