-- ===== src/Mcp/Invocation/Kept.antt =====
-- What the call of a tool and its end leave alone (crates/gateway-mcp/src/invocation.rs): the quota.
use tuenel.Prelude.{
  ℕ, String, ◌≡◌, refl, lift, ok_or, if◌then◌else◌, ok, err, Exec, ◌>>=◌, arith, Result-cases, inl,
  inr, ◌∙◌, string_eq, nat_eq,
}
use tuenel.Types.Identity.{Uuid, Principal}
use tuenel.Types.Mcp.{GatewayMcpInvocation, GatewayMcpResult}
use tuenel.Mcp.Errors.{McpError, invalid, too_large}
use tuenel.Policy.{exceeds}
use tuenel.Mcp.Calls.{
  McpCodec, McpInvocationService, McpWorld, McpTicks, Call, usage_event, audit, record_usage,
}
use tuenel.Mcp.Invocation.{call_tool}
use tuenel.Mcp.Outcome.{
  inspect_result, complete_claim, conclude, status_of, event_of, finish, failed,
}

module _ {R T Q U A E Z : Type 0} (c : McpCodec) (m : McpInvocationService R T Q U A E Z)
    (ticks : McpTicks R T) where
  -- An action leaves the quotas alone.
  abbrev pub KeepsQuota : {B : Type 0} → Exec (McpWorld R T Q U A E Z) McpError B → Type 0
  KeepsQuota f = (w : McpWorld R T Q U A E Z) → (f w).1.quotas ≡ w.quotas

  inspect_result-quotas :
      (call : Call) (bytes : ℕ) (result : GatewayMcpResult)
      → KeepsQuota (inspect_result c m ticks call bytes result)
  unfolding inspect_result record_usage
  inspect_result-quotas call bytes result w = ground arith

  complete_claim-quotas :
      (call : Call) (result : GatewayMcpResult) → KeepsQuota (complete_claim c m ticks call result)
  unfolding complete_claim
  complete_claim-quotas call result w = ground arith

  pub failed-quotas :
      (call : Call) (w : McpWorld R T Q U A E Z) → (failed c m ticks call w).quotas ≡ w.quotas
  unfolding failed audit record_usage
  failed-quotas call w = ground arith

  pub call_tool-quotas : (call : Call) → KeepsQuota (call_tool c m ticks call)
  unfolding call_tool
  call_tool-quotas call w = ground arith

  bind-quotas :
      {B D : Type 0} (q : Q) (f : Exec (McpWorld R T Q U A E Z) McpError B)
      (next : B → Exec (McpWorld R T Q U A E Z) McpError D) (v : McpWorld R T Q U A E Z)
      → (f v).1.quotas ≡ q
      → ((b : B) → (f v).0 ≡ ok b → (next b (f v).1).1.quotas ≡ q)
      → ((f >>= next) v).1.quotas ≡ q
  bind-quotas q f next v same later = elim (Result-cases (f v).0) [
    | inr failed ↦ ground (arith, failed.1, same)
    | inl done ↦ ground (arith, done.1, later done.0 done.1)
  ]

  audit-quotas :
      (request_id : Uuid) (p : Principal) (invocation : GatewayMcpInvocation)
      (event status : String) (w : McpWorld R T Q U A E Z)
      → (audit c m ticks request_id p invocation event status w).quotas ≡ w.quotas
  unfolding audit
  audit-quotas request_id p invocation event status w = refl

  conclude-quotas :
      (call : Call) (bytes : ℕ) (passed : GatewayMcpResult)
      → KeepsQuota (conclude c m ticks call bytes passed)
  unfolding conclude
  conclude-quotas call bytes passed w =
      let sent =
        m.record_mcp_usage
          (usage_event c m ticks call.request_id call.principal call.invocation call.risk
            call.request_bytes bytes call.needs_approval 1 (status_of c m ticks passed))
          w.usages in
      let v : McpWorld R T Q U A E Z = record w { usages = sent.1 } in
      let told =
        audit c m ticks call.request_id call.principal call.invocation (event_of c m ticks passed)
          (status_of c m ticks passed) v in
      elim (Result-cases sent.0) [
        | inr bad ↦ ground (arith, bad.1)
        | inl done ↦ ground (
          arith,
          done.1,
          complete_claim-quotas call passed told,
          audit-quotas call.request_id call.principal call.invocation (event_of c m ticks passed)
              (status_of c m ticks passed) v,
        )
      ]

  pub finish-quotas :
      (call : Call) (result : GatewayMcpResult) → KeepsQuota (finish c m ticks call result)
  unfolding finish audit
  finish-quotas call result w =
      bind-quotas w.quotas (lift (ok_or (c.result_len result) invalid)) _ w refl (λ bytes _.
        bind-quotas w.quotas
          (lift (if exceeds call.policy.maximum_response_bytes bytes then err too_large else ok tt))
          _ w refl
          (λ _ _.
            let seen = inspect_result-quotas call bytes result w in
            bind-quotas w.quotas (inspect_result c m ticks call bytes result) _ w seen (λ passed _.
              conclude-quotas call bytes passed (inspect_result c m ticks call bytes result w).1
              ∙ seen)))
