-- ===== src/Mcp/Invocation/Permitted.antt =====
-- What a call of a tool needs (crates/gateway-mcp/src/invocation.rs).
use mathlib.Core.Path.{subst}
use tuenel.Prelude.{
  ℕ, ◌≡◌, refl, List, ◌∷◌, ◌++◌, All, find-first, eq_iff, false, some, ok, ◌>>=◌, lift, ok_or,
  arith, find, ◌==◌, string_eq, nat_eq, Bool-cases, Result-cases, ◌⊎◌, inl, inr, ◌∙◌, ap,
}
use tuenel.Policy.{exceeds}
use tuenel.Types.Identity.{Uuid, Principal}
use tuenel.Types.Security.{SecurityAction, InspectionContent, tool_arguments}
use tuenel.Types.Mcp.{GatewayMcpTool, GatewayMcpInvocation}
use tuenel.Mcp.Errors.{tool_unavailable, invalid}
use tuenel.Mcp.Policy.{McpPolicy, authorize}
use tuenel.Mcp.Registry.{RegistryWorld, server_for, tools}
use tuenel.Mcp.Registry.Owned.{Sees, server_for-Sees, server_for-transports}
use tuenel.Mcp.Calls.{
  McpCodec, McpInvocationService, McpWorld, McpTicks, Call, ApprovalReference, risk_of, is_block,
  context_for, on_registry, audit, record_usage,
}
use tuenel.Mcp.Invocation.{new_call, proceed, screen, invoke, deny}
use tuenel.Mcp.Invocation.Granted.{
  tools-transports, Reaches, bind-Reaches, Granted, proceed-Granted,
}

module _ {R T Q U A E Z : Type 0} (c : McpCodec) (m : McpInvocationService R T Q U A E Z)
    (ticks : McpTicks R T) where
  module _ (request_id : Uuid) (p : Principal) (invocation : GatewayMcpInvocation)
      (reference : ApprovalReference) where
    -- The policy allows the call and its size, and the inspection of its arguments does not block
    -- it.
    abbrev pub Screened :
        GatewayMcpTool → McpPolicy → ℕ → InspectionContent × SecurityAction → Z → Type 0
    Screened tool policy bytes seen z =
        (authorize c.values policy invocation.server_id invocation.tool_name invocation.arguments
          ≡ ok tt)
        × (exceeds policy.maximum_request_bytes bytes ≡ false)
        × ((m.assess
              (context_for c m ticks request_id p (risk_of c policy tool invocation.tool_name)
                "mcp_arguments")
              (tool_arguments invocation.arguments) z).0
            ≡ ok seen)
        × (is_block seen.1 ≡ false)

    pub screen-Screened :
        (tool : GatewayMcpTool) (policy : McpPolicy) (bytes : ℕ) (w : McpWorld R T Q U A E Z)
        (call : Call)
        → (screen c m ticks request_id p invocation reference tool policy bytes w).0 ≡ ok call
        → (seen : InspectionContent × SecurityAction) × Screened tool policy bytes seen w.security
          × (call ≡ new_call c m ticks request_id p invocation reference tool policy bytes seen)
    unfolding screen
    screen-Screened tool policy bytes w call h =
        let risk = risk_of c policy tool invocation.tool_name in
        let context = context_for c m ticks request_id p risk "mcp_arguments" in
        let seen = m.assess context (tool_arguments invocation.arguments) w.security in
        elim (Result-cases (
          authorize c.values policy invocation.server_id invocation.tool_name
            invocation.arguments)) [
              | inr denied ↦ absurd (ground (arith, denied.1, h))
              | inl allowed ↦ elim (Bool-cases (exceeds policy.maximum_request_bytes bytes)) [
                | inl large ↦ absurd (ground (arith, allowed.1, large, h))
                | inr fits ↦ elim (Result-cases seen.0) [
                  | inr stopped ↦ absurd (ground (arith, allowed.1, fits, stopped.1, h))
                  | inl passed ↦ elim (Bool-cases (is_block passed.0.1)) [
                    | inl blocked ↦ absurd (ground (arith, allowed.1, fits, passed.1, blocked, h))
                    | inr let_by ↦ (
                      passed.0,
                      (allowed.1, fits, passed.1, let_by),
                      ground (arith, allowed.1, fits, passed.1, let_by, h),
                    )
                  ]
                ]
              ]
            ]

    screen-kept :
        (tool : GatewayMcpTool) (policy : McpPolicy) (bytes : ℕ) (w : McpWorld R T Q U A E Z)
        → let v = (screen c m ticks request_id p invocation reference tool policy bytes w).1 in
          (v.servers ≡ w.servers) × (v.approvals ≡ w.approvals)
    unfolding screen deny record_usage audit
    screen-kept tool policy bytes w = (ground arith, ground arith)

    -- The tool is the first of its name that the registry lists for the server.
    abbrev pub Listed : GatewayMcpTool → RegistryWorld R T → Type 0
    Listed tool r =
        (tool.tool_name ≡ invocation.tool_name)
        × ((before : List GatewayMcpTool) × (after : List GatewayMcpTool) × ((tools m.registry
                ticks.registry_ticks p (some invocation.server_id)
                (server_for m.registry p invocation.server_id r).1).0
              ≡ ok (before ++ (tool ∷ after)))
            × All (λ t. (t.tool_name == invocation.tool_name) ≡ false) before)

    -- What the call of a tool needs.
    abbrev pub Permitted : McpWorld R T Q U A E Z → Type 0
    Permitted w =
        Sees m.registry p invocation.server_id w.servers
        × ((tool : GatewayMcpTool) × (policy : McpPolicy) × (bytes : ℕ) × (seen : InspectionContent
              × SecurityAction)
            × Listed tool w.servers
            × (m.policies p ≡ ok policy)
            × (c.value_len invocation.arguments ≡ some bytes)
            × Screened tool policy bytes seen w.security
            × Granted c m ticks
                (new_call c m ticks request_id p invocation reference tool policy bytes seen)
                w.approvals)

    find-Listed :
        (listed : List GatewayMcpTool) (tool : GatewayMcpTool) (r : RegistryWorld R T)
        → (tools m.registry ticks.registry_ticks p
            (some invocation.server_id)
            (server_for m.registry p invocation.server_id r).1).0
          ≡ ok listed
        → find (λ (t : GatewayMcpTool). t.tool_name == invocation.tool_name) listed ≡ some tool
        → Listed tool r
    find-Listed listed tool r h found =
        let first =
          find-first (λ (t : GatewayMcpTool). t.tool_name == invocation.tool_name) tool listed
            found in
        (
          (eq_iff tool.tool_name invocation.tool_name).0 first.0,
          (first.1.0, first.1.1, h ∙ ap ok first.1.2, first.1.3),
        )

    screened-Permitted :
        (tool : GatewayMcpTool) (policy : McpPolicy) (bytes : ℕ) (w v : McpWorld R T Q U A E Z)
        → Sees m.registry p invocation.server_id w.servers
        → Listed tool w.servers
        → m.policies p ≡ ok policy
        → c.value_len invocation.arguments ≡ some bytes
        → v.servers.transports ≡ w.servers.transports
        → v.approvals ≡ w.approvals
        → v.security ≡ w.security
        → Reaches c m ticks w
            (Permitted w)
            ((screen c m ticks request_id p invocation reference tool policy bytes >>= λ call.
                proceed c m ticks call)
              v).1
    screened-Permitted tool policy bytes w v sees known resolved measured same_t same_a same_z =
        bind-Reaches c m ticks (Permitted w)
          (screen c m ticks request_id p invocation reference tool policy bytes) _ w v
          (ground (arith, screen-kept tool policy bytes v, same_t))
          (λ call e.
            let kept = screen-kept tool policy bytes v in
            let found = screen-Screened tool policy bytes v call e in
            let u = (screen c m ticks request_id p invocation reference tool policy bytes v).1 in
            elim (proceed-Granted c m ticks call u) [
              | inl still ↦ inl (ground (arith, still, kept, same_t))
              | inr granted ↦ inr (
                sees,
                (
                  tool,
                  policy,
                  bytes,
                  found.0,
                  known,
                  resolved,
                  measured,
                  subst (Screened tool policy bytes found.0) same_z found.1,
                  subst (λ (x : Call). Granted c m ticks x w.approvals) found.2
                      (subst (Granted c m ticks call) (kept.1 ∙ same_a) granted),
                ),
              )
            ])

    -- A tool is called only for a server that the repository has under the tenant of the principal
    -- and that the principal may see, if the registry lists a tool of the name for the server, under
    -- a policy that allows the server, the tool, the arguments and their size, when the inspection
    -- of the arguments did not block them, and, where the action of the policy for the first listed
    -- tool of this name or that of the inspection requires an approval, with approvals enabled and
    -- a claim on the approval of the reference granted for the hash of this call. Otherwise the
    -- transports are as they were.
    pub invoke-Permitted :
        (w : McpWorld R T Q U A E Z)
        → ((invoke c m ticks request_id p invocation reference w).1.servers.transports
            ≡ w.servers.transports)
          ⊎ Permitted w
    unfolding invoke
    invoke-Permitted w =
        let id = invocation.server_id in
        let X = Permitted w in
        let f1 = on_registry c m ticks (server_for m.registry p id) in
        let f2 = on_registry c m ticks (tools m.registry ticks.registry_ticks p (some id)) in
        let w1 = (f1 w).1 in
        let w2 = (f2 w1).1 in
        let same1 = server_for-transports m.registry p id w.servers in
        let same2 =
          tools-transports m.registry ticks.registry_ticks p (some id) w1.servers ∙ same1 in
        bind-Reaches c m ticks X f1 _ w w same1 (λ server e1.
          bind-Reaches c m ticks X f2 _ w w1 same2 (λ listed e2.
            let chosen =
              find (λ (t : GatewayMcpTool). t.tool_name == invocation.tool_name) listed in
            bind-Reaches c m ticks X (lift (ok_or chosen tool_unavailable)) _ w w2 same2 (λ tool e3.
              bind-Reaches c m ticks X (lift (m.policies p)) _ w w2 same2 (λ policy e4.
                bind-Reaches c m ticks X (lift (ok_or (c.value_len invocation.arguments) invalid)) _
                  w w2 same2
                  (λ bytes e5.
                    screened-Permitted tool policy bytes w w2
                      (server_for-Sees m.registry p id w.servers server e1)
                      (find-Listed listed tool w.servers e2 (ground (arith, e3)))
                      (ground (arith, e4)) (ground (arith, e5)) same2 refl refl)))))
