-- ===== src/Mcp/Invocation/Quota.antt =====
-- The quota of a call of a tool (crates/gateway-mcp/src/invocation.rs): one reservation, handed
-- back.
use mathlib.Core.Path.{subst}
use tuenel.Prelude.{
  ℕ, String, ◌≡◌, refl, sym, ap, lift, ok_or, pure, find, ◌==◌, Option, none, some, ok, err, Exec,
  ◌⊎◌, Result, continue, ◌>>=◌, arith, Result-cases, inl, inr, ◌∙◌, string_eq, nat_eq,
}
use tuenel.Types.Identity.{Uuid, Principal}
use tuenel.Types.Mcp.{McpServerId, GatewayMcpTool, GatewayMcpInvocation, GatewayMcpResult}
use tuenel.Mcp.Errors.{McpError, invalid, tool_unavailable}
use tuenel.Mcp.Registry.{RegistryWorld, server_for, tools}
use tuenel.Mcp.Registry.Owned.{server_for-transports}
use tuenel.Mcp.Invocation.Permitted.{screen-Screened}
use tuenel.Mcp.Invocation.Granted.{tools-transports}
use tuenel.Mcp.Policy.{McpPolicy}
use tuenel.Mcp.Calls.{
  McpCodec, McpInvocationService, McpWorld, McpTicks, Call, ApprovalReference, audit, record_usage,
  on_registry,
}
use tuenel.Mcp.Consent.{approve, retry, ask_approval}
use tuenel.Mcp.Invocation.{new_call, call_tool, proceed, run, screen, invoke, deny}
use tuenel.Mcp.Invocation.Kept.{finish-quotas, failed-quotas, call_tool-quotas}

module _ {R T Q U A E Z : Type 0} (c : McpCodec) (m : McpInvocationService R T Q U A E Z)
    (ticks : McpTicks R T) where
  -- One reservation for this principal, server and tool was made under the policy: it was refused,
  -- and no transport was reached, or its key was released.
  abbrev pub Reserved :
      Principal → McpServerId → String → McpPolicy → Q → T → McpWorld R T Q U A E Z → Type 0
  Reserved p id name policy q t v =
      let reserved = m.quota.reserve p id name policy q in
      ((e : McpError) × (reserved.0 ≡ err e) × (v.quotas ≡ reserved.1) × (v.servers.transports ≡ t))
      ⊎ ((key : String) × (reserved.0 ≡ ok key) × (v.quotas ≡ (m.quota.release key reserved.1).1))

  run-Reserved :
      (call : Call) (w : McpWorld R T Q U A E Z)
      → Reserved call.principal call.invocation.server_id call.invocation.tool_name call.policy
          w.quotas w.servers.transports
          (run c m ticks call w).1
  unfolding run
  run-Reserved call w =
      let id = call.invocation.server_id in
      let name = call.invocation.tool_name in
      let r = m.quota.reserve call.principal id name call.policy w.quotas in
      elim (Result-cases r.0) [
        | inr no_key ↦ inl (no_key.0, no_key.1, ground (arith, no_key.1), ground (arith, no_key.1))
        | inl key ↦
            let w1 : McpWorld R T Q U A E Z = record w { quotas = r.1 } in
            let called = call_tool c m ticks call w1 in
            let freed : McpWorld R T Q U A E Z = record called.1 {
              quotas = (m.quota.release key.0 called.1.quotas).1;
            } in
            let back : freed.quotas ≡ (m.quota.release key.0 r.1).1 =
              ap (λ q. (m.quota.release key.0 q).1) (call_tool-quotas c m ticks call w1) in
            elim (Result-cases called.0) [
              | inl done ↦ inr (
                key.0,
                key.1,
                ground (arith, key.1, done.1, finish-quotas c m ticks call done.0 freed, back),
              )
              | inr bad ↦ inr (
                key.0,
                key.1,
                ground (arith, key.1, bad.1, failed-quotas c m ticks call freed, back),
              )
            ]
      ]

  bind-kept :
      {B D : Type 0} (X : McpWorld R T Q U A E Z → Type 0)
      (f : Exec (McpWorld R T Q U A E Z) McpError B)
      (next : B → Exec (McpWorld R T Q U A E Z) McpError D) (w : McpWorld R T Q U A E Z)
      → X (f w).1
      → ((b : B) → (f w).0 ≡ ok b → X (next b (f w).1).1)
      → X ((f >>= next) w).1
  bind-kept {B} {D} X f next w same later = by_result (f w).0 (f w).1 same later
    where
      by_result :
          (r : Result McpError B) (v : McpWorld R T Q U A E Z)
          → X v
          → ((b : B) → r ≡ ok b → X (next b v).1)
          → X (continue r next v).1
      by_result (ok b) v same later = later b refl
      by_result (err e) v same later = same

  -- No reservation was made and no transport reached, or the reservation was settled.
  abbrev pub Settles : Principal → McpServerId → String → Q → T → McpWorld R T Q U A E Z → Type 0
  Settles p id name q t v =
      ((v.quotas ≡ q) × (v.servers.transports ≡ t))
      ⊎ ((policy : McpPolicy) × (m.policies p ≡ ok policy) × Reserved p id name policy q t v)

  approve-still :
      (call : Call) (hash : String) (w : McpWorld R T Q U A E Z)
      → ((approve c m ticks call hash w).1.quotas ≡ w.quotas)
        × ((approve c m ticks call hash w).1.servers ≡ w.servers)
  unfolding approve retry ask_approval audit
  approve-still call hash w = (ground arith, ground arith)

  proceed-Settles :
      (call : Call) (w : McpWorld R T Q U A E Z)
      → m.policies call.principal ≡ ok call.policy
      → Settles call.principal call.invocation.server_id call.invocation.tool_name w.quotas
          w.servers.transports
          (proceed c m ticks call w).1
  unfolding proceed
  proceed-Settles call w resolved =
      let id = call.invocation.server_id in
      let name = call.invocation.tool_name in
      let X = Settles call.principal id name w.quotas w.servers.transports in
      bind-kept X (lift (ok_or (c.invocation_hash call.invocation) invalid)) _ w (inl (refl, refl))
        (λ hash _.
          let still = approve-still call hash w in
          let v = (approve c m ticks call hash w).1 in
          let same = ap (λ (r : RegistryWorld R T). r.transports) still.1 in
          bind-kept X (approve c m ticks call hash) _ w (inl (still.0, same))
            (λ stored _. by_stored stored v still.0 same))
    where
      by_stored :
          (stored : Option GatewayMcpResult) (v : McpWorld R T Q U A E Z)
          → v.quotas ≡ w.quotas
          → v.servers.transports ≡ w.servers.transports
          → Settles call.principal call.invocation.server_id call.invocation.tool_name w.quotas
              w.servers.transports
              (elim stored as (λ _. Exec (McpWorld R T Q U A E Z) McpError GatewayMcpResult) [
                | some result ↦ pure result
                | none ↦ run c m ticks call
              ]
                v).1
      by_stored (some result) v same_q same_t = inl (same_q, same_t)
      by_stored none v same_q same_t =
          let id = call.invocation.server_id in
          let name = call.invocation.tool_name in
          let after = (run c m ticks call v).1 in
          inr (
            call.policy,
            resolved,
            subst (λ t. Reserved call.principal id name call.policy w.quotas t after) same_t
                (subst
                  (λ q. Reserved call.principal id name call.policy q v.servers.transports after)
                  same_q (run-Reserved call v)),
          )

  module _ (request_id : Uuid) (p : Principal) (invocation : GatewayMcpInvocation)
      (reference : ApprovalReference) where
    screen-still :
        (tool : GatewayMcpTool) (policy : McpPolicy) (bytes : ℕ) (w : McpWorld R T Q U A E Z)
        → ((screen c m ticks request_id p invocation reference tool policy bytes w).1.quotas
            ≡ w.quotas)
          × ((screen c m ticks request_id p invocation reference tool policy bytes w).1.servers
              ≡ w.servers)
    unfolding screen deny audit record_usage
    screen-still tool policy bytes w = (ground arith, ground arith)

    screened-Settles :
        (tool : GatewayMcpTool) (policy : McpPolicy) (bytes : ℕ) (w v : McpWorld R T Q U A E Z)
        → m.policies p ≡ ok policy
        → v.quotas ≡ w.quotas
        → v.servers.transports ≡ w.servers.transports
        → Settles p invocation.server_id invocation.tool_name w.quotas w.servers.transports
            ((screen c m ticks request_id p invocation reference tool policy bytes >>= λ call.
                proceed c m ticks call)
              v).1
    screened-Settles tool policy bytes w v resolved same_q same_t =
        let id = invocation.server_id in
        let name = invocation.tool_name in
        let checked = screen c m ticks request_id p invocation reference tool policy bytes in
        let u = (checked v).1 in
        let still = screen-still tool policy bytes v in
        let same_u : u.quotas ≡ w.quotas = still.0 ∙ same_q in
        let same_r : u.servers.transports ≡ w.servers.transports =
          ap (λ (r : RegistryWorld R T). r.transports) still.1 ∙ same_t in
        bind-kept (Settles p id name w.quotas w.servers.transports) checked _ v
          (inl (same_u, same_r))
          (λ call e.
            let found =
              screen-Screened c m ticks request_id p invocation reference tool policy bytes v call
                e in
            let after = (proceed c m ticks call u).1 in
            let made =
              new_call c m ticks request_id p invocation reference tool policy bytes found.0 in
            let settled : Settles p id name u.quotas u.servers.transports
                (proceed c m ticks call u).1 =
              subst
                (λ (x : Call).
                  Settles p id name u.quotas u.servers.transports (proceed c m ticks x u).1)
                (sym found.2) (proceed-Settles made u resolved) in
            subst (λ t. Settles p id name w.quotas t after) same_r
              (subst (λ q. Settles p id name q u.servers.transports after) same_u settled))

    -- A call of a tool makes no reservation of the quota and reaches no transport, or it makes one
    -- reservation, for the principal, the server and the tool under the policy of the principal.
    -- If this is refused, no transport is reached and the quota is as the refusal left it. If not,
    -- its key is released in the end and nothing else is done to the quota, whatever the policies,
    -- the enforcer, the approvals and the tool do, a time-out included.
    pub invoke-quotas :
        (w : McpWorld R T Q U A E Z)
        → Settles p invocation.server_id invocation.tool_name w.quotas w.servers.transports
            (invoke c m ticks request_id p invocation reference w).1
    unfolding invoke
    invoke-quotas w =
        let id = invocation.server_id in
        let X = Settles p id invocation.tool_name w.quotas w.servers.transports in
        let f1 = on_registry c m ticks (server_for m.registry p id) in
        let f2 = on_registry c m ticks (tools m.registry ticks.registry_ticks p (some id)) in
        let w1 = (f1 w).1 in
        let w2 = (f2 w1).1 in
        let same1 = server_for-transports m.registry p id w.servers in
        let same2 =
          tools-transports m.registry ticks.registry_ticks p (some id) w1.servers ∙ same1 in
        bind-kept X f1 _ w (inl (refl, same1)) (λ _ _.
          bind-kept X f2 _ w1 (inl (refl, same2)) (λ listed _.
            let chosen =
              find (λ (t : GatewayMcpTool). t.tool_name == invocation.tool_name) listed in
            bind-kept X (lift (ok_or chosen tool_unavailable)) _ w2 (inl (refl, same2)) (λ tool _.
              bind-kept X (lift (m.policies p)) _ w2 (inl (refl, same2)) (λ policy resolved.
                bind-kept X (lift (ok_or (c.value_len invocation.arguments) invalid)) _ w2
                  (inl (refl, same2))
                  (λ bytes _.
                    screened-Settles tool policy bytes w w2 (ground (arith, resolved)) refl
                      same2)))))
