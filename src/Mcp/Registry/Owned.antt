-- ===== src/Mcp/Registry/Owned.antt =====
-- Whom a server answers (crates/gateway-mcp/src/registry.rs).
use mathlib.Core.Path.{subst}
use tuenel.Prelude.{
  ◌≡◌, true, ◌&&◌, none, some, List, [], ◌∷◌, map, ok, Exec, ◌>>=◌, arith, All, filter, contains,
  All-filter, any, Bool-cases, Option-cases, Result-cases, ◌⊎◌, inl, inr, string_eq, nat_eq, ◌∙◌,
  ap,
}
use tuenel.Types.Identity.{Principal}
use tuenel.Types.Mcp.{McpServerId, GatewayMcpTool, GatewayMcpInvocation}
use tuenel.Mcp.Errors.{McpError}
use tuenel.Mcp.Server.{McpServerRecord}
use tuenel.Mcp.Registry.{
  McpRegistry, RegistryWorld, RegistryTicks, is_visible, on_store, server_for, refresh, all_tools,
  health, invoke_tool,
}

module _ {R T : Type 0} (g : McpRegistry R T) where
  -- The repository has the server, and the principal may see it.
  abbrev pub Sees : Principal → McpServerId → RegistryWorld R T → Type 0
  Sees p server_id w =
      (server : McpServerRecord) × ((g.repository.server p.tenant_id server_id w.repository_state).0
        ≡ ok (some server))
      × (is_visible g p server ≡ true)

  pub server_for-Sees :
      (p : Principal) (server_id : McpServerId) (w : RegistryWorld R T) (server : McpServerRecord)
      → (server_for g p server_id w).0 ≡ ok server
      → Sees p server_id w
  unfolding server_for
  server_for-Sees p server_id w server h =
      elim (Result-cases (g.repository.server p.tenant_id server_id w.repository_state).0) [
        | inr failed ↦ absurd (ground (arith, failed.1, h))
        | inl done ↦ elim (Option-cases done.0) [
          | inl missing ↦ absurd (ground (arith, done.1, missing, h))
          | inr found ↦ elim (Bool-cases (is_visible g p found.0)) [
            | inl shown ↦ (found.0, done.1 ∙ ap ok found.1, shown)
            | inr hidden ↦ absurd (ground (arith, done.1, found.1, hidden, h))
          ]
        ]
      ]

  pub server_for-transports :
      (p : Principal) (server_id : McpServerId) (w : RegistryWorld R T)
      → (server_for g p server_id w).1.transports ≡ w.transports
  unfolding server_for
  server_for-transports p server_id w = ground arith

  -- An action that asks for the server first leaves the transports alone unless the principal sees
  -- the server.
  guarded :
      {A : Type 0} (p : Principal) (server_id : McpServerId)
      (next : McpServerRecord → Exec (RegistryWorld R T) McpError A) (w : RegistryWorld R T)
      → (((server_for g p server_id >>= next) w).1.transports ≡ w.transports) ⊎ Sees p server_id w
  guarded p server_id next w = elim (Result-cases (server_for g p server_id w).0) [
    | inl done ↦ inr (server_for-Sees p server_id w done.0 done.1)
    | inr failed ↦ inl (ground (arith, failed.1, server_for-transports p server_id w))
  ]

  -- The invocation of a tool, the discovery of tools and the check of a server's health reach a
  -- transport only if the repository has the server under the tenant of the principal, and it is
  -- enabled and owned by that tenant and, if it has a project, by the project of the principal.
  pub transports-Sees :
      (ticks : RegistryTicks) (p : Principal) (invocation : GatewayMcpInvocation)
      (w : RegistryWorld R T)
      → let id = invocation.server_id in
        (((invoke_tool g ticks p invocation w).1.transports ≡ w.transports) ⊎ Sees p id w)
        × (((refresh g ticks p id w).1.transports ≡ w.transports) ⊎ Sees p id w)
        × (((health g p id w).1.transports ≡ w.transports) ⊎ Sees p id w)
  unfolding invoke_tool refresh health
  transports-Sees ticks p invocation w = (
    guarded p invocation.server_id _ w,
    guarded p invocation.server_id _ w,
    guarded p invocation.server_id _ w,
  )

  visible_ids :
      (p : Principal) (servers : List McpServerRecord) (id : McpServerId)
      → contains (map (λ (s : McpServerRecord). s.server_id) (filter (is_visible g p) servers)) id
        ≡ true
      → any (λ (s : McpServerRecord). is_visible g p s && nat_eq.beq s.server_id id) servers ≡ true
  visible_ids p [] id h = h
  visible_ids p (s ∷ servers) id h = ground (arith, h, visible_ids p servers id)

  -- The tools that are listed for a principal across servers each belong to a server that the
  -- repository returned for the tenant and the project, and that the principal may see.
  pub all_tools-visible :
      (p : Principal) (w : RegistryWorld R T) (listed : List GatewayMcpTool)
      → (all_tools g p w).0 ≡ ok listed
      → (servers : List McpServerRecord) × ((on_store g
            (g.repository.servers p.tenant_id p.project_id)
            (on_store g (g.repository.tools p.tenant_id none) w).1).0
          ≡ ok servers)
        × All
            (λ (tool : GatewayMcpTool).
              any
                (λ (s : McpServerRecord). is_visible g p s && nat_eq.beq s.server_id tool.server_id)
                servers
              ≡ true)
            listed
  unfolding all_tools
  all_tools-visible p w listed h =
      let first = on_store g (g.repository.tools p.tenant_id none) w in
      let second = on_store g (g.repository.servers p.tenant_id p.project_id) first.1 in
      elim (Result-cases first.0) [
        | inr failed ↦ absurd (ground (arith, failed.1, h))
        | inl found ↦ elim (Result-cases second.0) [
          | inr failed ↦ absurd (ground (arith, found.1, failed.1, h))
          | inl servers ↦
              let allowed =
                map (λ (s : McpServerRecord). s.server_id) (filter (is_visible g p) servers.0) in
              let shown =
                filter (λ (tool : GatewayMcpTool). contains allowed tool.server_id) found.0 in
              let same : shown ≡ listed = ground (arith, found.1, servers.1, h) in
              (
                servers.0,
                servers.1,
                subst
                    (All (λ (tool : GatewayMcpTool).
                      any
                        (λ (s : McpServerRecord).
                          is_visible g p s && nat_eq.beq s.server_id tool.server_id)
                        servers.0
                      ≡ true))
                    same
                    (All-filter
                      (λ (tool : GatewayMcpTool).
                        any
                          (λ (s : McpServerRecord).
                            is_visible g p s && nat_eq.beq s.server_id tool.server_id)
                          servers.0
                        ≡ true)
                      (λ (tool : GatewayMcpTool). contains allowed tool.server_id) found.0
                      (λ tool in_list. visible_ids p servers.0 tool.server_id in_list)),
              )
        ]
      ]
