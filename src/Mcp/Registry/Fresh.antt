-- ===== src/Mcp/Registry/Fresh.antt =====
-- The cache of tools and the sessions across changes of a server
-- (crates/gateway-mcp/src/registry.rs).
use tuenel.Prelude.{
  ◌≡◌, after_ok, lift, true, none, some, List, map, ok, arith, nat_eq, string_eq, String,
}
use tuenel.Prelude.Maps.{get, get-insert, get-remove}
use tuenel.Types.Identity.{Principal}
use tuenel.Types.Mcp.{McpServerId, GatewayMcpTool}
use tuenel.Mcp.Server.{
  McpServerRecord, is_young, get_session, remove_session, get_tools, put_tools, invalidate,
}
use tuenel.Mcp.Discovery.{validate_tools}
use tuenel.Mcp.Registry.{
  McpRegistry, RegistryWorld, RegistryTicks, shut_down, delete, server_for, session, refresh, tools,
  on_store, on_transport,
}

module _ {R T : Type 0} (g : McpRegistry R T) where
  -- When a server has been deleted, whether or not the repository could delete it, there is neither
  -- a session nor a cached list of tools for it, at any reading of the clock.
  pub delete-forgets :
      (tenant_id : String) (server_id : McpServerId) (w : RegistryWorld R T) (ticks : RegistryTicks)
      → let v = (delete g tenant_id server_id w).1 in
        (get_session ticks.session_read_at v.sessions server_id ≡ none)
        × (get_tools g.cache_ttl ticks.cache_read_at v.cache server_id ≡ none)
  unfolding delete shut_down get_session remove_session get_tools invalidate
  delete-forgets tenant_id server_id w ticks = (
    ground (arith, get-remove w.sessions server_id server_id, nat_eq.beq_iff server_id server_id),
    ground (arith, get-remove w.cache server_id server_id, nat_eq.beq_iff server_id server_id),
  )

  server_for-cache :
      (p : Principal) (server_id : McpServerId) (w : RegistryWorld R T)
      → (server_for g p server_id w).1.cache ≡ w.cache
  unfolding server_for
  server_for-cache p server_id w = ground arith

  refresh-cache :
      (ticks : RegistryTicks) (p : Principal) (server_id : McpServerId) (w : RegistryWorld R T)
      (found : List GatewayMcpTool)
      → (refresh g ticks p server_id w).0 ≡ ok found
      → get (refresh g ticks p server_id w).1.cache server_id ≡ some (ticks.cached_at, found)
  unfolding refresh put_tools
  refresh-cache ticks p server_id w found h =
      let Cached : RegistryWorld R T → Type 0 =
        λ v. get v.cache server_id ≡ some (ticks.cached_at, found) in
      after_ok Cached (server_for g p server_id) _ w found h (λ server _ h1.
        let w1 = (server_for g p server_id w).1 in
        after_ok Cached (session g ticks server) _ w1 found h1 (λ opened _ h2.
          let w2 = (session g ticks server w1).1 in
          let list = on_transport g (opened.1.list_tools opened.0) in
          after_ok Cached list _ w2 found h2 (λ listed _ h3.
            let checked = validate_tools g.to_vec g.sha256 g.schema_limits listed in
            after_ok Cached (lift checked) _ (list w2).1 found h3 (λ validated _ h4.
              let store = on_store g (g.repository.replace_tools p.tenant_id server_id validated) in
              let safe = map (λ (entry : GatewayMcpTool × String). entry.0) validated in
              after_ok Cached store _ (list w2).1 found h4 (λ _ _ h5. ground (
                arith,
                h5,
                nat_eq.beq_iff server_id server_id,
                get-insert (list w2).1.cache server_id (ticks.cached_at, safe) server_id,
              ))))))

  -- The tools that a discovery returned are those that `tools` lists for the server next, as long
  -- as the server can be seen and the entry is younger than the time to live.
  pub tools-refresh :
      (ticks later : RegistryTicks) (p : Principal) (server_id : McpServerId)
      (w : RegistryWorld R T) (found : List GatewayMcpTool) (server : McpServerRecord)
      → (refresh g ticks p server_id w).0 ≡ ok found
      → (server_for g p server_id (refresh g ticks p server_id w).1).0 ≡ ok server
      → is_young g.cache_ttl later.cache_read_at ticks.cached_at ≡ true
      → (tools g later p (some server_id) (refresh g ticks p server_id w).1).0 ≡ ok found
  unfolding tools get_tools
  tools-refresh ticks later p server_id w found server h seen young = ground (
    arith,
    seen,
    young,
    refresh-cache ticks p server_id w found h,
    server_for-cache p server_id (refresh g ticks p server_id w).1,
  )
