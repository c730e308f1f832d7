-- ===== src/Mcp/Invocation/Granted.antt =====
-- The approval that the call of a tool needs (crates/gateway-mcp/src/invocation.rs).
use tuenel.Prelude.{
  String, ◌≡◌, refl, true, false, Option, none, some, ok, Exec, ◌>>=◌, lift, ok_or, arith,
  string_eq, nat_eq, Bool-cases, Option-cases, Result-cases, ◌⊎◌, inl, inr, ◌∙◌, ap, pure,
}
use tuenel.Types.Identity.{Principal}
use tuenel.Types.Approval.{ApprovalId}
use tuenel.Types.Mcp.{McpServerId, GatewayMcpResult}
use tuenel.Approval.{authorize_retry, ExecutionClaim, claimed, completed, indeterminate}
use tuenel.Mcp.Errors.{McpError, invalid}
use tuenel.Mcp.Registry.{RegistryWorld, RegistryTicks, McpRegistry, server_for, tools, all_tools}
use tuenel.Mcp.Calls.{McpCodec, McpInvocationService, McpWorld, McpTicks, Call, audit}
use tuenel.Mcp.Consent.{on_claim, approve, retry, ask_approval}
use tuenel.Mcp.Invocation.{proceed, run}

pub tools-transports :
    {R T : Type 0} (g : McpRegistry R T) (ticks : RegistryTicks) (p : Principal)
    (id : Option McpServerId) (w : RegistryWorld R T)
    → (tools g ticks p id w).1.transports ≡ w.transports
unfolding tools all_tools server_for
tools-transports g ticks p none w = ground arith
tools-transports g ticks p (some id) w = ground arith

module _ {R T Q U A E Z : Type 0} (c : McpCodec) (m : McpInvocationService R T Q U A E Z)
    (ticks : McpTicks R T) where
  -- The transports are those from before, or `X` holds.
  abbrev pub Reaches : McpWorld R T Q U A E Z → Type 0 → McpWorld R T Q U A E Z → Type 0
  Reaches w X v = (v.servers.transports ≡ w.servers.transports) ⊎ X

  pub bind-Reaches :
      {B D : Type 0} (X : Type 0) (f : Exec (McpWorld R T Q U A E Z) McpError B)
      (next : B → Exec (McpWorld R T Q U A E Z) McpError D) (w v : McpWorld R T Q U A E Z)
      → (f v).1.servers.transports ≡ w.servers.transports
      → ((b : B) → (f v).0 ≡ ok b → Reaches w X (next b (f v).1).1)
      → Reaches w X ((f >>= next) v).1
  bind-Reaches X f next w v same later = elim (Result-cases (f v).0) [
    | inr failed ↦ inl (ground (arith, failed.1, same))
    | inl done ↦ elim (later done.0 done.1) [
      | inl still ↦ inl (ground (arith, done.1, still))
      | inr x ↦ inr x
    ]
  ]

  -- The call needs no approval, or approvals are on and the repository granted this claim of it.
  abbrev pub Granted : Call → A → Type 0
  Granted call approvals =
      (call.needs_approval ≡ false)
      ⊎ ((m.approval_enabled ≡ true)
          × ((id : ApprovalId) × (key : String) × (hash : String) × (call.reference.approval_id
                ≡ some id)
              × (call.reference.idempotency_key ≡ some key)
              × (c.invocation_hash call.invocation ≡ some hash)
              × ((authorize_retry m.approval c.is_whitespace ticks.approval_now ticks.approval_later
                    call.principal id key hash approvals).0
                  ≡ ok claimed)))

  on_claim-claimed : (claim : ExecutionClaim) → on_claim c m ticks claim ≡ ok none → claim ≡ claimed
  on_claim-claimed claimed h = refl
  on_claim-claimed indeterminate h = absurd (ground (arith, h))
  on_claim-claimed (completed value) h = absurd (ground (arith, h))

  approve-transports :
      (call : Call) (hash : String) (w : McpWorld R T Q U A E Z)
      → (approve c m ticks call hash w).1.servers.transports ≡ w.servers.transports
  unfolding approve retry ask_approval audit
  approve-transports call hash w = ground arith

  -- The approval step lets a call through only if it is granted.
  approve-Granted :
      (call : Call) (hash : String) (w : McpWorld R T Q U A E Z)
      → c.invocation_hash call.invocation ≡ some hash
      → (approve c m ticks call hash w).0 ≡ ok none
      → Granted call w.approvals
  unfolding approve retry ask_approval
  approve-Granted call hash w hashed h = elim (Bool-cases call.needs_approval) [
    | inr free ↦ inl free
    | inl needed ↦ elim (Bool-cases m.approval_enabled) [
      | inr disabled ↦ absurd (ground (arith, needed, disabled, h))
      | inl enabled ↦ elim (Option-cases call.reference.approval_id) [
        | inl none_id ↦ absurd (ground (arith, needed, enabled, none_id, h))
        | inr id ↦ elim (Option-cases call.reference.idempotency_key) [
          | inl none_key ↦ absurd (ground (arith, needed, enabled, id.1, none_key, h))
          | inr key ↦
              let granted =
                authorize_retry m.approval c.is_whitespace ticks.approval_now ticks.approval_later
                  call.principal id.0 key.0 hash w.approvals in
              elim (Result-cases granted.0) [
                | inr refused ↦ absurd (ground (arith, needed, enabled, id.1, key.1, refused.1, h))
                | inl done ↦
                    let is_claimed =
                      on_claim-claimed done.0
                        (ground (arith, needed, enabled, id.1, key.1, done.1, h)) in
                    inr
                      (enabled, (id.0, key.0, hash, id.1, key.1, hashed, done.1 ∙ ap ok is_claimed))
              ]
        ]
      ]
    ]
  ]

  pub proceed-Granted :
      (call : Call) (w : McpWorld R T Q U A E Z)
      → Reaches w (Granted call w.approvals) (proceed c m ticks call w).1
  unfolding proceed
  proceed-Granted call w =
      let X = Granted call w.approvals in
      bind-Reaches X (lift (ok_or (c.invocation_hash call.invocation) invalid)) _ w w refl
        (λ hash hashed.
          bind-Reaches X (approve c m ticks call hash) _ w w (approve-transports call hash w)
            (λ stored e. by_stored stored hash (ground (arith, hashed)) e))
    where
      by_stored :
          (stored : Option GatewayMcpResult) (hash : String)
          → c.invocation_hash call.invocation ≡ some hash
          → (approve c m ticks call hash w).0 ≡ ok stored
          → Reaches w
              (Granted call w.approvals)
              (elim stored as (λ _. Exec (McpWorld R T Q U A E Z) McpError GatewayMcpResult) [
                | some result ↦ pure result
                | none ↦ run c m ticks call
              ]
                (approve c m ticks call hash w).1).1
      by_stored none hash hashed e = inr (approve-Granted call hash w hashed e)
      by_stored (some result) hash hashed e = inl (approve-transports call hash w)
