-- ===== src/Events.antt =====
-- crates/gateway-events/src/lib.rs: audit events.
use tuenel.Prelude.{String, Option, some, Exec}
use tuenel.Types.Identity.{Uuid, DateTime, Principal}
use tuenel.Types.Json.{Value}

pub record AuditEvent : Type 0 where
  pub event_id : Uuid
  pub idempotency_key : String
  pub tenant_id : String
  pub project_id : Option String
  pub principal_id : Option String
  pub request_id : Option Uuid
  pub event_type : String
  pub payload : Value
  pub occurred_at : DateTime

pub data EventError : Type 0 where
  unavailable : EventError

pub record AuditRepository (E : Type 0) : Type 0 where
  pub append : AuditEvent → Exec E EventError (Unit {0})

-- AuditService::emit, with the new identifier and the reading of the clock
unfoldable pub emit :
    {E : Type 0}
    → AuditRepository E
    → Uuid
    → DateTime
    → String
    → String
    → Principal
    → Option Uuid
    → Value
    → Exec E EventError (Unit {0})
emit repository event_id now key event_type p request_id payload = repository.append (record {
  event_id = event_id;
  idempotency_key = key;
  tenant_id = p.tenant_id;
  project_id = p.project_id;
  principal_id = some p.principal_id;
  request_id = request_id;
  event_type = event_type;
  payload = payload;
  occurred_at = now;
})
