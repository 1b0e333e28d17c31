-- ===== src/Mcp/Invocation.antt =====
-- Invocations of tools (`MCPToolInvocation` of packages/shared/src/types/mcp.ts) and the entries of
-- the audit log (packages/mcp-gateway/src/gateway/gateway-service.ts). Times are in milliseconds.
use Prim.Native.String
use kalen.Prelude.{ℕ, String, Option, none, some, List, [], ◌∷◌, get_or, if◌then◌else◌}
use kalen.Prelude.Numbers.{ℤ}
use kalen.Shared.Json.{Fields}
use kalen.Shared.Tool.{ContentBlock, CallResult, CallerKind}
use kalen.Identity.Roles.{Role, Permission}

-- the reasons of a denial; the texts are made from these
pub data Denial : Type 0 where
  too_many_calls : Denial
  lacks_permission : Role → Permission → Denial
  not_in_allowlist : String → String → Denial
  no_server_for : String → Denial
  not_connected : String → Denial

pub data AccessDecision : Type 0 where
  allowed : AccessDecision
  denied : Denial → AccessDecision

-- `MCPToolInvocation`
pub record Invocation : Type 0 where
  pub invocation_id : String
  pub tool_name : String
  pub arguments : Fields
  pub caller_id : String
  pub caller_kind : CallerKind
  pub server_id : String
  pub started_at : ℕ
  pub completed_at : Option ℕ
  pub duration_ms : Option ℤ
  pub result : Option CallResult
  pub access_decision : AccessDecision

-- `AuditLogEntry`
pub record AuditLogEntry : Type 0 where
  pub invocation_id : String
  pub timestamp : ℕ
  pub tool_name : String
  pub caller_id : String
  pub caller_kind : CallerKind
  pub server_id : String
  pub access_decision : AccessDecision
  pub duration_ms : ℤ
  pub error : Option String

-- `content.map((c) => c.text ?? "").join("; ")`
unfoldable pub joined : List ContentBlock → String
joined [] = ""
joined (c ∷ []) = get_or c.content ""
joined (c ∷ d ∷ cs) = String.◌++◌ (get_or c.content "") (String.◌++◌ "; " (joined (d ∷ cs)))

unfoldable pub error_of : Option CallResult → Option String
unfolding joined
error_of none = none
error_of (some r) = if r.is_error then some (joined r.content) else none

-- the entry that `recordAudit` makes
abbrev pub entry_of : Invocation → ℤ → AuditLogEntry
entry_of i duration_ms = record {
  invocation_id = i.invocation_id;
  timestamp = i.started_at;
  tool_name = i.tool_name;
  caller_id = i.caller_id;
  caller_kind = i.caller_kind;
  server_id = i.server_id;
  access_decision = i.access_decision;
  duration_ms = duration_ms;
  error = error_of i.result;
}
