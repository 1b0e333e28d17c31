-- ===== src/Mcp/Gateway/Audit.antt =====
-- The audit log of packages/mcp-gateway/src/gateway/gateway-service.ts over runs.
use kalen.Prelude.{ℕ, ◌+◌, String, ◌≡◌, refl, some, [], ◌∷◌, ◌++◌, length, get_or, Result}
use kalen.Prelude.Numbers.{pos, difference}
use kalen.Shared.Tool.{CallResult}
use kalen.Mcp.Server.{Thrown}
use kalen.Mcp.Invocation.{Invocation, entry_of}
use kalen.Mcp.Gateway.{
  Gateway, ToolCall, invocation_of, result_of, record_audit, active_count, release, set_active,
  Begun, complete, finish, route_tool_call,
}
use kalen.Mcp.Gateway.Guards.{Begins, runs, refuses, begin-Begins, active_count-undo}
use kalen.Mcp.Gateway.Calls.{World}

-- the entries of the log and the running calls, together
abbrev pub accounted : World → ℕ
accounted w = length w.gateway.audit_log + length w.in_flight

-- the log has one entry more, of the invocation that is given back, and the counters are as before
abbrev pub Audited : Gateway → ToolCall → Gateway × Invocation → Type 0
Audited g c (g', i) =
    (g'.audit_log ≡ g.audit_log ++ entry_of i (get_or i.duration_ms (pos 0)) ∷ [])
    × (i.invocation_id ≡ c.invocation_id)
    × (i.tool_name ≡ c.tool_name)
    × (i.caller_id ≡ c.caller_id)
    × ((a : String) → active_count g' a ≡ active_count g a)

complete-Audited :
    (g : Gateway) (c : ToolCall) (answer : Result Thrown CallResult) (now : ℕ) {b : Gateway × Begun}
    → Begins g c b
    → Audited g c (complete answer now b)
unfolding complete finish record_audit release set_active
complete-Audited g c answer now (refuses g' s d never same log) =
    (log, refl, refl, refl, same.counts)
complete-Audited g c answer now (runs s m) =
    let i = record (invocation_of c) { server_id = s } in
    (
      refl,
      refl,
      refl,
      refl,
      λ a.
          active_count-undo g c.caller_id a
            (record i {
              result = some (result_of answer);
              completed_at = some now;
              duration_ms = some (difference now c.started_at);
            })
            (difference now c.started_at),
    )

-- A call with no other call beside it, denied or run, whether its tool throws or not: the log has
-- one entry more, that of the invocation which the caller is given, with the call's id, tool and
-- caller; and every counter is as it was.
pub route_tool_call-Audited :
    (g : Gateway) (c : ToolCall) (answer : Result Thrown CallResult) (now : ℕ)
    → Audited g c (route_tool_call g c answer now)
unfolding route_tool_call
route_tool_call-Audited g c answer now = complete-Audited g c answer now (begin-Begins g c)
