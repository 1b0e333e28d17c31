-- ===== src/Mcp/Gateway/Names.antt =====
-- Denials by the plain name of a tool, and calls by its qualified name.
use Prim.Native.String
use Prim.Native.String.{String, len}
use kalen.Prelude.{◌≡◌, refl, ap, ◌∙◌, ◌≢◌, [], ◌∷◌, false, arith, eq_iff, eq_refl}
use text.Mathlib.TextPositions.{len-append}
use kalen.Mcp.AllowList.{AllowList, is_allowed, deny_tool}
use kalen.Mcp.AllowList.Policy.{deny, run, step, is_allowed-run, is_allowed-decides}
use kalen.Mcp.Gateway.{Gateway, ToolCall, invocation_of, begin, active_count, Begun, running}
use kalen.Mcp.Gateway.Servers.{qualified}
use kalen.Mcp.Gateway.Guards.{Begins, runs, refuses, begin-Begins, MayRun, Serves, here, there}

qualified_differs : (server_id t : String) → t ≢ qualified server_id t
qualified_differs server_id t e =
    omega (arith, ap len e, len-append server_id (String.◌++◌ ":" t), len-append ":" t)

-- the allowlist decides about other tools as before
is_allowed-deny_other :
    (l : AllowList) (e t n : String) → t ≢ n → is_allowed (deny_tool l e t) e n ≡ is_allowed l e n
unfolding run step
is_allowed-deny_other l e t n other =
    ground (arith, eq_iff t n, is_allowed-run l (deny e t ∷ []) e n, is_allowed-decides l e n)

is_allowed-deny_same : (l : AllowList) (e t : String) → is_allowed (deny_tool l e t) e t ≡ false
unfolding run step
is_allowed-deny_same l e t =
    ground (arith, eq_refl t, eq_refl e, is_allowed-run l (deny e t ∷ []) e t)

Serves-govern :
    (g : Gateway) (l : AllowList) (n s : String)
    → Serves g n s
    → Serves (record g { allow_list = l }) n s
Serves-govern g l n s (here h) = here h
Serves-govern g l n s (there route server h e e') = there route server h e e'

MayRun-deny_other :
    (g : Gateway) (c : ToolCall) (t s : String)
    → t ≢ c.tool_name
    → MayRun g c s
    → MayRun (record g { allow_list = deny_tool g.allow_list c.caller_id t }) c s
unfolding active_count
MayRun-deny_other g c t s other m = record {
  few = m.few;
  permitted = m.permitted;
  listed = is_allowed-deny_other g.allow_list c.caller_id t c.tool_name other ∙ m.listed;
  served = Serves-govern g _ c.tool_name s m.served;
}

MayRun-running :
    (g : Gateway) (c : ToolCall) (s : String) {b : Gateway × Begun}
    → MayRun g c s
    → Begins g c b
    → (s' : String) × (b.1 ≡ running (record (invocation_of c) { server_id = s' }))
MayRun-running g c s m (runs s' _) = (s', refl)
MayRun-running g c s m (refuses _ _ _ never _ _) = absurd (never s m)

-- Where a call of a tool by its qualified name may run, it still runs after the tool is denied to
-- the caller by its plain name.
pub denied_tool_runs_qualified :
    (g : Gateway) (c : ToolCall) (server_id t s : String)
    → c.tool_name ≡ qualified server_id t
    → MayRun g c s
    → let l = deny_tool g.allow_list c.caller_id t in
      (is_allowed l c.caller_id t ≡ false)
      × ((s' : String) × ((begin (record g { allow_list = l }) c).1
            ≡ running (record (invocation_of c) { server_id = s' })))
denied_tool_runs_qualified g c server_id t s named m =
    let g' = record g { allow_list = deny_tool g.allow_list c.caller_id t } in
    let other : t ≢ c.tool_name = λ e. qualified_differs server_id t (e ∙ named) in
    (
      is_allowed-deny_same g.allow_list c.caller_id t,
      MayRun-running g' c s (MayRun-deny_other g c t s other m) (begin-Begins g' c),
    )
