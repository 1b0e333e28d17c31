-- ===== src/Mcp/Gateway/Courses.antt =====
-- The gateway with its registry over all that changes it, `shutdown` included: every route leads to
-- a server.
use kalen.Prelude.{
  String, ◌≡◌, refl, ap, ◌≢◌, inl, inr, true, false, not, ◌&&◌, some, none, ok, is_some, any, leb,
  arith, Bool, Bool-cases, Option-cases, ◌==◌, eq_iff, eq_refl, ◌+◌,
}
use kalen.Prelude.Dict.{lookup, lookup-erase}
use kalen.Shared.Tool.{McpTool}
use kalen.Identity.Access.{check_permission}
use kalen.Mcp.AllowList.{is_allowed}
use kalen.Mcp.Server.{list_tools}
use kalen.Mcp.Invocation.{
  Denial, too_many_calls, lacks_permission, not_in_allowlist, no_server_for, not_connected,
  AccessDecision, allowed, denied, Invocation,
}
use kalen.Mcp.Gateway.{
  Config, Route, RegisteredServer, Gateway, ToolCall, new_gateway, Begun, returned, running, begin,
  dispatch, deny, deny_and_release, invocation_of, set_active, active_count,
}
use kalen.Mcp.Gateway.Servers.{remove_routes, unregister_server, shutdown}
use kalen.Mcp.Gateway.Calls.{World, Step, idle}
use kalen.Mcp.Gateway.Registry.{
  AllRoutes, Leads, Wired, Step-Wired, new_gateway-Wired, AllRoutes-lookup, AllRoutes-map,
  AllRoutes-remove_routes,
}

-- The steps of a gateway, and `shutdown` at any place among them.
pub data Course (w : World) : World → Type 0 where
  begun : Course w w
  moves : {v v' : World} → Course w v → Step v v' → Course w v'
  shuts : {v : World} → Course w v → Course w (record v { gateway = shutdown v.gateway })

Course-Wired : {w v : World} → Course w v → Wired w.gateway → Wired v.gateway
unfolding shutdown
Course-Wired begun h = h
Course-Wired (moves ss s) h = Step-Wired s (Course-Wired ss h)
Course-Wired (shuts ss) h = tt

-- whether a call was given back because the server of its route is not there
abbrev is_lost : Denial → Bool
is_lost too_many_calls = false
is_lost (lacks_permission r p) = false
is_lost (not_in_allowlist n a) = false
is_lost (no_server_for n) = false
is_lost (not_connected s) = true

abbrev decided_lost : AccessDecision → Bool
decided_lost allowed = false
decided_lost (denied d) = is_lost d

abbrev pub lost_server : Begun → Bool
lost_server (returned i) = decided_lost i.access_decision
lost_server (running i) = false

-- Whatever a new gateway has been through, with calls, answers, registrations, changes of its
-- allowlist and shutdowns in any order: every route of its registry leads to a server that is
-- registered.
pub routes_lead :
    (config : Config) (g : Gateway) (w : World) (n : String) (r : Route)
    → new_gateway config ≡ ok g
    → Course (idle g) w
    → lookup n w.gateway.tool_registry ≡ some r
    → (s : RegisteredServer) × (lookup r.server_id w.gateway.servers ≡ some s)
routes_lead config g w n r e ss found =
    let h =
      AllRoutes-lookup (Leads w.gateway) n r w.gateway.tool_registry
        (Course-Wired ss (new_gateway-Wired config g e)) found in
    elim (Option-cases (lookup r.server_id w.gateway.servers)) [
      | inl gone ↦ cc (ap is_some gone, h)
      | inr there ↦ there
    ]

dispatch-Wired : (g : Gateway) (i : Invocation) → Wired g → lost_server (dispatch g i).1 ≡ false
unfolding deny_and_release dispatch
dispatch-Wired g i h =
    elim (Bool-cases (any (λ (t : McpTool). t.name == i.tool_name) (list_tools g.local_server))) [
      | inl here ↦ rw (here, dispatch) refl
      | inr far ↦ elim (Option-cases (lookup i.tool_name g.tool_registry)) [
        | inl gone ↦ rw (far, dispatch) (rw gone refl)
        | inr (r, found) ↦
            let lead = AllRoutes-lookup (Leads g) i.tool_name r g.tool_registry h found in
            elim (Option-cases (lookup r.server_id g.servers)) [
              | inl gone ↦ cc (ap is_some gone, lead)
              | inr (s, there) ↦ rw (far, dispatch) (rw found (rw there refl))
            ]
      ]
    ]

begin-Wired : (g : Gateway) (c : ToolCall) → Wired g → lost_server (begin g c).1 ≡ false
unfolding deny set_active begin
begin-Wired g c h =
    elim (Bool-cases (leb g.config.max_concurrent_calls (active_count g c.caller_id))) [
      | inl full ↦ rw (full, begin) refl
      | inr room ↦
          elim (Bool-cases
            (g.config.rbac_enabled && not (check_permission c.role c.required_permission))) [
              | inl lacks ↦ rw (room, begin) (rw lacks refl)
              | inr may ↦ elim (Bool-cases (is_allowed g.allow_list c.caller_id c.tool_name)) [
                | inl listed ↦
                    rw (room, begin)
                      (rw may (
                        rw listed (
                          dispatch-Wired (set_active g c.caller_id (active_count g c.caller_id + 1))
                            (invocation_of c) h)))
                | inr unlisted ↦ rw (room, begin) (rw may (rw unlisted refl))
              ]
            ]
    ]

-- Whatever a new gateway has been through, with calls, answers, registrations, changes of its
-- allowlist and shutdowns in any order: no call is denied because the server of its route is not
-- connected; that branch of `routeToolCall` is never taken.
pub no_call_is_lost :
    (config : Config) (g : Gateway) (w : World) (c : ToolCall)
    → new_gateway config ≡ ok g
    → Course (idle g) w
    → lost_server (begin w.gateway c).1 ≡ false
no_call_is_lost config g w c e ss =
    begin-Wired w.gateway c (Course-Wired ss (new_gateway-Wired config g e))

-- Whatever a new gateway has been through, with calls, answers, registrations, changes of its
-- allowlist and shutdowns in any order: after a server is unregistered no route of the registry
-- leads to it, it is not registered, and the other servers are as they were.
pub unregister_server_lem :
    (config : Config) (g : Gateway) (w : World) (server_id : String)
    → new_gateway config ≡ ok g
    → Course (idle g) w
    → let g' = unregister_server w.gateway server_id in
      AllRoutes (λ r. r.server_id == server_id ≡ false) g'.tool_registry
      × (lookup server_id g'.servers ≡ none)
      × ((j : String) → j ≢ server_id → lookup j g'.servers ≡ lookup j w.gateway.servers)
unfolding unregister_server
unregister_server_lem config g w server_id e ss =
    let h = Course-Wired ss (new_gateway-Wired config g e) in
    let routes = w.gateway.tool_registry in
    elim (Option-cases (lookup server_id w.gateway.servers)) [
      | inl gone ↦
          rw (gone, unregister_server)
            (
              AllRoutes-map (Leads w.gateway) _ routes
                  (λ r p. ground (arith, eq_iff r.server_id server_id)) h,
              gone,
              λ j n. refl,
            )
      | inr (s, there) ↦
          rw (there, unregister_server)
            (
              AllRoutes-map _ _ (remove_routes server_id routes) (λ r p. p.1)
                  (AllRoutes-remove_routes (Leads w.gateway) server_id routes h),
              ground (arith, lookup-erase server_id server_id w.gateway.servers, eq_refl server_id),
              λ j n. ground (arith, lookup-erase server_id j w.gateway.servers, eq_iff server_id j),
            )
    ]
