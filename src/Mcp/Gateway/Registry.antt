-- ===== src/Mcp/Gateway/Registry.antt =====
-- The registry of tools against the registered servers.
use kalen.Prelude.{
  String, ◌≡◌, ap, inl, inr, true, false, some, List, [], ◌∷◌, All, ok, is_some, arith, Bool-cases,
  Option-cases, ◌==◌, eq_iff, eq_refl, subst,
}
use kalen.Prelude.Dict.{Dict, lookup, insert, lookup-insert, lookup-erase}
use kalen.Shared.Tool.{McpTool}
use kalen.Mcp.Client.{Client}
use kalen.Mcp.Gateway.{
  Config, Route, RegisteredServer, Gateway, ToolCall, new_gateway, Begun, finish, release,
  set_active, record_audit,
}
use kalen.Mcp.Gateway.Servers.{
  qualified, add_route, add_routes, remove_routes, store_server, unregister_server,
}
use kalen.Mcp.Gateway.Guards.{Begins, runs, refuses, begin-Begins, Same}
use kalen.Mcp.Gateway.Calls.{
  World, launch, Step, starts, ends, registers, unregisters, governs, gateway_of,
}

-- Every entry of the registry satisfies `P`.
abbrev pub AllRoutes : (Route → Type 0) → Dict Route → Type 0
AllRoutes P d = All (λ (x : String × Route). P x.1) d

module _ (P : Route → Type 0) where
  AllRoutes-insert :
      (n : String) (r : Route) (d : Dict Route) → P r → AllRoutes P d → AllRoutes P (insert n r d)
  unfolding insert
  AllRoutes-insert n r [] p h = (p, tt)
  AllRoutes-insert n r ((m, q) ∷ d) p (hq, hd) = elim (Bool-cases (m == n)) [
    | inl e ↦ rw e (p, hd)
    | inr e ↦ rw e (hq, AllRoutes-insert n r d p hd)
  ]

  AllRoutes-add_route :
      (server_id : String) (t : McpTool) (d : Dict Route)
      → P (record { server_id = server_id; tool = t })
      → AllRoutes P d
      → AllRoutes P (add_route server_id t d)
  unfolding add_route
  AllRoutes-add_route server_id t d p h =
      let r : Route = record { server_id = server_id; tool = t } in
      let d' = insert (qualified server_id t.name) r d in
      let h' = AllRoutes-insert (qualified server_id t.name) r d p h in
      elim (Bool-cases (is_some (lookup t.name d'))) [
        | inl e ↦ rw e h'
        | inr e ↦ rw e (AllRoutes-insert t.name r d' p h')
      ]

  AllRoutes-add_routes :
      (server_id : String) (ts : List McpTool) (d : Dict Route)
      → ((t : McpTool) → P (record { server_id = server_id; tool = t }))
      → AllRoutes P d
      → AllRoutes P (add_routes server_id ts d)
  unfolding add_routes
  AllRoutes-add_routes server_id [] d p h = h
  AllRoutes-add_routes server_id (t ∷ ts) d p h =
      AllRoutes-add_routes server_id ts (add_route server_id t d) p
        (AllRoutes-add_route server_id t d (p t) h)

  pub AllRoutes-lookup :
      (n : String) (r : Route) (d : Dict Route) → AllRoutes P d → lookup n d ≡ some r → P r
  unfolding lookup
  AllRoutes-lookup n r [] h e = cc e
  AllRoutes-lookup n r ((m, q) ∷ d) (hq, hd) e = elim (Bool-cases (m == n)) [
    | inl same ↦ let p : q ≡ r = ground arith in subst P p hq
    | inr other ↦ AllRoutes-lookup n r d hd (ground arith)
  ]

pub AllRoutes-map :
    (P Q : Route → Type 0) (d : Dict Route)
    → ((r : Route) → P r → Q r)
    → AllRoutes P d
    → AllRoutes Q d
AllRoutes-map P Q [] f h = tt
AllRoutes-map P Q ((n, r) ∷ d) f (hr, hd) = (f r hr, AllRoutes-map P Q d f hd)

-- the routes that are left satisfy what they did, and lead elsewhere
pub AllRoutes-remove_routes :
    (P : Route → Type 0) (server_id : String) (d : Dict Route)
    → AllRoutes P d
    → AllRoutes (λ r. P r × (r.server_id == server_id ≡ false)) (remove_routes server_id d)
unfolding remove_routes
AllRoutes-remove_routes P server_id [] h = tt
AllRoutes-remove_routes P server_id ((n, r) ∷ d) (hr, hd) =
    elim (Bool-cases (r.server_id == server_id)) [
      | inl e ↦ rw e (AllRoutes-remove_routes P server_id d hd)
      | inr e ↦ rw e ((hr, e), AllRoutes-remove_routes P server_id d hd)
    ]

-- The server of a route is registered.
abbrev pub Leads : Gateway → Route → Type 0
Leads g r = is_some (lookup r.server_id g.servers) ≡ true

abbrev pub Wired : Gateway → Type 0
Wired g = AllRoutes (Leads g) g.tool_registry

-- what `registerServer` stores
abbrev entry : String → Client → List McpTool → RegisteredServer
entry server_id client ts = record {
  server_id = server_id;
  client = client;
  config = client.config;
  tools = ts;
}

store_server-Wired :
    (g : Gateway) (server_id : String) (client : Client) (ts : List McpTool)
    → Wired g
    → Wired (store_server g server_id client ts)
unfolding store_server
store_server-Wired g server_id client ts h =
    AllRoutes-add_routes _ server_id ts g.tool_registry
      (λ t. ground (
        arith,
        lookup-insert server_id server_id (entry server_id client ts) g.servers,
        eq_refl server_id,
      ))
      (AllRoutes-map (Leads g) _ g.tool_registry
        (λ r p.
          ground (arith, lookup-insert server_id r.server_id (entry server_id client ts) g.servers))
        h)

-- the test for a server that is not there, of `unregisterServer`
unregister_server-Wired :
    (g : Gateway) (server_id : String) → Wired g → Wired (unregister_server g server_id)
unfolding unregister_server
unregister_server-Wired g server_id h = elim (Option-cases (lookup server_id g.servers)) [
  | inl e ↦ rw (e, unregister_server) h
  | inr (s, e) ↦
      rw (e, unregister_server)
        (AllRoutes-map _ _ (remove_routes server_id g.tool_registry)
          (λ r (p, other). ground (
            arith,
            lookup-erase server_id r.server_id g.servers,
            eq_iff server_id r.server_id,
            eq_iff r.server_id server_id,
          ))
          (AllRoutes-remove_routes (Leads g) server_id g.tool_registry h))
]

Same-Wired : (g g' : Gateway) → Same g g' → Wired g → Wired g'
Same-Wired g g' same h = rw (same.tool_registry, same.servers) h

launch-Wired :
    (w : World) (c : ToolCall) {b : Gateway × Begun}
    → Begins w.gateway c b
    → Wired w.gateway
    → Wired (launch w.in_flight b).gateway
unfolding set_active
launch-Wired w c (runs s m) h = h
launch-Wired w c (refuses g' s d never same log) h = Same-Wired w.gateway g' same h

pub Step-Wired : {w v : World} → Step w v → Wired w.gateway → Wired v.gateway
unfolding finish release set_active record_audit
Step-Wired (starts w c) h = launch-Wired w c (begin-Begins w.gateway c) h
Step-Wired (ends g xs ys i answer now) h = h
Step-Wired (registers w server_id client tools) h =
    store_server-Wired w.gateway server_id client tools h
Step-Wired (unregisters w server_id) h = unregister_server-Wired w.gateway server_id h
Step-Wired (governs w l) h = h

pub new_gateway-Wired : (config : Config) (g : Gateway) → new_gateway config ≡ ok g → Wired g
unfolding new_gateway gateway_of
new_gateway-Wired config g e = subst Wired (ap (λ r. gateway_of r g) e) tt
