-- ===== src/Mcp/Gateway/Calls.antt =====
-- Calls that run at the same time: the gateway with the invocations whose tools are running.
use kalen.Prelude.{
  ℕ, ◌+◌, ◌≤◌, String, ◌≡◌, refl, ap, subst, ◌∙◌, inl, inr, List, [], ◌∷◌, ◌++◌, to_ℕ, Result, ok,
  err, arith, Option-cases, ◌==◌, eq_iff,
}
use kalen.Prelude.Dict.{lookup}
use kalen.Shared.Tool.{McpTool, CallResult}
use kalen.Mcp.AllowList.{AllowList}
use kalen.Mcp.Server.{Thrown}
use kalen.Mcp.Client.{Client}
use kalen.Mcp.Gateway.{
  Config, Gateway, ToolCall, new_gateway, record_audit, active_count, release, set_active, Begun,
  returned, running, begin, finish,
}
use kalen.Mcp.Invocation.{Invocation}
use kalen.Mcp.Gateway.Servers.{store_server, unregister_server}
use kalen.Mcp.Gateway.Guards.{
  Begins, runs, refuses, begin-Begins, active_count-set_active, active_count-release,
}

pub record World : Type 0 where
  pub gateway : Gateway
  pub in_flight : List Invocation

-- the world after `begin`
abbrev pub launch : List Invocation → Gateway × Begun → World
launch is (g, returned i) = record { gateway = g; in_flight = is }
launch is (g, running i) = record { gateway = g; in_flight = i ∷ is }

-- What may happen next. A registration is its last part, after the client's answers, and need not
-- have passed the test for the name in this world.
pub data Step : World → World → Type 0 where
  starts : (w : World) (c : ToolCall) → Step w (launch w.in_flight (begin w.gateway c))
  ends :
      (g : Gateway) (before after : List Invocation) (i : Invocation)
      (answer : Result Thrown CallResult) (now : ℕ)
      → Step
          (record { gateway = g; in_flight = before ++ i ∷ after })
          (record { gateway = (finish g i answer now).0; in_flight = before ++ after })
  registers :
      (w : World) (server_id : String) (client : Client) (tools : List McpTool)
      → Step w (record w { gateway = store_server w.gateway server_id client tools })
  unregisters :
      (w : World) (server_id : String)
      → Step w (record w { gateway = unregister_server w.gateway server_id })
  governs :
      (w : World) (l : AllowList)
      → Step w (record w { gateway = record w.gateway { allow_list = l } })

pub data Steps (w : World) : World → Type 0 where
  start : Steps w w
  and_then : {v v' : World} → Steps w v → Step v v' → Steps w v'

-- the number of calls that the steps begin
unfoldable pub calls_begun : {w v : World} → Steps w v → ℕ
calls_begun start = 0
calls_begun (and_then ss (starts w c)) = calls_begun ss + 1
calls_begun (and_then ss (ends _ _ _ _ _ _)) = calls_begun ss
calls_begun (and_then ss (registers _ _ _ _)) = calls_begun ss
calls_begun (and_then ss (unregisters _ _)) = calls_begun ss
calls_begun (and_then ss (governs _ _)) = calls_begun ss

-- how many of the running calls are a caller's
unfoldable pub running_of : String → List Invocation → ℕ
running_of a [] = 0
running_of a (i ∷ is) = to_ℕ (i.caller_id == a) + running_of a is

running_of-remove :
    (a : String) (xs ys : List Invocation) (i : Invocation)
    → running_of a (xs ++ i ∷ ys) ≡ running_of a (xs ++ ys) + to_ℕ (i.caller_id == a)
unfolding running_of
running_of-remove a [] ys i = omega arith
running_of-remove a (x ∷ xs) ys i = omega (arith, running_of-remove a xs ys i)

-- the counters are exact and within the limit
pub record Counted (max : ℕ) (w : World) : Type 0 where
  pub limit : w.gateway.config.max_concurrent_calls ≡ max
  pub exact : (a : String) → active_count w.gateway a ≡ running_of a w.in_flight
  pub within : (a : String) → active_count w.gateway a ≤ max

launch-Counted :
    (max : ℕ) (w : World) (c : ToolCall) {b : Gateway × Begun}
    → Begins w.gateway c b
    → Counted max w
    → Counted max (launch w.in_flight b)
unfolding running_of set_active
launch-Counted max w c (runs s m) h = record {
  limit = h.limit;
  exact = λ a. grind (
    arith,
    eq_iff c.caller_id a,
    h.exact a,
    active_count-set_active w.gateway c.caller_id a (active_count w.gateway c.caller_id + 1),
  );
  within = λ a. grind (
    arith,
    eq_iff c.caller_id a,
    h.within a,
    m.few,
    h.limit,
    active_count-set_active w.gateway c.caller_id a (active_count w.gateway c.caller_id + 1),
  );
}
launch-Counted max w c (refuses g' s d never same log) h = record {
  limit = ap (λ (x : Config). x.max_concurrent_calls) same.config ∙ h.limit;
  exact = λ a. same.counts a ∙ h.exact a;
  within = λ a. omega (arith, same.counts a, h.within a);
}

finish-Counted :
    (max : ℕ) (g : Gateway) (xs ys : List Invocation) (i : Invocation)
    (answer : Result Thrown CallResult) (now : ℕ)
    → Counted max (record { gateway = g; in_flight = xs ++ i ∷ ys })
    → Counted max (record { gateway = (finish g i answer now).0; in_flight = xs ++ ys })
unfolding finish release set_active record_audit
finish-Counted max g xs ys i answer now h = record {
  limit = h.limit;
  exact = λ a. grind (
    arith,
    eq_iff i.caller_id a,
    h.exact a,
    running_of-remove a xs ys i,
    active_count-release g i.caller_id a,
  );
  within =
      λ a. grind (arith, eq_iff i.caller_id a, h.within a, active_count-release g i.caller_id a);
}

Step-Counted : (max : ℕ) {w v : World} → Step w v → Counted max w → Counted max v
unfolding store_server unregister_server active_count
Step-Counted max (starts w c) h = launch-Counted max w c (begin-Begins w.gateway c) h
Step-Counted max (ends g xs ys i answer now) h = finish-Counted max g xs ys i answer now h
Step-Counted max (registers w server_id client tools) h = record {
  limit = h.limit;
  exact = h.exact;
  within = h.within;
}
Step-Counted max (unregisters w server_id) h =
    elim (Option-cases (lookup server_id w.gateway.servers)) [
      | inl e ↦
          rw (e, unregister_server) (record { limit = h.limit; exact = h.exact; within = h.within })
      | inr (s, e) ↦
          rw (e, unregister_server) (record { limit = h.limit; exact = h.exact; within = h.within })
    ]
Step-Counted max (governs w l) h = record { limit = h.limit; exact = h.exact; within = h.within }

Steps-Counted : (max : ℕ) {w v : World} → Steps w v → Counted max w → Counted max v
Steps-Counted max start h = h
Steps-Counted max (and_then ss s) h = Step-Counted max s (Steps-Counted max ss h)

-- a gateway at its start, with no call running
abbrev pub idle : Gateway → World
idle g = record { gateway = g; in_flight = [] }

unfoldable pub gateway_of : Result Thrown Gateway → Gateway → Gateway
gateway_of (ok g) d = g
gateway_of (err e) d = d

new_gateway-Counted :
    (config : Config) (g : Gateway)
    → new_gateway config ≡ ok g
    → Counted config.max_concurrent_calls (idle g)
unfolding new_gateway gateway_of running_of active_count
new_gateway-Counted config g e =
    subst (λ x. Counted config.max_concurrent_calls (idle x)) (ap (λ r. gateway_of r g) e)
      (record { limit = refl; exact = λ a. refl; within = λ a. omega arith })

-- Whatever a new gateway has been through, with calls, answers, registrations and changes of its
-- allowlist in any order: the counter of a caller is the number of the caller's calls whose tools
-- are running, and it is within the limit.
pub active_count_is_running :
    (config : Config) (g : Gateway) (w : World) (a : String)
    → new_gateway config ≡ ok g
    → Steps (idle g) w
    → (active_count w.gateway a ≡ running_of a w.in_flight)
      × (running_of a w.in_flight ≤ config.max_concurrent_calls)
active_count_is_running config g w a e ss =
    let h = Steps-Counted config.max_concurrent_calls ss (new_gateway-Counted config g e) in
    (h.exact a, omega (arith, h.exact a, h.within a))
