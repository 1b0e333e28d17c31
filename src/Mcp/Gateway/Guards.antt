-- ===== src/Mcp/Gateway/Guards.antt =====
-- Which calls the gateway lets through, and what it writes about them.
use kalen.Prelude.{
  ℕ, ◌+◌, ◌-◌, ◌<◌, String, ◌≡◌, refl, ap, inl, inr, true, false, not, ◌&&◌, none, some, [], ◌∷◌,
  ◌++◌, any, arith, Bool-cases, Option-cases, ◌==◌, eq_iff, eq_refl, leb, if◌then◌else◌,
}
use kalen.Prelude.Numbers.{ℤ, pos}
use kalen.Prelude.Dict.{lookup, lookup-insert}
use kalen.Shared.Tool.{McpTool}
use kalen.Identity.Access.{check_permission}
use kalen.Mcp.AllowList.{is_allowed}
use kalen.Mcp.Server.{list_tools}
use kalen.Mcp.Invocation.{Denial, denied, Invocation, entry_of}
use kalen.Mcp.Gateway.{
  RegisteredServer, Route, Gateway, ToolCall, invocation_of, record_audit, active_count, set_active,
  release, Begun, returned, running, deny, deny_and_release, dispatch, begin,
}

-- Which server has a tool: the local one, or else the one that the registry names, if it is
-- registered.
pub data Serves (g : Gateway) (tool_name : String) : String → Type 0 where
  here :
      any (λ (t : McpTool). t.name == tool_name) (list_tools g.local_server) ≡ true
      → Serves g tool_name "local"
  there :
      (route : Route) (server : RegisteredServer)
      → any (λ (t : McpTool). t.name == tool_name) (list_tools g.local_server) ≡ false
      → lookup tool_name g.tool_registry ≡ some route
      → lookup route.server_id g.servers ≡ some server
      → Serves g tool_name route.server_id

-- What a call needs to run on a server.
pub record MayRun (g : Gateway) (c : ToolCall) (server_id : String) : Type 0 where
  pub few : active_count g c.caller_id < g.config.max_concurrent_calls
  pub permitted :
      g.config.rbac_enabled && not (check_permission c.role c.required_permission) ≡ false
  pub listed : is_allowed g.allow_list c.caller_id c.tool_name ≡ true
  pub served : Serves g c.tool_name server_id

-- The gateways differ at most in the audit log and in how the counters are stored.
pub record Same (g g' : Gateway) : Type 0 where
  pub config : g'.config ≡ g.config
  pub servers : g'.servers ≡ g.servers
  pub tool_registry : g'.tool_registry ≡ g.tool_registry
  pub local_server : g'.local_server ≡ g.local_server
  pub allow_list : g'.allow_list ≡ g.allow_list
  pub counts : (a : String) → active_count g' a ≡ active_count g a

abbrev pub refusal : ToolCall → String → Denial → Invocation
refusal c server_id d = record (invocation_of c) {
  server_id = server_id;
  access_decision = denied d;
}

-- The two ways in which a call begins.
pub data Begins (g : Gateway) (c : ToolCall) : Gateway × Begun → Type 0 where
  runs :
      (server_id : String)
      → MayRun g c server_id
      → Begins g c (
        set_active g c.caller_id (active_count g c.caller_id + 1),
        running (record (invocation_of c) { server_id = server_id }),
      )
  refuses :
      (g' : Gateway) (server_id : String) (d : Denial)
      → ((s : String) → ¬ MayRun g c s)
      → Same g g'
      → g'.audit_log ≡ g.audit_log ++ entry_of (refusal c server_id d) (pos 0) ∷ []
      → Begins g c (g', returned (refusal c server_id d))

Same-record_audit : (g : Gateway) (i : Invocation) (d : ℤ) → Same g (record_audit g i d)
unfolding record_audit active_count
Same-record_audit g i d = record {
  config = refl;
  servers = refl;
  tool_registry = refl;
  local_server = refl;
  allow_list = refl;
  counts = λ a. refl;
}

pub active_count-set_active :
    (g : Gateway) (a b : String) (n : ℕ)
    → active_count (set_active g a n) b ≡ (if a == b then n else active_count g b)
unfolding active_count set_active
active_count-set_active g a b n = elim (Bool-cases (a == b)) [
  | inl e ↦ rw (lookup-insert a b n g.active_calls, e) refl
  | inr e ↦ rw (lookup-insert a b n g.active_calls, e) refl
]

pub active_count-release :
    (g : Gateway) (a b : String)
    → active_count (release g a) b ≡ (if a == b then active_count g a - 1 else active_count g b)
unfolding release
active_count-release g a b = active_count-set_active g a b (active_count g a - 1)

-- a place that is taken and given back
pub active_count-undo :
    (g : Gateway) (a b : String) (i : Invocation) (d : ℤ)
    → active_count (release (record_audit (set_active g a (active_count g a + 1)) i d) a) b
      ≡ active_count g b
unfolding release record_audit
active_count-undo g a b i d = grind (
  arith,
  eq_iff a b,
  eq_refl a,
  active_count-release (record_audit (set_active g a (active_count g a + 1)) i d) a b,
  active_count-set_active g a a (active_count g a + 1),
  active_count-set_active g a b (active_count g a + 1),
)

Same-denied :
    (g : Gateway) (a : String) (i : Invocation)
    → Same g (release (record_audit (set_active g a (active_count g a + 1)) i (pos 0)) a)
unfolding release record_audit set_active
Same-denied g a i = record {
  config = refl;
  servers = refl;
  tool_registry = refl;
  local_server = refl;
  allow_list = refl;
  counts = λ b. active_count-undo g a b i (pos 0);
}

unrouted :
    (g : Gateway) (n s : String)
    → any (λ (t : McpTool). t.name == n) (list_tools g.local_server) ≡ false
    → lookup n g.tool_registry ≡ none
    → ¬ Serves g n s
unrouted g n s h e (here h') = cc (h, h')
unrouted g n s h e (there route server h' e' _) = cc (e, e')

unserved :
    (g : Gateway) (n s : String) (r : Route)
    → any (λ (t : McpTool). t.name == n) (list_tools g.local_server) ≡ false
    → lookup n g.tool_registry ≡ some r
    → lookup r.server_id g.servers ≡ none
    → ¬ Serves g n s
unserved g n s r h e e' (here h') = cc (h, h')
unserved g n s r h e e' (there route server _ found at) =
    let same : r ≡ route = ground arith in
    cc (ap (λ (x : Route). lookup x.server_id g.servers) same, e', at)

module _ (g : Gateway) (c : ToolCall) where
  counted : Gateway
  counted = set_active g c.caller_id (active_count g c.caller_id + 1)

  denies : (d : Denial) → ((s : String) → ¬ MayRun g c s) → Begins g c (deny g (invocation_of c) d)
  unfolding deny record_audit
  denies d never =
      refuses _ "unknown" d never (Same-record_audit g (refusal c "unknown" d) (pos 0)) refl

  denies_at :
      (server_id : String) (d : Denial)
      → ((s : String) → ¬ MayRun g c s)
      → Begins g c (deny_and_release counted (record (invocation_of c) { server_id = server_id }) d)
  unfolding counted set_active deny_and_release deny record_audit release
  denies_at server_id d never =
      refuses _ server_id d never (Same-denied g c.caller_id (refusal c server_id d)) refl

  dispatch-Begins :
      ((s : String) → Serves g c.tool_name s → MayRun g c s)
      → Begins g c (dispatch counted (invocation_of c))
  unfolding dispatch counted set_active
  dispatch-Begins may =
      let has_tool = any (λ (t : McpTool). t.name == c.tool_name) (list_tools g.local_server) in
      elim (Bool-cases has_tool) [
        | inl h ↦ rw h (runs "local" (may "local" (here h)))
        | inr h ↦ rw h (elim (Option-cases (lookup c.tool_name g.tool_registry)) [
          | inl e ↦ rw e (denies_at "unknown" _ (λ s m. unrouted g c.tool_name s h e m.served))
          | inr (route, e) ↦ rw e (elim (Option-cases (lookup route.server_id g.servers)) [
            | inl e' ↦ rw e' (
                denies_at route.server_id _ (λ s m. unserved g c.tool_name s route h e e' m.served))
            | inr (server, e') ↦
                rw e' (runs route.server_id (may route.server_id (there route server h e e')))
          ])
        ])
      ]

-- Every call of a tool begins in one of two ways: it takes one more place of its caller's and
-- runs, on a server that it may run on (the caller below the limit, the role permitted unless
-- RBAC is off, the tool in the allowlist, and a server that has it); or no server may run it, and
-- it is denied, with one entry for it in the audit log, the counters as they were and the rest of
-- the gateway as it was.
pub begin-Begins : (g : Gateway) (c : ToolCall) → Begins g c (begin g c)
unfolding begin counted
begin-Begins g c =
    let i = invocation_of c in
    let forbidden = g.config.rbac_enabled && not (check_permission c.role c.required_permission) in
    elim (Bool-cases (leb g.config.max_concurrent_calls (active_count g c.caller_id))) [
      | inl h ↦ rw h (denies g c _ (λ s m. ground arith))
      | inr few ↦ rw few (elim (Bool-cases forbidden) [
        | inl h ↦ rw h (denies g c _ (λ s m. cc (h, m.permitted)))
        | inr permitted ↦
            rw permitted (elim (Bool-cases (is_allowed g.allow_list c.caller_id c.tool_name)) [
              | inr h ↦ rw h (denies g c _ (λ s m. cc (h, m.listed)))
              | inl listed ↦ rw listed (
                  dispatch-Begins g c (λ s v. record {
                    few = ground arith;
                    permitted = permitted;
                    listed = listed;
                    served = v;
                  }))
            ])
      ])
    ]
