-- ===== src/Identity/Tests.antt =====
-- The checks on small inputs, and the theorems applied to them.
use kalen.Prelude.{◌≡◌, refl, true, false, [], ◌∷◌}
use kalen.Identity.Roles.{human_user, agent_basic, message_send, mcp_tool_call, room_create}
use kalen.Identity.Access.{
  check_permission, AgentScope, room, tool, check_scope, allowed, lacks_permission, out_of_scope,
  evaluate_access,
}

abbrev one_room : AgentScope
one_room = record { agent_id = "x"; rooms = "r1" ∷ []; tools = []; humans = []; restricted = true }

evaluate_access_tests :
    (evaluate_access agent_basic message_send one_room (room "r1") ≡ allowed)
    × (evaluate_access agent_basic message_send one_room (room "r2") ≡ out_of_scope (room "r2"))
    × (evaluate_access agent_basic room_create one_room (room "r1")
        ≡ lacks_permission agent_basic room_create)
    × (evaluate_access agent_basic mcp_tool_call one_room (tool "t") ≡ allowed)
    × (check_permission human_user mcp_tool_call ≡ false)
unfolding evaluate_access check_permission check_scope
evaluate_access_tests = (refl, refl, refl, refl, refl)
