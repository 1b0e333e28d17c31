-- ===== src/Identity/Roles.antt =====
-- packages/identity/src/rbac/roles.ts: the roles, the permissions, and who has which.
use kalen.Prelude.{String, Bool, true, false, List, [], ◌∷◌, ◌==◌, if◌then◌else◌}

pub data Role : Type 0 where
  human_user agent_basic agent_privileged admin super_admin : Role

pub data Permission : Type 0 where
  message_send message_read message_edit_own message_delete_own message_delete_any : Permission
  message_react room_create room_read room_update room_delete room_invite room_kick : Permission
  room_manage_members agent_create agent_read agent_update_own agent_update_any : Permission
  agent_deactivate_own agent_deactivate_any agent_scope_manage mcp_tool_call : Permission
  mcp_tool_list mcp_resource_read mcp_server_register mcp_server_manage : Permission
  a2a_task_create a2a_task_read a2a_task_cancel_own a2a_task_cancel_any : Permission
  a2a_agent_discover a2a_agent_register identity_read identity_update_own : Permission
  identity_key_rotate call_create call_join call_manage file_upload file_read : Permission
  file_delete_own file_delete_any admin_dashboard admin_audit_read admin_user_manage : Permission
  admin_system_config : Permission

-- The value of an enumeration's member is a string, and `===` compares these.
unfoldable pub permission_value : Permission → String
permission_value message_send = "message:send"
permission_value message_read = "message:read"
permission_value message_edit_own = "message:edit_own"
permission_value message_delete_own = "message:delete_own"
permission_value message_delete_any = "message:delete_any"
permission_value message_react = "message:react"
permission_value room_create = "room:create"
permission_value room_read = "room:read"
permission_value room_update = "room:update"
permission_value room_delete = "room:delete"
permission_value room_invite = "room:invite"
permission_value room_kick = "room:kick"
permission_value room_manage_members = "room:manage_members"
permission_value agent_create = "agent:create"
permission_value agent_read = "agent:read"
permission_value agent_update_own = "agent:update_own"
permission_value agent_update_any = "agent:update_any"
permission_value agent_deactivate_own = "agent:deactivate_own"
permission_value agent_deactivate_any = "agent:deactivate_any"
permission_value agent_scope_manage = "agent:scope_manage"
permission_value mcp_tool_call = "mcp:tool_call"
permission_value mcp_tool_list = "mcp:tool_list"
permission_value mcp_resource_read = "mcp:resource_read"
permission_value mcp_server_register = "mcp:server_register"
permission_value mcp_server_manage = "mcp:server_manage"
permission_value a2a_task_create = "a2a:task_create"
permission_value a2a_task_read = "a2a:task_read"
permission_value a2a_task_cancel_own = "a2a:task_cancel_own"
permission_value a2a_task_cancel_any = "a2a:task_cancel_any"
permission_value a2a_agent_discover = "a2a:agent_discover"
permission_value a2a_agent_register = "a2a:agent_register"
permission_value identity_read = "identity:read"
permission_value identity_update_own = "identity:update_own"
permission_value identity_key_rotate = "identity:key_rotate"
permission_value call_create = "call:create"
permission_value call_join = "call:join"
permission_value call_manage = "call:manage"
permission_value file_upload = "file:upload"
permission_value file_read = "file:read"
permission_value file_delete_own = "file:delete_own"
permission_value file_delete_any = "file:delete_any"
permission_value admin_dashboard = "admin:dashboard"
permission_value admin_audit_read = "admin:audit_read"
permission_value admin_user_manage = "admin:user_manage"
permission_value admin_system_config = "admin:system_config"

-- `Object.values(Permission)`
abbrev pub all_permissions : List Permission
all_permissions =
    message_send ∷ message_read ∷ message_edit_own ∷ message_delete_own ∷ message_delete_any
    ∷ message_react ∷ room_create ∷ room_read ∷ room_update ∷ room_delete ∷ room_invite ∷ room_kick
    ∷ room_manage_members ∷ agent_create ∷ agent_read ∷ agent_update_own ∷ agent_update_any
    ∷ agent_deactivate_own ∷ agent_deactivate_any ∷ agent_scope_manage ∷ mcp_tool_call
    ∷ mcp_tool_list ∷ mcp_resource_read ∷ mcp_server_register ∷ mcp_server_manage ∷ a2a_task_create
    ∷ a2a_task_read ∷ a2a_task_cancel_own ∷ a2a_task_cancel_any ∷ a2a_agent_discover
    ∷ a2a_agent_register ∷ identity_read ∷ identity_update_own ∷ identity_key_rotate ∷ call_create
    ∷ call_join ∷ call_manage ∷ file_upload ∷ file_read ∷ file_delete_own ∷ file_delete_any
    ∷ admin_dashboard ∷ admin_audit_read ∷ admin_user_manage ∷ admin_system_config ∷ []

-- `rolePermissions`; every role has an entry
unfoldable pub role_permissions : Role → List Permission
role_permissions human_user =
    message_send ∷ message_read ∷ message_edit_own ∷ message_delete_own ∷ message_react
    ∷ room_create ∷ room_read ∷ room_update ∷ room_invite ∷ agent_create ∷ agent_read
    ∷ agent_update_own ∷ agent_deactivate_own ∷ mcp_tool_list ∷ a2a_task_create ∷ a2a_task_read
    ∷ a2a_task_cancel_own ∷ a2a_agent_discover ∷ identity_read ∷ identity_update_own
    ∷ identity_key_rotate ∷ call_create ∷ call_join ∷ file_upload ∷ file_read ∷ file_delete_own ∷ []
role_permissions agent_basic =
    message_send ∷ message_read ∷ message_edit_own ∷ message_delete_own ∷ message_react ∷ room_read
    ∷ mcp_tool_call ∷ mcp_tool_list ∷ mcp_resource_read ∷ a2a_task_create ∷ a2a_task_read
    ∷ a2a_task_cancel_own ∷ identity_read ∷ file_read ∷ []
role_permissions agent_privileged =
    message_send ∷ message_read ∷ message_edit_own ∷ message_delete_own ∷ message_react
    ∷ room_create ∷ room_read ∷ room_update ∷ room_invite ∷ mcp_tool_call ∷ mcp_tool_list
    ∷ mcp_resource_read ∷ a2a_task_create ∷ a2a_task_read ∷ a2a_task_cancel_own ∷ a2a_agent_discover
    ∷ identity_read ∷ call_join ∷ file_read ∷ file_upload ∷ []
role_permissions admin =
    message_send ∷ message_read ∷ message_edit_own ∷ message_delete_own ∷ message_delete_any
    ∷ message_react ∷ room_create ∷ room_read ∷ room_update ∷ room_delete ∷ room_invite ∷ room_kick
    ∷ room_manage_members ∷ agent_create ∷ agent_read ∷ agent_update_own ∷ agent_update_any
    ∷ agent_deactivate_own ∷ agent_deactivate_any ∷ agent_scope_manage ∷ mcp_tool_call
    ∷ mcp_tool_list ∷ mcp_resource_read ∷ mcp_server_register ∷ a2a_task_create ∷ a2a_task_read
    ∷ a2a_task_cancel_own ∷ a2a_task_cancel_any ∷ a2a_agent_discover ∷ a2a_agent_register
    ∷ identity_read ∷ identity_update_own ∷ identity_key_rotate ∷ call_create ∷ call_join
    ∷ call_manage ∷ file_upload ∷ file_read ∷ file_delete_own ∷ admin_dashboard ∷ admin_audit_read
    ∷ admin_user_manage ∷ []
role_permissions super_admin = all_permissions

-- `set.has(p)` of a set of permissions
unfoldable pub has_permission : List Permission → Permission → Bool
unfolding permission_value
has_permission [] p = false
has_permission (q ∷ qs) p =
    if permission_value q == permission_value p then true else has_permission qs p
