-- ===== src/Server/Tasks/Tests.antt =====
-- The requests on small inputs, and the theorems applied to them.
use kalen.Prelude.{◌+◌, ◌≡◌, refl, Bool, true, none, some, List, [], ◌∷◌, arith, is_some, err}
use kalen.Prelude.Dict.{lookup, insert}
use kalen.A2a.Cards.{no_cards}
use kalen.A2a.Router.{
  new_router, default_config, new_task, task_count, create_task, cancel_task, get_task,
}
use kalen.Server.Tasks.{
  TaskRow, Service, tasks_send, tasks_get, tasks_cancel, other_method, minus, has_columns,
  read_message, no_message, send_task, withdraw_task, find_task, handle_rpc, mark_canceled,
  not_found,
}
use kalen.Server.Tasks.Refused.{send_is_refused}
use kalen.Server.Tasks.Restart.{Served, serve_all, restarted, restart_loses_tasks}

abbrev empty : Service
empty = record { router = new_router no_cards default_config; rows = [] }

abbrev accepts : TaskRow → Bool
accepts row = true

abbrev requests : List Served
requests = (tasks_send "bob" none none none, "t1", 1) ∷ (tasks_cancel "t1" none none, "t2", 2) ∷ []

-- The router has the task after the requests, and the service that starts anew does not.
served_tests :
    (is_some (get_task (serve_all empty requests).router "t1") ≡ true)
    × (find_task (restarted no_cards default_config (serve_all empty requests)) "t1"
        ≡ err not_found)
unfolding serve_all handle_rpc send_task withdraw_task create_task cancel_task get_task find_task
    has_columns mark_canceled lookup insert
served_tests = (refl, refl)

restart_loses_tasks_example :
    find_task (restarted no_cards default_config (serve_all empty requests)) "t1" ≡ err not_found
restart_loses_tasks_example = restart_loses_tasks empty requests no_cards default_config "t1" refl

bob_idle : task_count empty.router "bob" ≡ 0
unfolding task_count lookup
bob_idle = refl

send_is_refused_example :
    let (s', a) = handle_rpc has_columns empty (tasks_send "bob" none none none) "t1" 1 in
    (a ≡ minus 32603)
    × (s'.rows ≡ [])
    × (get_task s'.router "t1" ≡ some (new_task "t1" "bob" "system" (read_message no_message 1) 1))
    × (task_count s'.router "bob" ≡ task_count empty.router "bob" + 1)
send_is_refused_example =
    send_is_refused empty "bob" none none none "t1" 1 (omega (arith, bob_idle))

rpc_tests :
    (handle_rpc accepts empty (other_method "x") "t1" 1 ≡ (empty, minus 32601))
    × (handle_rpc accepts empty (tasks_get "t9") "t1" 1 ≡ (empty, minus 32003))
    × (handle_rpc accepts empty (tasks_cancel "t9" none none) "t1" 1 ≡ (empty, minus 32603))
unfolding handle_rpc find_task get_task withdraw_task cancel_task
rpc_tests = (refl, refl, refl)
