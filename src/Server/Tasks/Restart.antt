-- ===== src/Server/Tasks/Restart.antt =====
-- The table of tasks on the columns of the entity, over any requests, and a service that starts anew.
use kalen.Prelude.{ℕ, String, ◌≡◌, refl, ◌∙◌, Option, List, [], ◌∷◌, get_or, Result, ok, err}
use kalen.Prelude.Dict.{lookup}
use kalen.Shared.Task.{A2aTask}
use kalen.A2a.Cards.{CardService}
use kalen.A2a.Router.{Router, RouterError, Config, new_router, get_task, create_task, cancel_task}
use kalen.Server.Tasks.{
  TaskError, Service, has_columns, save_task, send_task, mark_canceled, save_canceled,
  withdraw_task, find_task, not_found, Rpc, tasks_send, tasks_get, tasks_cancel, tasks_list,
  other_method, answer_task, handle_rpc, read_message, no_message,
}

-- a request, with the id that a new task would get and the time
abbrev pub Served : Type 0
Served = Rpc × String × ℕ

-- the service after requests, on the columns of the entity
unfoldable pub serve_all : Service → List Served → Service
serve_all s [] = s
serve_all s ((q, new_id, now) ∷ qs) = serve_all (handle_rpc has_columns s q new_id now).0 qs

save_task-rows :
    (s : Service) (by kind : String) (a : Result RouterError A2aTask × Router)
    → (save_task has_columns s by kind a).0.rows ≡ s.rows
unfolding has_columns
save_task-rows s by kind (err e, r) = refl
save_task-rows s by kind (ok t, r) = refl

save_canceled-rows :
    (s : Service) (id by : String) (reason : Option String)
    (a : Result RouterError A2aTask × Router)
    → s.rows ≡ []
    → (save_canceled s id by reason a).0.rows ≡ []
unfolding mark_canceled lookup
save_canceled-rows s id by reason (err e, r) empty = empty
save_canceled-rows s id by reason (ok t, r) empty = rw empty refl

answer_task-rows :
    (a : Service × Result TaskError A2aTask) → a.0.rows ≡ [] → (answer_task a).0.rows ≡ []
answer_task-rows (s, ok t) h = h
answer_task-rows (s, err e) h = h

handle_rpc-rows :
    (s : Service) (q : Rpc) (new_id : String) (now : ℕ)
    → s.rows ≡ []
    → (handle_rpc has_columns s q new_id now).0.rows ≡ []
unfolding handle_rpc send_task withdraw_task
handle_rpc-rows s (tasks_send agent_id by kind m) new_id now empty =
    answer_task-rows
      (send_task has_columns s agent_id (get_or by "system") (get_or kind "agent")
        (get_or m no_message) new_id now)
      (save_task-rows s (get_or by "system") (get_or kind "agent") (
          create_task s.router agent_id (get_or by "system")
            (read_message (get_or m no_message) now) new_id now)
        ∙ empty)
handle_rpc-rows s (tasks_get id) new_id now empty = empty
handle_rpc-rows s (tasks_cancel id by reason) new_id now empty =
    answer_task-rows (withdraw_task s id (get_or by "system") reason now) (
      save_canceled-rows s id (get_or by "system") reason
        (cancel_task s.router id (get_or by "system") reason now) empty)
handle_rpc-rows s (tasks_list a b) new_id now empty = empty
handle_rpc-rows s (other_method name) new_id now empty = empty

serve_all-rows : (s : Service) (qs : List Served) → s.rows ≡ [] → (serve_all s qs).rows ≡ []
unfolding serve_all
serve_all-rows s [] empty = empty
serve_all-rows s ((q, new_id, now) ∷ qs) empty =
    serve_all-rows (handle_rpc has_columns s q new_id now).0 qs
      (handle_rpc-rows s q new_id now empty)

-- a service that starts on the rows of another
abbrev pub restarted : CardService → Config → Service → Service
restarted cards config s = record { router = new_router cards config; rows = s.rows }

find_task-empty :
    (cards : CardService) (config : Config) (s : Service) (id : String)
    → s.rows ≡ []
    → find_task (restarted cards config s) id ≡ err not_found
unfolding find_task get_task lookup
find_task-empty cards config s id empty = rw empty refl

-- On the columns of the entity: whatever requests a service has had whose table was empty, one
-- that starts anew on its table finds no task, under any id.
pub restart_loses_tasks :
    (s : Service) (qs : List Served) (cards : CardService) (config : Config) (id : String)
    → s.rows ≡ []
    → find_task (restarted cards config (serve_all s qs)) id ≡ err not_found
restart_loses_tasks s qs cards config id empty =
    find_task-empty cards config (serve_all s qs) id (serve_all-rows s qs empty)
