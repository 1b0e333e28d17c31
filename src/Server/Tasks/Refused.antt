-- ===== src/Server/Tasks/Refused.antt =====
-- What the columns of the table make of a new task.
use kalen.Prelude.{
  ℕ, ◌+◌, ◌<◌, String, ◌≡◌, refl, false, Option, some, arith, leb, eq_refl, get_or, ok,
}
use kalen.Prelude.Dict.{lookup, insert, lookup-insert}
use kalen.Shared.Task.{Message}
use kalen.A2a.Cards.{get_card_by_url}
use kalen.A2a.Router.{Router, StoredTask, new_task, task_count, create_task, get_task}
use kalen.Server.Tasks.{
  Service, Incoming, has_columns, read_message, send_task, no_message, tasks_send, minus,
  handle_rpc,
}

-- the router with a new task
abbrev pub router_with :
    Router → (agent_id created_by : String) → Message → (new_id : String) → ℕ → Router
router_with r agent_id created_by m new_id now = record r {
  tasks =
      insert new_id
        (record {
          task = new_task new_id agent_id created_by m now;
          assigned_card = get_card_by_url r.card_service agent_id;
        })
        r.tasks;
  agent_task_counts = insert agent_id (task_count r agent_id + 1) r.agent_task_counts;
}

pub create_task-room :
    (r : Router) (agent_id created_by : String) (m : Message) (new_id : String) (now : ℕ)
    → task_count r agent_id < r.config.max_tasks_per_agent
    → create_task r agent_id created_by m new_id now ≡ (
      ok (new_task new_id agent_id created_by m now),
      router_with r agent_id created_by m new_id now,
    )
unfolding create_task
create_task-room r agent_id created_by m new_id now room =
    let below : leb r.config.max_tasks_per_agent (task_count r agent_id) ≡ false = ground arith in
    rw (below, create_task) refl

get_task-room :
    (r : Router) (agent_id created_by : String) (m : Message) (new_id : String) (now : ℕ)
    → get_task (router_with r agent_id created_by m new_id now) new_id
      ≡ some (new_task new_id agent_id created_by m now)
unfolding get_task
get_task-room r agent_id created_by m new_id now =
    let s : StoredTask = record {
      task = new_task new_id agent_id created_by m now;
      assigned_card = get_card_by_url r.card_service agent_id;
    } in
    let e : lookup new_id (insert new_id s r.tasks) ≡ some s =
      ground (arith, eq_refl new_id, lookup-insert new_id new_id s r.tasks) in
    rw (e, get_task) refl

task_count-room :
    (r : Router) (agent_id created_by : String) (m : Message) (new_id : String) (now : ℕ)
    → task_count (router_with r agent_id created_by m new_id now) agent_id
      ≡ task_count r agent_id + 1
unfolding task_count
task_count-room r agent_id created_by m new_id now = ground (
  arith,
  eq_refl agent_id,
  lookup-insert agent_id agent_id (task_count r agent_id + 1) r.agent_task_counts,
)

-- On the columns of the entity, a `tasks/send` for an agent below its limit is answered with an
-- internal error and adds no row; the router keeps the new task all the same and counts it.
pub send_is_refused :
    (s : Service) (agent_id : String) (created_by creator_kind : Option String)
    (message : Option Incoming) (new_id : String) (now : ℕ)
    → task_count s.router agent_id < s.router.config.max_tasks_per_agent
    → let (s', a) =
        handle_rpc has_columns s (tasks_send agent_id created_by creator_kind message) new_id now in
      (a ≡ minus 32603)
      × (s'.rows ≡ s.rows)
      × (get_task s'.router new_id
          ≡ some (
              new_task new_id agent_id
                (get_or created_by "system")
                (read_message (get_or message no_message) now)
                now))
      × (task_count s'.router agent_id ≡ task_count s.router agent_id + 1)
unfolding handle_rpc send_task has_columns
send_is_refused s agent_id created_by creator_kind message new_id now room =
    let by : String = get_or created_by "system" in
    let m : Message = read_message (get_or message no_message) now in
    let e =
      create_task-room s.router agent_id (get_or created_by "system")
        (read_message (get_or message no_message) now) new_id now room in
    rw (e, handle_rpc)
      (
        refl,
        refl,
        get_task-room s.router agent_id by m new_id now,
        task_count-room s.router agent_id by m new_id now,
      )
