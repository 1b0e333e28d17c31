-- ===== src/A2a/Router/Repeats.antt =====
-- Calls that end a task a second time, of packages/a2a-router/src/router/a2a-router-service.ts.
use kalen.Prelude.{
  ℕ, ◌-◌, String, ◌≡◌, ◌∙◌, eq_refl, ◌≢◌, Option, some, arith, ok, eq_iff, ap, true,
}
use kalen.Prelude.Dict.{lookup, lookup-insert}
use kalen.Shared.Task.{A2aTask}
use kalen.A2a.Lifecycle.{is_terminal_status}
use kalen.A2a.Router.{
  Router, StoredTask, task_count, Answer, write_task, decrement_agent_task_count, get_task,
  transition_router_task,
}
use kalen.A2a.Lifecycle.Machine.{status_eq_refl}
use kalen.A2a.Router.Tasks.{tasks-decrement}
use kalen.A2a.Router.Counts.{task_count-decrement, task_count-write_task}

-- the state after the repeated call
repeated : Router → String → StoredTask → Router
repeated r id s = decrement_agent_task_count (write_task r id s s.task) s.task.assigned_agent_id

transition_again_lem :
    (r : Router) (id : String) (s : StoredTask) (m : Option String) (now : ℕ)
    → lookup id r.tasks ≡ some s
    → is_terminal_status s.task.status ≡ true
    → transition_router_task r id s.task.status m now ≡ (ok s.task, repeated r id s)
unfolding transition_router_task repeated
transition_again_lem r id s m now found ends = ground (arith, status_eq_refl s.task.status)

get_task-repeated :
    (r : Router) (id j : String) (s : StoredTask)
    → lookup id r.tasks ≡ some s
    → get_task (repeated r id s) j ≡ get_task r j
unfolding get_task repeated
get_task-repeated r id j s found =
    rw tasks-decrement (ground (arith, lookup-insert id j s r.tasks, eq_iff id j))

task_count-repeated :
    (r : Router) (id : String) (s : StoredTask) (agent : String)
    → s.task.assigned_agent_id ≡ some agent
    → agent ≢ ""
    → task_count (repeated r id s) agent ≡ task_count r agent - 1
unfolding repeated
task_count-repeated r id s agent assigned named = ground (
  arith,
  task_count-decrement (write_task r id s s.task) agent s.task.assigned_agent_id named,
  task_count-write_task r agent id s s.task,
  eq_refl agent,
)

-- Ending a task again, by a transition to the terminal status that it has: the call succeeds and
-- gives the task as it is, every id still gives the task that it gave, and the counter of the
-- task's agent, if it has a name, goes down by one, or stays at zero if that is what it was.
pub transition_again :
    (r : Router) (id : String) (s : StoredTask) (m : Option String) (now : ℕ) (agent : String)
    → lookup id r.tasks ≡ some s
    → is_terminal_status s.task.status ≡ true
    → s.task.assigned_agent_id ≡ some agent
    → agent ≢ ""
    → let (answer, r') = transition_router_task r id s.task.status m now in
      (answer ≡ ok s.task)
      × ((j : String) → get_task r' j ≡ get_task r j)
      × (task_count r' agent ≡ task_count r agent - 1)
transition_again r id s m now agent found ends assigned named =
    let e = transition_again_lem r id s m now found ends in
    (
      ap (λ (x : Answer A2aTask). x.0) e,
      λ j. ap (λ (x : Answer A2aTask). get_task x.1 j) e ∙ get_task-repeated r id j s found,
      ap (λ (x : Answer A2aTask). task_count x.1 agent) e
          ∙ task_count-repeated r id s agent assigned named,
    )
