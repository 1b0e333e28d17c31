-- ===== src/A2a/Router.antt =====
-- packages/a2a-router/src/router/a2a-router-service.ts. A method that throws gives the error and
-- the router as it was when it threw. `now` is the time of the call, and a new id is an argument.
pub mod Calls
pub mod Evolves
pub mod Effects
pub mod Induction
pub mod Tasks
pub mod Final
pub mod Counts
pub mod Repeats
pub mod Delegation
use kalen.Prelude.{
  ℕ, ◌+◌, ◌-◌, Bool, true, false, not, ◌&&◌, Option, none, some, List, [], ◌∷◌, ◌++◌, ◌==◌, leb,
  filter, get_or, map, if◌then◌else◌, Result, ok, err,
}
use Prim.Native.String
use Prim.Native.String.{String}
use kalen.Prelude.Dict.{Dict, lookup, insert, values}
use kalen.Shared.Card.{AgentCard}
use kalen.Shared.Task.{
  TaskStatus, submitted, canceled, Part, text, Artifact, Message, agent, A2aTask,
}
use kalen.A2a.Lifecycle.{
  TransitionResult, success, failure, transition_task, LimitError, add_artifact, is_terminal_status,
}
use kalen.A2a.Cards
use kalen.A2a.Cards.{
  Platform, CardService, CardError, Response, get_card_by_url, fetch_and_cache_card,
}

-- `A2ARouterConfig`
pub record Config : Type 0 where
  pub discovery_cache_ttl : ℕ
  pub max_tasks_per_agent : ℕ
  pub task_timeout : ℕ

-- `DEFAULT_ROUTER_CONFIG`
abbrev pub default_config : Config
default_config = record {
  discovery_cache_ttl = 300;
  max_tasks_per_agent = 100;
  task_timeout = 300000;
}

pub record StoredTask : Type 0 where
  pub task : A2aTask
  pub assigned_card : Option AgentCard

pub record Router : Type 0 where
  pub config : Config
  pub card_service : CardService
  pub tasks : Dict StoredTask
  pub agent_task_counts : Dict ℕ

-- the errors that the methods throw; the messages are made from the arguments
pub data RouterError : Type 0 where
  task_limit : String → ℕ → RouterError
  task_not_found : String → RouterError
  invalid_transition : TaskStatus → TaskStatus → List TaskStatus → RouterError
  limit_reached : LimitError → RouterError
  discovery_failed : CardError → RouterError

abbrev pub Answer {ℓ} : Type ℓ → Type ℓ
Answer A = Result RouterError A × Router

-- the constructor
abbrev pub new_router : CardService → Config → Router
new_router cards config = record {
  config = config;
  card_service = cards;
  tasks = [];
  agent_task_counts = [];
}

-- `this.agentTaskCounts.get(agentId) ?? 0`
unfoldable pub task_count : Router → String → ℕ
unfolding lookup
task_count r agent_id = get_or (lookup agent_id r.agent_task_counts) 0

-- `discoverAgent`
pub discover_agent : Platform → (String → Response) → Router → String → ℕ → Answer AgentCard
discover_agent p answer r agent_url now = elim (get_card_by_url r.card_service agent_url) [
  | some card ↦ (ok card, r)
  | none ↦
      let (res, cards) =
        fetch_and_cache_card p answer r.card_service agent_url r.config.discovery_cache_ttl now in
      (
        elim res [ ok card ↦ ok card | err e ↦ err (discovery_failed e) ],
        record r { card_service = cards },
      )
]

-- the task that `createTask` makes
abbrev pub new_task : String → String → String → Message → ℕ → A2aTask
new_task id agent_id created_by message now = record {
  id = id;
  status = submitted;
  status_message = some "Task submitted";
  artifacts = [];
  messages = message ∷ [];
  history = record { status = submitted; message = some "Task created"; timestamp = now } ∷ [];
  assigned_agent_id = some agent_id;
  created_by = created_by;
  created_at = now;
  updated_at = now;
}

-- `createTask`
unfoldable pub create_task : Router → String → String → Message → String → ℕ → Answer A2aTask
unfolding task_count insert get_card_by_url
create_task r agent_id created_by message new_id now =
    let current = task_count r agent_id in
    let task = new_task new_id agent_id created_by message now in
    if leb r.config.max_tasks_per_agent current
    then (err (task_limit agent_id r.config.max_tasks_per_agent), r)
    else (
      ok task,
      record r {
        tasks =
            insert new_id
              (record { task = task; assigned_card = get_card_by_url r.card_service agent_id })
              r.tasks;
        agent_task_counts = insert agent_id (current + 1) r.agent_task_counts;
      },
    )

-- the message that a delegation leaves on the original task
unfoldable pub delegation_note : String → String → ℕ → Message
delegation_note target new_id now = record {
  role = agent;
  parts =
      record {
        part_type = text;
        content = some (
            String.◌++◌ "Task delegated to agent "
              (String.◌++◌ target (String.◌++◌ ". Delegated task ID: " new_id)));
        attachment = none;
        payload = none;
      }
      ∷ [];
  timestamp = now;
}

-- `this.tasks.get(taskId)` of a task that an operation then writes to in place
abbrev pub write_task : Router → String → StoredTask → A2aTask → Router
write_task r task_id stored task = record r {
  tasks = insert task_id (record stored { task = task }) r.tasks;
}

-- `delegateTask`: the original is looked up before the new task is stored, and written after
unfoldable pub delegate_task : Router → String → String → Message → String → ℕ → Answer A2aTask
unfolding lookup insert create_task delegation_note
delegate_task r task_id target message new_id now = elim (lookup task_id r.tasks) [
  | none ↦ (err (task_not_found task_id), r)
  | some stored ↦
      let original = stored.task in
      let (res, r') =
        create_task r target (get_or original.assigned_agent_id original.created_by) message new_id
          now in
      elim res [
        | err e ↦ (err e, r')
        | ok delegated ↦ (
          ok delegated,
          write_task r' task_id stored (record original {
            messages = original.messages ++ delegation_note target new_id now ∷ [];
            updated_at = now;
          }),
        )
      ]
]

-- `decrementAgentTaskCount`
unfoldable pub decrement_agent_task_count : Router → Option String → Router
unfolding task_count insert
decrement_agent_task_count r none = r
decrement_agent_task_count r (some agent_id) = if agent_id == "" then r else record r {
  agent_task_counts = insert agent_id (task_count r agent_id - 1) r.agent_task_counts;
}

-- `cancelTask`
unfoldable pub cancel_task : Router → String → String → Option String → ℕ → Answer A2aTask
unfolding lookup insert transition_task decrement_agent_task_count
cancel_task r task_id cancelled_by reason now = elim (lookup task_id r.tasks) [
  | none ↦ (err (task_not_found task_id), r)
  | some stored ↦
      elim (transition_task stored.task canceled
        (some (get_or reason (String.◌++◌ "Cancelled by " cancelled_by))) now) [
          | failure _ from to allowed ↦ (err (invalid_transition from to allowed), r)
          | success task ↦ (
            ok task,
            decrement_agent_task_count (write_task r task_id stored task) task.assigned_agent_id,
          )
        ]
]

-- `getTask`
unfoldable pub get_task : Router → String → Option A2aTask
unfolding lookup
get_task r task_id = elim (lookup task_id r.tasks) [ none ↦ none | some stored ↦ some stored.task ]

-- `addTaskMessage`
unfoldable pub add_task_message : Router → String → Message → ℕ → Answer A2aTask
unfolding lookup insert
add_task_message r task_id message now = elim (lookup task_id r.tasks) [
  | none ↦ (err (task_not_found task_id), r)
  | some stored ↦
      let task = record stored.task {
        messages = stored.task.messages ++ message ∷ [];
        updated_at = now;
      } in
      (ok task, write_task r task_id stored task)
]

-- `isTerminalStatus` is that of the lifecycle, written out a second time in the source.

-- `transitionTask`
unfoldable pub transition_router_task :
    Router → String → TaskStatus → Option String → ℕ → Answer A2aTask
unfolding lookup insert transition_task decrement_agent_task_count is_terminal_status
transition_router_task r task_id new_status message now = elim (lookup task_id r.tasks) [
  | none ↦ (err (task_not_found task_id), r)
  | some stored ↦ elim (transition_task stored.task new_status message now) [
    | failure _ from to allowed ↦ (err (invalid_transition from to allowed), r)
    | success task ↦
        let written = write_task r task_id stored task in
        (
          ok task,
          if is_terminal_status new_status
              then decrement_agent_task_count written task.assigned_agent_id
              else written,
        )
  ]
]

-- `addTaskArtifact`
unfoldable pub add_task_artifact : Router → String → Artifact → ℕ → Answer A2aTask
unfolding lookup insert add_artifact
add_task_artifact r task_id artifact now = elim (lookup task_id r.tasks) [
  | none ↦ (err (task_not_found task_id), r)
  | some stored ↦ elim (add_artifact stored.task artifact now) [
    | err e ↦ (err (limit_reached e), r)
    | ok task ↦ (ok task, write_task r task_id stored task)
  ]
]

-- `===` of an optional string and a string
abbrev pub opt_eq : Option String → String → Bool
opt_eq none s = false
opt_eq (some t) s = t == s

-- `listTasksForAgent`
pub list_tasks_for_agent : Router → String → List A2aTask
unfolding values
list_tasks_for_agent r agent_id =
    filter (λ (t : A2aTask). opt_eq t.assigned_agent_id agent_id)
      (map (λ (s : StoredTask). s.task) (values r.tasks))

-- `listTasksByCreator`
pub list_tasks_by_creator : Router → String → List A2aTask
unfolding values
list_tasks_by_creator r created_by =
    filter (λ (t : A2aTask). t.created_by == created_by)
      (map (λ (s : StoredTask). s.task) (values r.tasks))
