-- ===== src/A2a/Lifecycle.antt =====
-- packages/a2a-router/src/task/task-lifecycle.ts. The clock is read by the caller: `now` is what
-- `new Date()` gives in the call. The methods that the types make total are functions, and those
-- that may throw give a `Result`.
pub mod Machine
pub mod History
use kalen.Prelude.{
  ℕ, String, Bool, ◌||◌, Option, some, List, [], ◌∷◌, ◌++◌, length, leb, if◌then◌else◌, Result, ok,
  err,
}
use kalen.Shared.Task.{
  TaskStatus, submitted, completed, failed, canceled, status_eq, valid_transitions, includes,
  Artifact, Message, TaskStateTransition, A2aTask,
}

-- `MAX_ARTIFACTS_PER_TASK` and `MAX_MESSAGES_PER_TASK` of packages/shared/src/utils/constants.ts
abbrev pub max_artifacts_per_task : ℕ
max_artifacts_per_task = 64

abbrev pub max_messages_per_task : ℕ
max_messages_per_task = 512

-- `TaskTransitionResult`: the task is in both cases the one that the result carries
pub data TransitionResult : Type 0 where
  success : A2aTask → TransitionResult
  failure : A2aTask → (current target : TaskStatus) (allowed : List TaskStatus) → TransitionResult

-- `transitionTask`
unfoldable pub transition_task : A2aTask → TaskStatus → Option String → ℕ → TransitionResult
unfolding valid_transitions
transition_task task new_status message now =
    if status_eq task.status new_status
    then success task
    else if includes (valid_transitions task.status) new_status
    then success (record task {
      status = new_status;
      status_message = message;
      history =
          task.history ++ record { status = new_status; message = message; timestamp = now } ∷ [];
      updated_at = now;
    })
    else failure task task.status new_status (valid_transitions task.status)

-- the errors that the two methods below throw, with the limit that they name
pub data LimitError : Type 0 where
  too_many_artifacts too_many_messages : ℕ → LimitError

-- `addArtifact`
unfoldable pub add_artifact : A2aTask → Artifact → ℕ → Result LimitError A2aTask
add_artifact task artifact now =
    if leb max_artifacts_per_task (length task.artifacts)
    then err (too_many_artifacts max_artifacts_per_task)
    else ok (record task { artifacts = task.artifacts ++ artifact ∷ []; updated_at = now })

-- `addMessage`
unfoldable pub add_message : A2aTask → Message → ℕ → Result LimitError A2aTask
add_message task message now =
    if leb max_messages_per_task (length task.messages)
    then err (too_many_messages max_messages_per_task)
    else ok (record task { messages = task.messages ++ message ∷ []; updated_at = now })

-- `isTerminalStatus`
unfoldable pub is_terminal_status : TaskStatus → Bool
is_terminal_status status =
    status_eq status completed || status_eq status failed || status_eq status canceled

-- `isTerminal`
unfoldable pub is_terminal : A2aTask → Bool
unfolding is_terminal_status
is_terminal task = is_terminal_status task.status

-- `getValidTransitions`
unfoldable pub get_valid_transitions : TaskStatus → List TaskStatus
unfolding valid_transitions
get_valid_transitions status = valid_transitions status

-- `initialMessage ? [initialMessage] : []`
abbrev pub initial_messages : Option Message → List Message
initial_messages (some m) = m ∷ []
initial_messages _ = []

-- `createInitialTask`
unfoldable pub create_initial_task : String → String → Option String → Option Message → ℕ → A2aTask
create_initial_task id created_by assigned_agent_id initial_message now = record {
  id = id;
  status = submitted;
  status_message = some "Task submitted";
  artifacts = [];
  messages = initial_messages initial_message;
  history = record { status = submitted; message = some "Task created"; timestamp = now } ∷ [];
  assigned_agent_id = assigned_agent_id;
  created_by = created_by;
  created_at = now;
  updated_at = now;
}
