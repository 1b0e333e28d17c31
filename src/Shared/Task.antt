-- ===== src/Shared/Task.antt =====
-- packages/shared/src/types/a2a.ts: tasks, their messages and artifacts, and the state machine.
-- A time stamp is the number of milliseconds that it stands for.
use kalen.Prelude.{ℕ, String, Bool, true, false, Option, List, [], ◌∷◌, if◌then◌else◌}
use kalen.Shared.Json.{Fields}

pub data TaskStatus : Type 0 where
  submitted working completed failed canceled input_required : TaskStatus

pub TaskStatus-discrete : Discrete TaskStatus
TaskStatus-discrete = hlevel

-- `===` on statuses
abbrev pub status_eq : TaskStatus → TaskStatus → Bool
status_eq submitted submitted = true
status_eq working working = true
status_eq completed completed = true
status_eq failed failed = true
status_eq canceled canceled = true
status_eq input_required input_required = true
status_eq _ _ = false

-- `VALID_TRANSITIONS`
unfoldable pub valid_transitions : TaskStatus → List TaskStatus
valid_transitions submitted = working ∷ canceled ∷ failed ∷ []
valid_transitions working = completed ∷ failed ∷ canceled ∷ input_required ∷ []
valid_transitions input_required = working ∷ canceled ∷ []
valid_transitions completed = []
valid_transitions failed = []
valid_transitions canceled = []

-- `xs.includes(s)`
abbrev pub includes : List TaskStatus → TaskStatus → Bool
includes [] s = false
includes (x ∷ xs) s = if status_eq x s then true else includes xs s

pub data PartType : Type 0 where
  text file other : PartType

pub record FilePart : Type 0 where
  pub name : Option String
  pub mime_type : Option String
  pub bytes : Option String
  pub uri : Option String

-- `A2AMessagePart` and `A2AArtifactPart`, which have the same fields; `other` is the type "data"
pub record Part : Type 0 where
  pub part_type : PartType
  pub content : Option String
  pub attachment : Option FilePart
  pub payload : Option Fields

pub record Artifact : Type 0 where
  pub id : String
  pub parts : List Part
  pub created_at : ℕ

pub data MessageRole : Type 0 where
  user agent : MessageRole

pub record Message : Type 0 where
  pub role : MessageRole
  pub parts : List Part
  pub timestamp : ℕ

pub record TaskStateTransition : Type 0 where
  pub status : TaskStatus
  pub message : Option String
  pub timestamp : ℕ

pub record A2aTask : Type 0 where
  pub id : String
  pub status : TaskStatus
  pub status_message : Option String
  pub artifacts : List Artifact
  pub messages : List Message
  pub history : List TaskStateTransition
  pub assigned_agent_id : Option String
  pub created_by : String
  pub created_at : ℕ
  pub updated_at : ℕ
