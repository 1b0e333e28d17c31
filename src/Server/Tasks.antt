-- ===== src/Server/Tasks.antt =====
-- apps/server/src/a2a/a2a.service.ts: the tasks of the router and the table a2a_tasks, and the
-- JSON-RPC requests. A request that leaves out the id or the agent that its method needs, where the
-- source goes on with `undefined`, is not modelled.

pub mod Refused
pub mod Restart
mod Tests
use Prim.Native.String.{◌++◌ as ◌^◌}
use kalen.Prelude.{
  ℕ, String, Bool, true, false, not, ◌&&◌, Option, none, some, List, [], ◌∷◌, ◌==◌, get_or, is_some,
  map, if◌then◌else◌, Result, ok, err,
}
use kalen.Prelude.Dict.{Dict, lookup, insert}
use kalen.Shared.Task.{
  TaskStatus, canceled, PartType, text, file, other, Part, MessageRole, user, agent, Message,
  A2aTask,
}
use kalen.A2a.Router.{
  Router, RouterError, create_task, cancel_task, get_task, list_tasks_for_agent,
  list_tasks_by_creator,
}

-- `A2aTaskEntity`, as far as the service writes it; the first three columns have no default and may
-- not be null
pub record TaskRow : Type 0 where
  pub task_id : Option String
  pub sender_agent_id : Option String
  pub description : Option String
  pub status : TaskStatus
  pub status_message : Option String
  pub assigned_agent_id : Option String
  pub created_by : String
  pub creator_kind : String
  pub messages : List Message

-- what the columns of the entity ask of a row
unfoldable pub has_columns : TaskRow → Bool
has_columns r = is_some r.task_id && (is_some r.sender_agent_id && is_some r.description)

pub record Service : Type 0 where
  pub router : Router
  pub rows : Dict TaskRow

-- a message as a client sends it: its role, and the type and the text of its parts
pub record Incoming : Type 0 where
  pub role : String
  pub parts : List (String × Option String)

abbrev pub read_role : String → MessageRole
read_role role = if role == "agent" then agent else user

abbrev pub read_type : String → PartType
read_type t = if t == "file" then file else if t == "data" then other else text

abbrev pub read_part : String × Option String → Part
read_part (t, content) = record {
  part_type = read_type t;
  content = content;
  attachment = none;
  payload = none;
}

abbrev pub read_message : Incoming → ℕ → Message
read_message m now = record {
  role = read_role m.role;
  parts = map read_part m.parts;
  timestamp = now;
}

-- what a call throws: a `NotFoundException`, or another error
pub data TaskError : Type 0 where
  not_found internal : TaskError

-- the row that `createTask` saves
abbrev pub row_of_task : A2aTask → (created_by creator_kind : String) → TaskRow
row_of_task t created_by creator_kind = record {
  task_id = none;
  sender_agent_id = none;
  description = none;
  status = t.status;
  status_message = t.status_message;
  assigned_agent_id = t.assigned_agent_id;
  created_by = created_by;
  creator_kind = creator_kind;
  messages = t.messages;
}

-- what `getTask` gives: a task of the router, or a row of the table
pub data Found : Type 0 where
  in_router : A2aTask → Found
  in_table : TaskRow → Found

-- `accepts` is what the database asks of a row
module _ (accepts : TaskRow → Bool) where
  -- the end of `createTask`
  abbrev pub save_task :
      Service
      → (created_by creator_kind : String) → Result RouterError A2aTask × Router
      → Service × Result TaskError A2aTask
  save_task s created_by creator_kind (err e, r) = (record s { router = r }, err internal)
  save_task s created_by creator_kind (ok t, r) =
      if accepts (row_of_task t created_by creator_kind)
      then (
        record { router = r; rows = insert t.id (row_of_task t created_by creator_kind) s.rows },
        ok t,
      )
      else (record s { router = r }, err internal)

  -- `createTask`, with the router's new id
  unfoldable pub send_task :
      Service
      → (agent_id created_by creator_kind : String) → Incoming
      → (new_id : String) → ℕ
      → Service × Result TaskError A2aTask
  send_task s agent_id created_by creator_kind m new_id now =
      save_task s created_by creator_kind
        (create_task s.router agent_id created_by (read_message m now) new_id now)

-- `getTask`
unfoldable pub find_task : Service → String → Result TaskError Found
find_task s id = elim (get_task s.router id) [
  | some t ↦ ok (in_router t)
  | none ↦ elim (lookup id s.rows) [ none ↦ err not_found | some r ↦ ok (in_table r) ]
]

-- the update of `cancelTask`; it finds the row or changes nothing
unfoldable pub mark_canceled : Dict TaskRow → String → String → Dict TaskRow
mark_canceled rows id message = elim (lookup id rows) [
  | none ↦ rows
  | some r ↦ insert id (record r { status = canceled; status_message = some message }) rows
]

-- the end of `cancelTask`
abbrev pub save_canceled :
    Service
    → (id cancelled_by : String) → Option String
    → Result RouterError A2aTask × Router
    → Service × Result TaskError A2aTask
save_canceled s id cancelled_by reason (err e, r) = (record s { router = r }, err internal)
save_canceled s id cancelled_by reason (ok t, r) = (
  record {
    router = r;
    rows = mark_canceled s.rows id (get_or reason ("Cancelled by " ^ cancelled_by));
  },
  ok t,
)

-- `cancelTask`
unfoldable pub withdraw_task :
    Service → (id cancelled_by : String) → Option String → ℕ → Service × Result TaskError A2aTask
withdraw_task s id cancelled_by reason now =
    save_canceled s id cancelled_by reason (cancel_task s.router id cancelled_by reason now)

-- a JSON-RPC request: its method, with the parameters that it reads
pub data Rpc : Type 0 where
  tasks_send :
      (agent_id : String) (created_by creator_kind : Option String) (message : Option Incoming)
      → Rpc
  tasks_get : (id : String) → Rpc
  tasks_cancel : (id : String) (cancelled_by reason : Option String) → Rpc
  tasks_list : (agent_id created_by : Option String) → Rpc
  other_method : String → Rpc

-- the answer: a result, or an error with its code, which is less than zero
pub data RpcAnswer : Type 0 where
  one_task : A2aTask → RpcAnswer
  found_task : Found → RpcAnswer
  many_tasks : List A2aTask → RpcAnswer
  minus : ℕ → RpcAnswer

abbrev pub code_of : TaskError → RpcAnswer
code_of not_found = minus 32003
code_of internal = minus 32603

abbrev pub answer_task : Service × Result TaskError A2aTask → Service × RpcAnswer
answer_task (s, ok t) = (s, one_task t)
answer_task (s, err e) = (s, code_of e)

abbrev pub answer_found : Result TaskError Found → RpcAnswer
answer_found (ok f) = found_task f
answer_found (err e) = code_of e

abbrev pub no_message : Incoming
no_message = record { role = "user"; parts = [] }

abbrev pub list_tasks : Router → Option String → Option String → List A2aTask
list_tasks r none created_by = list_tasks_by_creator r (get_or created_by "system")
list_tasks r (some agent_id) created_by =
    if agent_id == ""
    then list_tasks_by_creator r (get_or created_by "system")
    else list_tasks_for_agent r agent_id

-- `handleJsonRpcRequest`
unfoldable pub handle_rpc :
    (TaskRow → Bool) → Service → Rpc → (new_id : String) → ℕ → Service × RpcAnswer
handle_rpc accepts s (tasks_send agent_id created_by creator_kind message) new_id now =
    answer_task (
      send_task accepts s agent_id (get_or created_by "system") (get_or creator_kind "agent")
        (get_or message no_message) new_id now)
handle_rpc accepts s (tasks_get id) new_id now = (s, answer_found (find_task s id))
handle_rpc accepts s (tasks_cancel id cancelled_by reason) new_id now =
    answer_task (withdraw_task s id (get_or cancelled_by "system") reason now)
handle_rpc accepts s (tasks_list agent_id created_by) new_id now =
    (s, many_tasks (list_tasks s.router agent_id created_by))
handle_rpc accepts s (other_method name) new_id now = (s, minus 32601)
