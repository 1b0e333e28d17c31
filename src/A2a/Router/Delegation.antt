-- ===== src/A2a/Router/Delegation.antt =====
-- Delegation and messages in packages/a2a-router/src/router/a2a-router-service.ts.
use kalen.Prelude.{
  ℕ, ◌+◌, ◌≤◌, ◌<◌, String, ◌≡◌, refl, ◌∙◌, ◌≢◌, none, some, [], ◌∷◌, ◌++◌, arith, ok, err, eq_iff,
  eq_refl, ◌==◌, if◌then◌else◌, length, get_or,
}
use kalen.Prelude.Dict.{lookup, insert, lookup-insert}
use kalen.Shared.Task.{Message, A2aTask}
use kalen.A2a.Lifecycle.{add_message, too_many_messages, max_messages_per_task}
use kalen.A2a.Cards.{get_card_by_url}
use kalen.A2a.Router.{
  Router, StoredTask, new_task, write_task, delegation_note, task_count, get_task, create_task,
  delegate_task, add_task_message,
}

-- the router after a delegation that succeeds
module _ (r : Router) (s : StoredTask) (task_id target id : String) (m : Message) (now : ℕ) where
  creator : String
  creator = get_or s.task.assigned_agent_id s.task.created_by

  noted : A2aTask
  noted = record s.task {
    messages = s.task.messages ++ delegation_note target id now ∷ [];
    updated_at = now;
  }

  placed : StoredTask
  placed = record {
    task = new_task id target creator m now;
    assigned_card = get_card_by_url r.card_service target;
  }

  delegated : Router
  delegated = write_task (create_task r target creator m id now).1 task_id s noted

  module _ (found : lookup task_id r.tasks ≡ some s) (fresh : lookup id r.tasks ≡ none)
      (room : task_count r target < r.config.max_tasks_per_agent) where
    delegate_task-delegated :
        delegate_task r task_id target m id now ≡ (ok (new_task id target creator m now), delegated)
    unfolding delegate_task delegated noted creator
    delegate_task-delegated = ground arith

    get_task-delegated :
        (j : String)
        → get_task delegated j ≡ (
            if task_id == j
            then some noted
            else if id == j
            then some (new_task id target creator m now)
            else get_task r j)
    unfolding get_task delegated create_task placed noted creator
    get_task-delegated j = ground (
      arith,
      lookup-insert id j placed r.tasks,
      lookup-insert task_id j (record s { task = noted }) (insert id placed r.tasks),
    )

    task_count-delegated : task_count delegated target ≡ task_count r target + 1
    unfolding task_count delegated create_task
    task_count-delegated = ground (
      arith,
      eq_refl target,
      lookup-insert target target (task_count r target + 1) r.agent_task_counts,
    )

-- A delegation of a stored task, under an id that is not in use, to an agent below its limit: it
-- gives a new SUBMITTED task of the target, whose creator is the original's agent or, if it has
-- none, the original's creator. The new id now gives that task, the original's id gives the
-- original with the delegation's note as its last message and its time of update, every other id
-- gives what it gave, and the target's counter has grown by one.
pub delegate_task_lem :
    (r : Router) (s : StoredTask) (task_id target id : String) (m : Message) (now : ℕ)
    → lookup task_id r.tasks ≡ some s
    → lookup id r.tasks ≡ none
    → task_count r target < r.config.max_tasks_per_agent
    → let task = new_task id target (get_or s.task.assigned_agent_id s.task.created_by) m now in
      let (answer, r') = delegate_task r task_id target m id now in
      (answer ≡ ok task)
      × (get_task r' id ≡ some task)
      × (get_task r' task_id
          ≡ some (record s.task {
            messages = s.task.messages ++ delegation_note target id now ∷ [];
            updated_at = now;
          }))
      × ((j : String) → j ≢ id → j ≢ task_id → get_task r' j ≡ get_task r j)
      × (task_count r' target ≡ task_count r target + 1)
unfolding creator noted
delegate_task_lem r s task_id target id m now found fresh room =
    let e = delegate_task-delegated r s task_id target id m now found fresh room in
    let at = get_task-delegated r s task_id target id m now found fresh room in
    rw e (
      refl,
      at id ∙ ground (arith, eq_refl id, eq_iff task_id id),
      at task_id ∙ ground (arith, eq_refl task_id),
      λ j p q. at j ∙ ground (arith, eq_iff task_id j, eq_iff id j),
      task_count-delegated r s task_id target id m now found fresh room,
    )

-- For a stored task that holds as many messages as the limit, the lifecycle's addMessage throws,
-- and the router's addTaskMessage adds the message.
pub add_task_message_past_limit :
    (r : Router) (s : StoredTask) (id : String) (m : Message) (now : ℕ)
    → lookup id r.tasks ≡ some s
    → max_messages_per_task ≤ length s.task.messages
    → (add_message s.task m now ≡ err (too_many_messages max_messages_per_task))
      × (get_task (add_task_message r id m now).1 id
          ≡ some (record s.task { messages = s.task.messages ++ m ∷ []; updated_at = now }))
unfolding add_message add_task_message get_task
add_task_message_past_limit r s id m now found full = (
  ground arith,
  ground (
    arith,
    eq_refl id,
    lookup-insert id id
        (record s {
          task = record s.task { messages = s.task.messages ++ m ∷ []; updated_at = now };
        })
        r.tasks,
  ),
)
