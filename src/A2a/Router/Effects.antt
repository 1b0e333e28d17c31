-- ===== src/A2a/Router/Effects.antt =====
-- What one call does to the router, in a few kinds of effects. The proofs about runs go by these.
use Prim.Native.String
use Prim.Native.String.{String}
use kalen.Prelude.{
  ℕ, leb, ◌+◌, ◌<◌, get_or, ◌≡◌, refl, ◌∙◌, ◌++◌, Option, none, some, [], ◌∷◌, arith, Result, ok,
  err, ◌⊎◌, eq_iff, Bool-cases, Option-cases, inl, inr, true, false, ap,
}
use kalen.Prelude.Dict.{lookup, insert, lookup-insert}
use kalen.Shared.Card.{AgentCard}
use kalen.Shared.Task.{TaskStatus, canceled, Artifact, Message, A2aTask}
use kalen.A2a.Lifecycle.{
  TransitionResult, success, failure, transition_task, LimitError, is_terminal_status,
}
use kalen.A2a.Lifecycle
use kalen.A2a.Lifecycle.History.{add_artifact-IsLegal}
use kalen.A2a.Cards.{get_card_by_url}
use kalen.A2a.Router.{
  Router, StoredTask, create_task, delegate_task, cancel_task, task_count, transition_router_task,
  add_task_message, add_task_artifact, write_task, new_task, delegation_note,
  decrement_agent_task_count,
}
use kalen.A2a.Router.Evolves.{Evolves, success-Evolves, edited, success-terminal, Evolves-terminal}

-- `Q` is what lets a call end a task that has ended before: `Unit` in general, `⊥` where none does.
pub data Effect (Q : Type 0) (r r' : Router) : Type 0 where
  nothing : r' ≡ r → Effect Q r r'
  created :
      (agent_id created_by : String) (m : Message) (id : String) (now : ℕ) (card : Option AgentCard)
      → lookup id r.tasks ≡ none
      → task_count r agent_id < r.config.max_tasks_per_agent
      → r' ≡ record r {
        tasks =
            insert id
              (record { task = new_task id agent_id created_by m now; assigned_card = card })
              r.tasks;
        agent_task_counts = insert agent_id (task_count r agent_id + 1) r.agent_task_counts;
      }
      → Effect Q r r'
  wrote :
      (id : String) (s : StoredTask) (t : A2aTask)
      → lookup id r.tasks ≡ some s
      → Evolves s.task t
      → is_terminal_status t.status ≡ is_terminal_status s.task.status
      → r' ≡ write_task r id s t
      → Effect Q r r'
  finished :
      (id : String) (s : StoredTask) (t : A2aTask)
      → lookup id r.tasks ≡ some s
      → Evolves s.task t
      → is_terminal_status t.status ≡ true
      → (is_terminal_status s.task.status ≡ false) ⊎ Q
      → r' ≡ decrement_agent_task_count (write_task r id s t) t.assigned_agent_id
      → Effect Q r r'

-- A delegation has two effects.
pub data Effects (Q : Type 0) (r r' : Router) : Type 0 where
  one : Effect Q r r' → Effects Q r r'
  two : (q : Router) → Effect Q r q → Effect Q q r' → Effects Q r r'

pub create_task-Effect :
    {Q : Type 0} (r : Router) (agent_id created_by : String) (m : Message) (id : String) (now : ℕ)
    → lookup id r.tasks ≡ none
    → Effect Q r (create_task r agent_id created_by m id now).1
unfolding create_task
create_task-Effect r agent_id created_by m id now fresh =
    elim (Bool-cases (leb r.config.max_tasks_per_agent (task_count r agent_id))) [
      | inl full ↦ nothing (ground arith)
      | inr room ↦
          created agent_id created_by m id now (get_card_by_url r.card_service agent_id) fresh
            (ground arith) (ground arith)
    ]

pub delegate_task-Effects :
    {Q : Type 0} (r : Router) (task_id target : String) (m : Message) (id : String) (now : ℕ)
    → lookup id r.tasks ≡ none
    → Effects Q r (delegate_task r task_id target m id now).1
unfolding delegate_task
delegate_task-Effects r task_id target m id now fresh =
    elim (Option-cases (lookup task_id r.tasks)) [
      | inl missing ↦ one (nothing (ground arith))
      | inr (s, found) ↦
          elim (Bool-cases (leb r.config.max_tasks_per_agent (task_count r target))) [
            | inl full ↦ one (nothing (ground arith))
            | inr room ↦
                let by : String = get_or s.task.assigned_agent_id s.task.created_by in
                two (create_task r target by m id now).1
                  (create_task-Effect r target by m id now fresh)
                  (wrote task_id s
                    (record s.task {
                      messages = s.task.messages ++ delegation_note target id now ∷ [];
                      updated_at = now;
                    })
                    (ground (
                      arith,
                      eq_iff id task_id,
                      lookup-insert id task_id
                          (record {
                            task = new_task id target by m now;
                            assigned_card = get_card_by_url r.card_service target;
                          })
                          r.tasks,
                    ))
                    (edited s.task _ refl refl
                      (λ h. record { trace = h.trace; few_artifacts = h.few_artifacts }))
                    refl (ground arith))
          ]
    ]

-- A call that ends a task finds it not ended, or `Q` holds.
abbrev pub MayEnd : Type 0 → Router → String → Type 0
MayEnd Q r task_id =
    (s : StoredTask)
    → lookup task_id r.tasks ≡ some s
    → (is_terminal_status s.task.status ≡ false) ⊎ Q

pub cancel_task-Effect :
    {Q : Type 0} (r : Router) (task_id by : String) (reason : Option String) (now : ℕ)
    → MayEnd Q r task_id
    → Effect Q r (cancel_task r task_id by reason now).1
unfolding cancel_task is_terminal_status
cancel_task-Effect {Q} r task_id by reason now may = elim (Option-cases (lookup task_id r.tasks)) [
  | inl missing ↦ nothing (ground arith)
  | inr (s, found) ↦ go s found _ refl
]
  where
    note : Option String
    note = some (get_or reason (String.◌++◌ "Cancelled by " by))

    go :
        (s : StoredTask)
        → lookup task_id r.tasks ≡ some s
        → (res : TransitionResult) → transition_task s.task canceled note now ≡ res
        → Effect Q r (cancel_task r task_id by reason now).1
    go s found (failure _ _ _ _) e = nothing (ground arith)
    go s found (success t) e =
        finished task_id s t found (success-Evolves s.task canceled note now t e)
          (success-terminal s.task canceled note now t e) (may s found) (ground arith)

pub transition_router_task-Effect :
    {Q : Type 0} (r : Router) (task_id : String) (new : TaskStatus) (m : Option String) (now : ℕ)
    → (is_terminal_status new ≡ true → MayEnd Q r task_id)
    → Effect Q r (transition_router_task r task_id new m now).1
unfolding transition_router_task
transition_router_task-Effect {Q} r task_id new m now may =
    elim (Option-cases (lookup task_id r.tasks)) [
      | inl missing ↦ nothing (ground arith)
      | inr (s, found) ↦ go s found _ refl
    ]
  where
    go :
        (s : StoredTask)
        → lookup task_id r.tasks ≡ some s
        → (res : TransitionResult) → transition_task s.task new m now ≡ res
        → Effect Q r (transition_router_task r task_id new m now).1
    go s found (failure _ _ _ _) e = nothing (ground arith)
    go s found (success t) e =
        let v = success-Evolves s.task new m now t e in
        let terminal = success-terminal s.task new m now t e in
        elim (Bool-cases (is_terminal_status new)) [
          | inl ends ↦
              finished task_id s t found v (terminal ∙ ends) (may ends s found) (ground arith)
          | inr open' ↦
              wrote task_id s t found v (Evolves-terminal s.task t v (terminal ∙ open'))
                (ground arith)
        ]

pub add_task_message-Effect :
    {Q : Type 0} (r : Router) (task_id : String) (m : Message) (now : ℕ)
    → Effect Q r (add_task_message r task_id m now).1
unfolding add_task_message
add_task_message-Effect r task_id m now = elim (Option-cases (lookup task_id r.tasks)) [
  | inl missing ↦ nothing (ground arith)
  | inr (s, found) ↦
      wrote task_id s (record s.task { messages = s.task.messages ++ m ∷ []; updated_at = now })
        found
        (edited s.task _ refl refl
          (λ h. record { trace = h.trace; few_artifacts = h.few_artifacts }))
        refl (ground arith)
]

pub add_task_artifact-Effect :
    {Q : Type 0} (r : Router) (task_id : String) (a : Artifact) (now : ℕ)
    → Effect Q r (add_task_artifact r task_id a now).1
unfolding add_task_artifact
add_task_artifact-Effect {Q} r task_id a now = elim (Option-cases (lookup task_id r.tasks)) [
  | inl missing ↦ nothing (ground arith)
  | inr (s, found) ↦ go s found _ refl
]
  where
    go :
        (s : StoredTask)
        → lookup task_id r.tasks ≡ some s
        → (res : Result LimitError A2aTask) → Lifecycle.add_artifact s.task a now ≡ res
        → Effect Q r (add_task_artifact r task_id a now).1
    go s found (err _) e = nothing (ground arith)
    go s found (ok t) e =
        let status : t.status ≡ s.task.status = ground arith in
        wrote task_id s t found
          (edited s.task t (ground arith) status (λ h. add_artifact-IsLegal s.task t a now h e))
          (ap is_terminal_status status) (ground arith)
