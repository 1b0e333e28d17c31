-- ===== src/A2a/Router/Calls.antt =====
-- The calls on a router (packages/a2a-router/src/router/a2a-router-service.ts), one after another.
use kalen.Prelude.{ℕ, String, ◌≡◌, Option, List, [], ◌∷◌, arith, err}
use kalen.Shared.Task.{TaskStatus, Artifact, Message, A2aTask}
use kalen.A2a.Router.{
  Router, RouterError, Answer, create_task, delegate_task, cancel_task, transition_router_task,
  add_task_message, add_task_artifact,
}

-- The calls that may write to a task, with the ids and the times that they are given.
pub data Call : Type 0 where
  create : (agent_id created_by : String) → Message → (new_id : String) → ℕ → Call
  delegate : (task_id target : String) → Message → (new_id : String) → ℕ → Call
  cancel : (task_id cancelled_by : String) → Option String → ℕ → Call
  transition : (task_id : String) → TaskStatus → Option String → ℕ → Call
  add_message : (task_id : String) → Message → ℕ → Call
  add_artifact : (task_id : String) → Artifact → ℕ → Call

unfoldable pub step : Router → Call → Answer A2aTask
step r (create agent_id created_by m new_id now) = create_task r agent_id created_by m new_id now
step r (delegate task_id target m new_id now) = delegate_task r task_id target m new_id now
step r (cancel task_id cancelled_by reason now) = cancel_task r task_id cancelled_by reason now
step r (transition task_id s m now) = transition_router_task r task_id s m now
step r (add_message task_id m now) = add_task_message r task_id m now
step r (add_artifact task_id a now) = add_task_artifact r task_id a now

-- A call that throws, of the six that may write to a task, leaves the router exactly as it was.
pub step_error_unchanged :
    (r : Router) (c : Call) (e : RouterError) → (step r c).0 ≡ err e → (step r c).1 ≡ r
unfolding step create_task delegate_task cancel_task transition_router_task add_task_message
    add_task_artifact
step_error_unchanged r (create agent_id created_by m new_id now) e h = ground arith
step_error_unchanged r (delegate task_id target m new_id now) e h = ground arith
step_error_unchanged r (cancel task_id cancelled_by reason now) e h = ground arith
step_error_unchanged r (transition task_id s m now) e h = ground arith
step_error_unchanged r (add_message task_id m now) e h = ground arith
step_error_unchanged r (add_artifact task_id a now) e h = ground arith

-- The router after the calls; what a call throws is caught by the caller.
unfoldable pub run : Router → List Call → Router
run r [] = r
run r (c ∷ cs) = run (step r c).1 cs
