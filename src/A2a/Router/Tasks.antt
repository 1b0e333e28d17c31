-- ===== src/A2a/Router/Tasks.antt =====
-- The stored tasks and their histories in runs of packages/a2a-router/src/router/a2a-router-service.ts.
use kalen.Prelude.{
  ℕ, String, ◌≡◌, refl, Option, none, some, List, [], arith, ◌==◌, Bool-cases, Option-cases, inl,
  inr, subst,
}
use kalen.Prelude.Dict.{Dict, lookup, insert, lookup-insert}
use kalen.Shared.Task.{Message, A2aTask}
use kalen.A2a.Lifecycle.History.{IsLegal}
use kalen.A2a.Cards.{CardService}
use kalen.A2a.Router.Effects.{Effect, nothing, created, wrote, finished}
use kalen.A2a.Router.Induction.{AreFresh, AllEnd-Unit, run_induction}
use kalen.A2a.Router.{
  Config, new_router, get_task, Router, StoredTask, new_task, decrement_agent_task_count,
}
use kalen.A2a.Router.Calls.{Call, run}

-- every task of a table is legal
pub record AreLegal (d : Dict StoredTask) : Type 0 where
  pub at : (id : String) (s : StoredTask) → lookup id d ≡ some s → IsLegal s.task

-- Where the task that is written is legal, so is the table.
insert-AreLegal :
    (id : String) (s : StoredTask) (d : Dict StoredTask)
    → IsLegal s.task
    → AreLegal d
    → AreLegal (insert id s d)
insert-AreLegal id s d new old = record {
  at = λ j t h. elim (Bool-cases (id == j)) [
    | inl e ↦
        let same : s ≡ t = ground (arith, lookup-insert id j s d) in
        subst (λ (x : StoredTask). IsLegal x.task) same new
    | inr n ↦ old.at j t (ground (arith, lookup-insert id j s d))
  ];
}

pub tasks-decrement :
    (r : Router) (a : Option String) → (decrement_agent_task_count r a).tasks ≡ r.tasks
unfolding decrement_agent_task_count
tasks-decrement r none = refl
tasks-decrement r (some a) = ground arith

new_task-IsLegal :
    (id agent_id created_by : String) (m : Message) (now : ℕ)
    → IsLegal (new_task id agent_id created_by m now)
new_task-IsLegal id agent_id created_by m now = record {
  trace = (refl, refl);
  few_artifacts = omega arith;
}

Effect-AreLegal :
    {Q : Type 0} (q q' : Router) → Effect Q q q' → AreLegal q.tasks → AreLegal q'.tasks
Effect-AreLegal q q' (nothing e) h = rw e h
Effect-AreLegal q q' (created agent_id by m id now card _ _ e) h =
    rw e (insert-AreLegal id _ q.tasks (new_task-IsLegal id agent_id by m now) h)
Effect-AreLegal q q' (wrote id s t found v _ e) h =
    rw e (insert-AreLegal id _ q.tasks (v.legal (h.at id s found)) h)
Effect-AreLegal q q' (finished id s t found v _ _ e) h =
    rw (e, tasks-decrement) (insert-AreLegal id _ q.tasks (v.legal (h.at id s found)) h)

run-AreLegal :
    (r : Router) (cs : List Call) → AreFresh r cs → AreLegal r.tasks → AreLegal (run r cs).tasks
run-AreLegal r cs fresh =
    run_induction (λ q. AreLegal q.tasks) Effect-AreLegal r cs fresh (AllEnd-Unit r cs)

AreLegal-nil : AreLegal []
unfolding lookup
AreLegal-nil = record { at = λ id s h. cc }

pub get_task-lookup :
    (r : Router) (id : String) (t : A2aTask)
    → get_task r id ≡ some t
    → (s : StoredTask) × (lookup id r.tasks ≡ some s) × (s.task ≡ t)
unfolding get_task
get_task-lookup r id t h = elim (Option-cases (lookup id r.tasks)) [
  | inl missing ↦ cc (missing)
  | inr (s, found) ↦ (s, found, ground arith)
]

-- Whatever calls a new router has had, with ids for its new tasks that were not in use: the
-- history of every task that it gives begins with SUBMITTED, follows the arrows of the diagram
-- and ends in the task's status, and the task has no more artifacts than the limit.
pub get_task-IsLegal :
    (cards : CardService) (config : Config) (cs : List Call) (id : String) (t : A2aTask)
    → AreFresh (new_router cards config) cs
    → get_task (run (new_router cards config) cs) id ≡ some t
    → IsLegal t
get_task-IsLegal cards config cs id t fresh h =
    let (s, found, same) = get_task-lookup (run (new_router cards config) cs) id t h in
    subst IsLegal same
      ((run-AreLegal (new_router cards config) cs fresh AreLegal-nil).at id s found)
