-- ===== src/A2a/Router/Final.antt =====
-- Ended tasks in runs of packages/a2a-router/src/router/a2a-router-service.ts.
use kalen.Prelude.{
  String, ◌≡◌, some, List, arith, ◌==◌, eq_iff, Bool-cases, inl, inr, true, ap, ◌∙◌,
}
use kalen.Prelude.Dict.{lookup, insert, lookup-insert}
use kalen.Shared.Task.{TaskStatus, A2aTask}
use kalen.A2a.Lifecycle.{is_terminal_status}
use kalen.A2a.Router.Evolves.{Evolves}
use kalen.A2a.Router.Effects.{Effect, nothing, created, wrote, finished}
use kalen.A2a.Router.Induction.{AreFresh, AllEnd-Unit, run_induction}
use kalen.A2a.Router.{get_task, Router, StoredTask}
use kalen.A2a.Router.Tasks.{tasks-decrement, get_task-lookup}
use kalen.A2a.Router.Calls.{Call, run}

-- a stored task with a given status
abbrev HasStatus : String → TaskStatus → Router → Type 0
HasStatus id st r = (s : StoredTask) × (lookup id r.tasks ≡ some s) × (s.task.status ≡ st)

HasStatus-insert :
    (id : String) (st : TaskStatus) (j : String) (s' : StoredTask) (r : Router)
    → HasStatus id st r
    → ((s : StoredTask) → lookup j r.tasks ≡ some s → s.task.status ≡ st → s'.task.status ≡ st)
    → (s : StoredTask) × (lookup id (insert j s' r.tasks) ≡ some s) × (s.task.status ≡ st)
HasStatus-insert id st j s' r (s, found, e) keep = elim (Bool-cases (j == id)) [
  | inl same ↦
      let p : j ≡ id = (eq_iff j id).0 same in
      (s', ground (arith, lookup-insert j id s' r.tasks), keep s (rw p found) e)
  | inr other ↦ (s, ground (arith, lookup-insert j id s' r.tasks), e)
]

frozen_at :
    (j : String) (st : TaskStatus) (s s' : StoredTask) (t : A2aTask) (r : Router)
    → is_terminal_status st ≡ true
    → Evolves s.task t
    → lookup j r.tasks ≡ some s
    → lookup j r.tasks ≡ some s'
    → s'.task.status ≡ st
    → t.status ≡ st
frozen_at j st s s' t r ends v found found' same =
    let p : s ≡ s' = ground arith in
    let at : s.task.status ≡ st = ap (λ (x : StoredTask). x.task.status) p ∙ same in
    v.frozen (rw at ends) ∙ at

Effect-HasStatus :
    {Q : Type 0} (id : String) (st : TaskStatus)
    → is_terminal_status st ≡ true
    → (q q' : Router) → Effect Q q q'
    → HasStatus id st q
    → HasStatus id st q'
Effect-HasStatus id st ends q q' (nothing e) h = rw e h
Effect-HasStatus id st ends q q' (created agent_id by m j now card fresh _ e) h =
    rw e (HasStatus-insert id st j _ q h (λ s found _. cc))
Effect-HasStatus id st ends q q' (wrote j s t found v _ e) h = rw e (
    HasStatus-insert id st j (record s { task = t }) q h
      (λ s' found'. frozen_at j st s s' t q ends v found found'))
Effect-HasStatus id st ends q q' (finished j s t found v _ _ e) h =
    rw (e, tasks-decrement)
      (HasStatus-insert id st j (record s { task = t }) q h
        (λ s' found'. frozen_at j st s s' t q ends v found found'))

-- A task whose status is terminal keeps it: whatever calls follow, with ids for new tasks that
-- were not in use, the router still gives a task for its id, and with the same status.
pub terminal_is_final :
    (r : Router) (cs : List Call) (id : String) (t : A2aTask)
    → AreFresh r cs
    → get_task r id ≡ some t
    → is_terminal_status t.status ≡ true
    → (t' : A2aTask) × (get_task (run r cs) id ≡ some t') × (t'.status ≡ t.status)
unfolding get_task
terminal_is_final r cs id t fresh h ends =
    let (s, found, same) = get_task-lookup r id t h in
    let (s', found', e) =
      run_induction (HasStatus id t.status) (Effect-HasStatus id t.status ends) r cs fresh
        (AllEnd-Unit r cs) (s, found, ap (λ (x : A2aTask). x.status) same) in
    (s'.task, rw (found', get_task), e)
