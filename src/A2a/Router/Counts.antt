-- ===== src/A2a/Router/Counts.antt =====
-- The number of concurrent tasks that the router keeps for each agent, against the tasks that it
-- stores.
use kalen.Prelude.{
  ℕ, ◌+◌, ◌-◌, ◌≤◌, ◌<◌, String, ◌≡◌, refl, ◌≢◌, not, ◌&&◌, ◌⊎◌, Option, none, some, List, arith,
  ◌==◌, eq_iff, Bool-cases, inl, inr, true, false, Bool, ap, sym, ◌∙◌, if◌then◌else◌, to_ℕ,
}
use kalen.Prelude.Dict.{lookup, insert, lookup-insert, count, count-insert_new, count-insert_old}
use kalen.Shared.Task.{Message, A2aTask}
use kalen.A2a.Lifecycle.{is_terminal_status}
use kalen.A2a.Cards.{CardService}
use kalen.A2a.Router.Evolves.{Evolves}
use kalen.A2a.Router.Effects.{Effect, nothing, created, wrote, finished}
use kalen.A2a.Router.Induction.{AreFresh, AllEnd, AllEnd-Unit, run_induction}
use kalen.Shared.Card.{AgentCard}
use kalen.A2a.Router.Tasks.{tasks-decrement}
use kalen.A2a.Router.{
  Config, new_router, Router, StoredTask, opt_eq, task_count, new_task, decrement_agent_task_count,
  write_task,
}
use kalen.A2a.Router.Calls.{Call, run}

-- a task of the agent that has not ended
abbrev pub is_live : String → StoredTask → Bool
is_live a s = opt_eq s.task.assigned_agent_id a && not (is_terminal_status s.task.status)

-- how many tasks of the agent have not ended
unfoldable pub live_tasks : Router → String → ℕ
live_tasks r a = count (is_live a) r.tasks

-- One effect on the two numbers: each grows by one, each stays, or each loses at most one.
created_numbers :
    (r : Router) (a b by : String) (m : Message) (id : String) (now : ℕ) (s : StoredTask)
    → lookup id r.tasks ≡ none
    → s.task ≡ new_task id b by m now
    → count (is_live a) (insert id s r.tasks) ≡ live_tasks r a + to_ℕ (b == a)
unfolding live_tasks is_terminal_status
created_numbers r a b by m id now s fresh e = ground (
  arith,
  count-insert_new (is_live a) id s r.tasks,
  ap is_terminal_status (ap (λ (x : A2aTask). x.status) e),
  ap (λ (x : A2aTask). x.assigned_agent_id) e,
)

wrote_numbers :
    (r : Router) (a id : String) (s : StoredTask) (t : A2aTask)
    → lookup id r.tasks ≡ some s
    → Evolves s.task t
    → is_terminal_status t.status ≡ is_terminal_status s.task.status
    → live_tasks (write_task r id s t) a ≡ live_tasks r a
unfolding live_tasks
wrote_numbers r a id s t found v e =
    ground (arith, count-insert_old (is_live a) id (record s { task = t }) s r.tasks, v.same_agent)

finished_numbers :
    (r : Router) (a id : String) (s : StoredTask) (t : A2aTask)
    → lookup id r.tasks ≡ some s
    → is_terminal_status t.status ≡ true
    → live_tasks (write_task r id s t) a + to_ℕ (is_live a s) ≡ live_tasks r a
unfolding live_tasks
finished_numbers r a id s t found e =
    ground (arith, count-insert_old (is_live a) id (record s { task = t }) s r.tasks)

task_count-insert :
    (r : Router) (a b : String) (n : ℕ)
    → task_count (record r { agent_task_counts = insert b n r.agent_task_counts }) a
      ≡ (if b == a then n else task_count r a)
unfolding task_count
task_count-insert r a b n = ground (arith, lookup-insert b a n r.agent_task_counts)

pub task_count-decrement :
    (r : Router) (a : String) (o : Option String)
    → a ≢ ""
    → task_count (decrement_agent_task_count r o) a
      ≡ (if opt_eq o a then task_count r a - 1 else task_count r a)
unfolding decrement_agent_task_count task_count
task_count-decrement r a none n = refl
task_count-decrement r a (some b) n =
    ground
      (arith, eq_iff b "", eq_iff b a, lookup-insert b a (task_count r b - 1) r.agent_task_counts)

pub task_count-write_task :
    (r : Router) (a id : String) (s : StoredTask) (t : A2aTask)
    → task_count (write_task r id s t) a ≡ task_count r a
unfolding task_count
task_count-write_task r a id s t = refl

live_tasks-decrement :
    (r : Router) (a : String) (o : Option String)
    → live_tasks (decrement_agent_task_count r o) a ≡ live_tasks r a
unfolding live_tasks
live_tasks-decrement r a o = rw tasks-decrement

-- What an effect does to the two numbers of a named agent: both grow by one, where the limit is
-- not reached; both stay; or a task ends, and the counter loses one though the task may have ended
-- before.
data Numbers (Q : Type 0) (max n live n' live' : ℕ) : Type 0 where
  grow : n < max → n' ≡ n + 1 → live' ≡ live + 1 → Numbers Q max n live n' live'
  stay : n' ≡ n → live' ≡ live → Numbers Q max n live n' live'
  fall : n' ≡ n - 1 → live' + 1 ≡ live → Numbers Q max n live n' live'
  again : Q → n' ≡ n - 1 → live' ≡ live → Numbers Q max n live n' live'

abbrev Counted : Type 0 → String → Router → Router → Type 0
Counted Q a q q' =
    Numbers Q q.config.max_tasks_per_agent (task_count q a) (live_tasks q a) (task_count q' a)
      (live_tasks q' a)

created-Counted :
    {Q : Type 0} (q : Router) (a b by : String) (m : Message) (id : String) (now : ℕ)
    (card : Option AgentCard)
    → lookup id q.tasks ≡ none
    → task_count q b < q.config.max_tasks_per_agent
    → Counted Q a q (record q {
      tasks = insert id (record { task = new_task id b by m now; assigned_card = card }) q.tasks;
      agent_task_counts = insert b (task_count q b + 1) q.agent_task_counts;
    })
unfolding task_count live_tasks
created-Counted q a b by m id now card fresh room =
    let s : StoredTask = record { task = new_task id b by m now; assigned_card = card } in
    let counter = task_count-insert q a b (task_count q b + 1) in
    let live = created_numbers q a b by m id now s fresh refl in
    elim (Bool-cases (b == a)) [
      | inl e ↦
          let same : b ≡ a = (eq_iff b a).0 e in
          grow (ground (arith)) (ground (arith, counter)) (ground (arith, live))
      | inr d ↦ stay (ground (arith, counter)) (ground (arith, live))
    ]

finished-Counted :
    {Q : Type 0} (q : Router) (a id : String) (s : StoredTask) (t : A2aTask)
    → a ≢ ""
    → lookup id q.tasks ≡ some s
    → Evolves s.task t
    → is_terminal_status t.status ≡ true
    → (is_terminal_status s.task.status ≡ false) ⊎ Q
    → Counted Q a q (decrement_agent_task_count (write_task q id s t) t.assigned_agent_id)
finished-Counted q a id s t n found v ends may =
    let w : Router = write_task q id s t in
    let counter = task_count-decrement w a t.assigned_agent_id n in
    let before = task_count-write_task q a id s t in
    let other = live_tasks-decrement w a t.assigned_agent_id in
    let live = finished_numbers q a id s t found ends in
    let agent = ap (λ o. opt_eq o a) v.same_agent in
    elim (Bool-cases (opt_eq t.assigned_agent_id a)) [
      | inr theirs ↦ stay (ground arith) (ground arith)
      | inl ours ↦ elim (Bool-cases (is_terminal_status s.task.status)) [
        | inr open' ↦ fall (ground arith) (ground arith)
        | inl ended ↦ elim may [ inl open' ↦ cc | inr q' ↦ again q' (ground arith) (ground arith) ]
      ]
    ]

Effect-Counted :
    {Q : Type 0} (a : String) → a ≢ "" → (q q' : Router) → Effect Q q q' → Counted Q a q q'
Effect-Counted a n q q' (nothing e) = rw e (stay refl refl)
Effect-Counted a n q q' (created b by m id now card fresh room e) =
    rw e (created-Counted q a b by m id now card fresh room)
Effect-Counted a n q q' (wrote id s t found v same e) =
    rw e (stay (task_count-write_task q a id s t) (wrote_numbers q a id s t found v same))
Effect-Counted a n q q' (finished id s t found v ends may e) =
    rw e (finished-Counted q a id s t n found v ends may)

config-decrement :
    (r : Router) (o : Option String) → (decrement_agent_task_count r o).config ≡ r.config
unfolding decrement_agent_task_count
config-decrement r none = refl
config-decrement r (some a) = ground arith

Effect-config : {Q : Type 0} (q q' : Router) → Effect Q q q' → q'.config ≡ q.config
Effect-config q q' (nothing e) = rw e
Effect-config q q' (created _ _ _ _ _ _ _ _ e) = rw e
Effect-config q q' (wrote _ _ _ _ _ _ e) = rw e
Effect-config q q' (finished id s t _ _ _ _ e) = rw e (config-decrement _ _)

-- the counter never exceeds the tasks that it is to count
abbrev NotOver : String → Router → Type 0
NotOver a r = task_count r a ≤ live_tasks r a

Numbers-NotOver :
    {Q : Type 0} {max n live n' live' : ℕ} → Numbers Q max n live n' live' → n ≤ live → n' ≤ live'
Numbers-NotOver (grow _ p q) h = omega arith
Numbers-NotOver (stay p q) h = omega arith
Numbers-NotOver (fall p q) h = omega arith
Numbers-NotOver (again _ p q) h = omega arith

-- the counter is exact and within the limit
abbrev Exact : String → ℕ → Router → Type 0
Exact a max r =
    (r.config.max_tasks_per_agent ≡ max)
    × (task_count r a ≡ live_tasks r a)
    × (live_tasks r a ≤ max)

Numbers-Exact :
    {max n live n' live' : ℕ}
    → Numbers ⊥ max n live n' live'
    → n ≡ live
    → live ≤ max
    → (n' ≡ live') × (live' ≤ max)
Numbers-Exact (grow r p q) e h = omega arith
Numbers-Exact (stay p q) e h = omega arith
Numbers-Exact (fall p q) e h = omega arith
Numbers-Exact (again no' p q) e h = absurd no'

new_router_numbers :
    (cards : CardService) (config : Config) (a : String)
    → (task_count (new_router cards config) a ≡ 0) × (live_tasks (new_router cards config) a ≡ 0)
unfolding task_count live_tasks count
new_router_numbers cards config a = (refl, refl)

-- No call ends a task that has already ended.
abbrev pub NoneEndsTwice : Router → List Call → Type 0
NoneEndsTwice = AllEnd ⊥

-- Whatever calls a new router has had, with ids for its new tasks that were not in use: if no
-- call ended a task that had already ended, then for each agent with a name the router's counter
-- is the number of the agent's tasks that have not ended, and that number is within the limit.
pub live_tasks-le-limit :
    (cards : CardService) (config : Config) (cs : List Call) (a : String)
    → a ≢ ""
    → AreFresh (new_router cards config) cs
    → NoneEndsTwice (new_router cards config) cs
    → (task_count (run (new_router cards config) cs) a
        ≡ live_tasks (run (new_router cards config) cs) a)
      × (live_tasks (run (new_router cards config) cs) a ≤ config.max_tasks_per_agent)
live_tasks-le-limit cards config cs a n fresh ends =
    let (zero', zero'') = new_router_numbers cards config a in
    let (_, exact, within) =
      run_induction (Exact a config.max_tasks_per_agent) keep (new_router cards config) cs fresh
        ends (refl, zero' ∙ sym zero'', omega arith) in
    (exact, within)
  where
    keep :
        (q q' : Router)
        → Effect ⊥ q q'
        → Exact a config.max_tasks_per_agent q
        → Exact a config.max_tasks_per_agent q'
    keep q q' e (limit, exact, within) =
        let limit' = ap (λ (c : Config). c.max_tasks_per_agent) (Effect-config q q' e) ∙ limit in
        let (exact', within') = Numbers-Exact (Effect-Counted a n q q' e) exact (omega arith) in
        (limit', exact', omega arith)

-- Whatever calls a new router has had, with ids for its new tasks that were not in use, the
-- counter of an agent with a name is at most the number of the agent's tasks that have not ended.
pub task_count-le-live_tasks :
    (cards : CardService) (config : Config) (cs : List Call) (a : String)
    → a ≢ ""
    → AreFresh (new_router cards config) cs
    → task_count (run (new_router cards config) cs) a
      ≤ live_tasks (run (new_router cards config) cs) a
task_count-le-live_tasks cards config cs a n fresh =
    let (zero', zero'') = new_router_numbers cards config a in
    run_induction (NotOver a) (λ q q' e. Numbers-NotOver (Effect-Counted a n q q' e))
      (new_router cards config) cs fresh (AllEnd-Unit (new_router cards config) cs)
      (omega (arith, zero', zero''))
