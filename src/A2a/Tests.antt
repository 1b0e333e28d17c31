-- ===== src/A2a/Tests.antt =====
-- Runs of the router on small inputs, and the theorems applied to them.
use kalen.Prelude.{
  ◌+◌, replicate, ◌≤◌, ◌-◌, ◌≡◌, refl, ◌≢◌, String, none, some, [], ◌∷◌, List, ok, err, eq_iff,
  arith, inl,
}
use kalen.Prelude.Dict.{lookup, insert, count}
use kalen.Shared.Task.{submitted, working, completed, canceled, Message, user, A2aTask}
use kalen.A2a.Lifecycle.{transition_task, max_messages_per_task, is_terminal_status}
use kalen.A2a.Lifecycle.Machine.{Transitioned, transition_task-Transitioned}
use kalen.A2a.Lifecycle.History.{IsLegal}
use kalen.A2a.Cards.{no_cards}
use kalen.A2a.Router.{
  Config, Router, StoredTask, task_limit, task_not_found, new_router, default_config, new_task,
  get_task, task_count, create_task, delegate_task, cancel_task, delegation_note,
  transition_router_task,
}
use kalen.A2a.Router.Calls.{
  Call, create, cancel, delegate, transition, step, run, step_error_unchanged,
}
use kalen.A2a.Router.Tasks.{get_task-IsLegal}
use kalen.A2a.Router.Final.{terminal_is_final}
use kalen.A2a.Router.Counts.{live_tasks, live_tasks-le-limit}
use kalen.A2a.Router.Delegation.{delegate_task_lem}
use kalen.A2a.Router.Repeats.{transition_again}

abbrev hello : Message
hello = record { role = user; parts = []; timestamp = 5 }

-- a router that lets an agent have one task
abbrev small : Config
small = record { discovery_cache_ttl = 300; max_tasks_per_agent = 1; task_timeout = 300000 }

abbrev fresh_router : Router
fresh_router = new_router no_cards small

abbrev calls : List Call
calls =
    create "a" "u" hello "t1" 10
    ∷ transition "t1" working none 20
    ∷ delegate "t1" "b" hello "t2" 30
    ∷ transition "t1" completed (some "done") 40
    ∷ create "a" "u" hello "t3" 50
    ∷ []

opened : Unit {0}
unfolding lookup insert count step run get_task task_count live_tasks create_task delegate_task
    cancel_task transition_router_task is_terminal_status
opened = tt

calls_tests :
    (task_count (run fresh_router calls) "a" ≡ 1)
    × (live_tasks (run fresh_router calls) "a" ≡ 1)
    × (live_tasks (run fresh_router calls) "b" ≡ 1)
    × ((step (run fresh_router calls) (create "a" "u" hello "t4" 60)).0 ≡ err (task_limit "a" 1))
unfolding opened
calls_tests = (refl, refl, refl, refl)

-- With a limit of one task the agent has two: the task "t1" was canceled twice.
abbrev twice : List Call
twice =
    create "a" "u" hello "t1" 10
    ∷ cancel "t1" "u" none 20
    ∷ create "a" "u" hello "t2" 30
    ∷ cancel "t1" "u" none 40
    ∷ create "a" "u" hello "t3" 50
    ∷ []

limit_exceeded :
    (live_tasks (run fresh_router twice) "a" ≡ 2) × (task_count (run fresh_router twice) "a" ≡ 1)
unfolding opened
limit_exceeded = (refl, refl)

a_named : ◌≢◌ {A = String} "a" ""
a_named = ground (arith, eq_iff "a" "")

transition_task-Transitioned_example :
    Transitioned
      (new_task "t1" "a" "u" hello 10)
      completed
      none
      20
      (transition_task (new_task "t1" "a" "u" hello 10) completed none 20)
transition_task-Transitioned_example =
    transition_task-Transitioned (new_task "t1" "a" "u" hello 10) completed none 20

step_error_unchanged_example :
    (step (run fresh_router calls) (cancel "t9" "u" none 60)).1 ≡ run fresh_router calls
unfolding opened
step_error_unchanged_example =
    step_error_unchanged (run fresh_router calls) (cancel "t9" "u" none 60) (task_not_found "t9")
      refl

live_tasks-le-limit_example :
    (task_count (run fresh_router calls) "a" ≡ live_tasks (run fresh_router calls) "a")
    × (live_tasks (run fresh_router calls) "a" ≤ 1)
unfolding opened
live_tasks-le-limit_example =
    live_tasks-le-limit no_cards small calls "a" a_named (refl, (tt, (refl, (tt, (refl, tt)))))
      (tt, ((λ h. cc), (tt, ((λ h s e. inl (ground arith)), (tt, tt)))))

abbrev t1_after : A2aTask
t1_after = record (new_task "t1" "a" "u" hello 10) {
  status = working;
  status_message = none;
  history =
      record { status = submitted; message = some "Task created"; timestamp = 10 }
      ∷ record { status = working; message = none; timestamp = 20 }
      ∷ [];
  updated_at = 20;
}

abbrev start : List Call
start = create "a" "u" hello "t1" 10 ∷ transition "t1" working none 20 ∷ []

get_task-IsLegal_example : IsLegal t1_after
unfolding opened
get_task-IsLegal_example = get_task-IsLegal no_cards small start "t1" t1_after (refl, (tt, tt)) refl

abbrev canceled_t1 : Router
canceled_t1 = run fresh_router (create "a" "u" hello "t1" 10 ∷ cancel "t1" "u" (some "no") 20 ∷ [])

abbrev t1_canceled : A2aTask
t1_canceled = record (new_task "t1" "a" "u" hello 10) {
  status = canceled;
  status_message = some "no";
  history =
      record { status = submitted; message = some "Task created"; timestamp = 10 }
      ∷ record { status = canceled; message = some "no"; timestamp = 20 }
      ∷ [];
  updated_at = 20;
}

terminal_is_final_example :
    (t' : A2aTask) × (get_task (run canceled_t1 (transition "t1" working none 30 ∷ [])) "t1"
      ≡ some t')
    × (t'.status ≡ canceled)
unfolding opened
terminal_is_final_example =
    terminal_is_final canceled_t1 (transition "t1" working none 30 ∷ []) "t1" t1_canceled (tt, tt)
      refl refl

-- two tasks of one agent, of which the first has been cancelled
abbrev one_of_two : Router
one_of_two = run (new_router no_cards default_config) (
    create "a" "u" hello "t1" 10
    ∷ create "a" "u" hello "t2" 15
    ∷ cancel "t1" "u" (some "no") 20
    ∷ [])

repeat_tests :
    (task_count one_of_two "a" ≡ 1)
    × (task_count (transition_router_task one_of_two "t1" canceled none 30).1 "a" ≡ 0)
    × (task_count (transition_router_task canceled_t1 "t1" canceled none 30).1 "a" ≡ 0)
unfolding opened
repeat_tests = (refl, refl, refl)

transition_again_example :
    let (answer, r') = transition_router_task one_of_two "t1" canceled none 30 in
    (answer ≡ ok t1_canceled)
    × ((j : String) → get_task r' j ≡ get_task one_of_two j)
    × (task_count r' "a" ≡ task_count one_of_two "a" - 1)
unfolding opened
transition_again_example =
    transition_again one_of_two "t1" (record { task = t1_canceled; assigned_card = none }) none 30
      "a" refl refl refl a_named

abbrev t1_working : StoredTask
t1_working = record { task = t1_after; assigned_card = none }

delegate_task_lem_example :
    let task = new_task "t2" "b" "a" hello 30 in
    let (answer, r') = delegate_task (run fresh_router start) "t1" "b" hello "t2" 30 in
    (answer ≡ ok task)
    × (get_task r' "t2" ≡ some task)
    × (get_task r' "t1"
        ≡ some (record t1_after {
          messages = hello ∷ delegation_note "b" "t2" 30 ∷ [];
          updated_at = 30;
        }))
    × ((j : String) → j ≢ "t2" → j ≢ "t1" → get_task r' j ≡ get_task (run fresh_router start) j)
    × (task_count r' "b" ≡ task_count (run fresh_router start) "b" + 1)
unfolding opened
delegate_task_lem_example =
    delegate_task_lem (run fresh_router start) t1_working "t1" "b" "t2" hello 30 refl refl
      (omega arith)

-- a task with as many messages as the limit
abbrev full_task : StoredTask
full_task = record {
  task = record t1_after { messages = replicate max_messages_per_task hello };
  assigned_card = none;
}

abbrev full_router : Router
full_router = record fresh_router { tasks = ("t1", full_task) ∷ [] }
