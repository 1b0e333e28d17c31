-- ===== src/A2a/Lifecycle/History.antt =====
-- The history of a task: it begins with SUBMITTED, follows the arrows of the state machine, and
-- ends in the status of the task.
use kalen.Prelude.{
  ℕ, String, ◌≡◌, refl, Option, List, [], ◌∷◌, ◌++◌, ◌≤◌, arith, length, length-append, ok, leb,
  Bool-cases, inl, inr, subst,
}
use kalen.Shared.Task.{TaskStatus, submitted, Artifact, Message, TaskStateTransition, A2aTask}
use kalen.A2a.Lifecycle.{
  TransitionResult, success, failure, transition_task, add_artifact, create_initial_task,
  max_artifacts_per_task,
}
use kalen.A2a.Lifecycle.Machine.{
  Arrow, Transitioned, same, moved, refused, transition_task-Transitioned,
}

-- from one status along the entries to another
abbrev pub Follows : TaskStatus → List TaskStateTransition → TaskStatus → Type 0
Follows s [] t = s ≡ t
Follows s (e ∷ es) t = Arrow s e.status × Follows e.status es t

abbrev pub IsTrace : List TaskStateTransition → TaskStatus → Type 0
IsTrace [] t = ⊥
IsTrace (e ∷ es) t = (e.status ≡ submitted) × Follows e.status es t

-- What every task that the package makes satisfies.
pub record IsLegal (task : A2aTask) : Type 0 where
  pub trace : IsTrace task.history task.status
  pub few_artifacts : length task.artifacts ≤ max_artifacts_per_task

Follows-append :
    (s : TaskStatus) (es : List TaskStateTransition) (e : TaskStateTransition) {t : TaskStatus}
    → Follows s es t
    → Arrow t e.status
    → Follows s (es ++ e ∷ []) e.status
Follows-append s [] e h a = (rw h a, refl)
Follows-append s (x ∷ es) e (b, h) a = (b, Follows-append x.status es e h a)

IsTrace-append :
    (es : List TaskStateTransition) (e : TaskStateTransition) {t : TaskStatus}
    → IsTrace es t
    → Arrow t e.status
    → IsTrace (es ++ e ∷ []) e.status
IsTrace-append [] e h a = absurd h
IsTrace-append (x ∷ es) e (p, h) a = (p, Follows-append x.status es e h a)

-- the task that a result carries
abbrev pub task_of : TransitionResult → A2aTask
task_of (success t) = t
task_of (failure t _ _ _) = t

pub Transitioned-IsLegal :
    {task : A2aTask} {s : TaskStatus} {m : Option String} {now : ℕ} {r : TransitionResult}
    → Transitioned task s m now r
    → IsLegal task
    → IsLegal (task_of r)
Transitioned-IsLegal (same e) h = h
Transitioned-IsLegal {task} {s} {m} {now} (moved a) h = record {
  trace =
      IsTrace-append task.history (record { status = s; message = m; timestamp = now }) h.trace a;
  few_artifacts = h.few_artifacts;
}
Transitioned-IsLegal (refused n a) h = h

-- The task that `transitionTask` gives back is legal if the one that it was given is.
pub transition_task-IsLegal :
    (task : A2aTask) (s : TaskStatus) (m : Option String) (now : ℕ)
    → IsLegal task
    → IsLegal (task_of (transition_task task s m now))
transition_task-IsLegal task s m now h =
    Transitioned-IsLegal (transition_task-Transitioned task s m now) h

pub create_initial_task-IsLegal :
    (id created_by : String) (assigned : Option String) (first : Option Message) (now : ℕ)
    → IsLegal (create_initial_task id created_by assigned first now)
unfolding create_initial_task
create_initial_task-IsLegal id created_by assigned first now = record {
  trace = (refl, refl);
  few_artifacts = omega arith;
}

pub add_artifact-IsLegal :
    (task t : A2aTask) (a : Artifact) (now : ℕ)
    → IsLegal task
    → add_artifact task a now ≡ ok t
    → IsLegal t
unfolding add_artifact
add_artifact-IsLegal task t a now h e =
    elim (Bool-cases (leb max_artifacts_per_task (length task.artifacts))) [
      | inl full ↦ cc (full)
      | inr room ↦
          let made : record task { artifacts = task.artifacts ++ a ∷ []; updated_at = now } ≡ t =
            ground arith in
          subst IsLegal made (record {
            trace = h.trace;
            few_artifacts = ground (arith, length-append task.artifacts (a ∷ []));
          })
    ]
