-- ===== src/A2a/Router/Evolves.antt =====
-- How a call may change one stored task.
use Prim.Native.String.{String}
use kalen.Prelude.{ℕ, ◌≡◌, refl, Option, Bool-cases, inl, inr, true, false, ap, subst}
use kalen.Shared.Task.{TaskStatus, A2aTask}
use kalen.A2a.Lifecycle.{TransitionResult, success, transition_task, is_terminal_status}
use kalen.A2a.Lifecycle.Machine.{
  Transitioned, same, moved, refused, transition_task-Transitioned, Arrow-source,
}
use kalen.A2a.Lifecycle.History.{IsLegal, task_of, Transitioned-IsLegal}

-- How a stored task may change.
pub record Evolves (s t : A2aTask) : Type 0 where
  pub same_agent : t.assigned_agent_id ≡ s.assigned_agent_id
  pub legal : IsLegal s → IsLegal t
  pub frozen : is_terminal_status s.status ≡ true → t.status ≡ s.status

Transitioned-Evolves :
    {task : A2aTask} {s : TaskStatus} {m : Option String} {now : ℕ} {r : TransitionResult}
    → Transitioned task s m now r
    → Evolves task (task_of r)
Transitioned-Evolves (same e) = record { same_agent = refl; legal = λ h. h; frozen = λ h. refl }
Transitioned-Evolves (moved a) = record {
  same_agent = refl;
  legal = Transitioned-IsLegal (moved a);
  frozen = λ h. cc (Arrow-source a);
}
Transitioned-Evolves (refused n a) = record {
  same_agent = refl;
  legal = λ h. h;
  frozen = λ h. refl;
}

pub success-Evolves :
    (task : A2aTask) (s : TaskStatus) (m : Option String) (now : ℕ) (t : A2aTask)
    → transition_task task s m now ≡ success t
    → Evolves task t
success-Evolves task s m now t e =
    subst (Evolves task) (ap task_of e)
      (Transitioned-Evolves (transition_task-Transitioned task s m now))

abbrev status_of : TransitionResult → TaskStatus → TaskStatus
status_of (success t) s = t.status
status_of _ s = s

Transitioned-status :
    {task : A2aTask} {s : TaskStatus} {m : Option String} {now : ℕ} {r : TransitionResult}
    → Transitioned task s m now r
    → status_of r s ≡ s
Transitioned-status (same e) = e
Transitioned-status (moved a) = refl
Transitioned-status (refused n a) = refl

pub success-status :
    (task : A2aTask) (s : TaskStatus) (m : Option String) (now : ℕ) (t : A2aTask)
    → transition_task task s m now ≡ success t
    → t.status ≡ s
success-status task s m now t e =
    rw e at (Transitioned-status (transition_task-Transitioned task s m now))

-- a task that changes only in what its status and history do not speak of
pub edited :
    (s t : A2aTask)
    → t.assigned_agent_id ≡ s.assigned_agent_id
    → t.status ≡ s.status
    → (IsLegal s → IsLegal t)
    → Evolves s t
edited s t a e l = record { same_agent = a; legal = l; frozen = λ _. e }

pub success-terminal :
    (task : A2aTask) (s : TaskStatus) (m : Option String) (now : ℕ) (t : A2aTask)
    → transition_task task s m now ≡ success t
    → is_terminal_status t.status ≡ is_terminal_status s
success-terminal task s m now t e = ap is_terminal_status (success-status task s m now t e)

pub Evolves-terminal :
    (s t : A2aTask)
    → Evolves s t
    → is_terminal_status t.status ≡ false
    → is_terminal_status t.status ≡ is_terminal_status s.status
Evolves-terminal s t v h = elim (Bool-cases (is_terminal_status s.status)) [
  | inl e ↦ cc (ap is_terminal_status (v.frozen e))
  | inr e ↦ cc
]
