-- ===== src/A2a/Lifecycle/Machine.antt =====
-- The state machine of tasks as a relation, in the words of the comment above the class, and the
-- table `VALID_TRANSITIONS` against it.
use kalen.Prelude.{
  ℕ, String, ◌≡◌, refl, ap, ◌≢◌, ◌↔◌, inl, inr, true, false, Option, [], ◌∷◌, ◌++◌, arith,
  Bool-cases,
}
use kalen.Shared.Task.{
  TaskStatus, submitted, working, completed, failed, canceled, input_required, status_eq,
  valid_transitions, includes, A2aTask,
}
use kalen.A2a.Lifecycle.{
  TransitionResult, success, failure, transition_task, is_terminal_status, get_valid_transitions,
}

-- The arrows of the diagram.
pub data Arrow : TaskStatus → TaskStatus → Type 0 where
  submitted→working : Arrow submitted working
  working→completed : Arrow working completed
  working→failed : Arrow working failed
  working→canceled : Arrow working canceled
  working→input_required : Arrow working input_required
  input_required→working : Arrow input_required working
  input_required→canceled : Arrow input_required canceled
  submitted→canceled : Arrow submitted canceled
  submitted→failed : Arrow submitted failed

pub Arrow-includes : {s t : TaskStatus} → Arrow s t → includes (get_valid_transitions s) t ≡ true
unfolding get_valid_transitions
Arrow-includes submitted→working = refl
Arrow-includes _ = refl

pub includes-Arrow : (s t : TaskStatus) → includes (get_valid_transitions s) t ≡ true → Arrow s t
unfolding get_valid_transitions
includes-Arrow submitted working h = submitted→working
includes-Arrow submitted canceled h = submitted→canceled
includes-Arrow submitted failed h = submitted→failed
includes-Arrow working completed h = working→completed
includes-Arrow working failed h = working→failed
includes-Arrow working canceled h = working→canceled
includes-Arrow working input_required h = working→input_required
includes-Arrow input_required working h = input_required→working
includes-Arrow input_required canceled h = input_required→canceled
includes-Arrow _ _ h = cc

pub Arrow-source : {s t : TaskStatus} → Arrow s t → is_terminal_status s ≡ false
unfolding is_terminal_status
Arrow-source submitted→working = refl
Arrow-source _ = refl

has_exit : (s : TaskStatus) → is_terminal_status s ≡ false → (t : TaskStatus) × Arrow s t
unfolding is_terminal_status
has_exit submitted h = (working, submitted→working)
has_exit working h = (completed, working→completed)
has_exit input_required h = (working, input_required→working)
has_exit _ h = cc

-- A status is terminal exactly when no arrow of the diagram leaves it.
pub is_terminal_status_iff :
    (s : TaskStatus) → (is_terminal_status s ≡ true) ↔ ((t : TaskStatus) → ¬ Arrow s t)
is_terminal_status_iff s = (
  λ h t a. cc (Arrow-source a),
  λ stuck. elim (Bool-cases (is_terminal_status s)) [
    | inl yes' ↦ yes'
    | inr open' ↦ let (t, a) = has_exit s open' in absurd (stuck t a)
  ],
)

-- What a transition may do to a task: nothing where the status is the one asked for; a move along
-- an arrow, which is written to the history; or a refusal.
pub data Transitioned (task : A2aTask) (s : TaskStatus) (m : Option String) (now : ℕ)
    : TransitionResult → Type 0 where
  same : task.status ≡ s → Transitioned task s m now (success task)
  moved :
      Arrow task.status s
      → Transitioned task s m now (
          success (record task {
            status = s;
            status_message = m;
            history = task.history ++ record { status = s; message = m; timestamp = now } ∷ [];
            updated_at = now;
          }))
  refused :
      task.status ≢ s
      → ¬ Arrow task.status s
      → Transitioned task s m now (failure task task.status s (get_valid_transitions task.status))

status_eq→≡ : (s t : TaskStatus) → status_eq s t ≡ true → s ≡ t
status_eq→≡ s t h = ground arith

pub status_eq_refl : (s : TaskStatus) → status_eq s s ≡ true
status_eq_refl submitted = refl
status_eq_refl _ = refl

-- Every transition of a task either changes nothing, where the task has the status asked for
-- already; or goes along an arrow of the diagram above the class and sets the status, its
-- message, the time of update and one new history entry; or is refused, where the status is
-- another and no arrow leads to it, with the task unchanged and the table's list of allowed
-- statuses.
pub transition_task-Transitioned :
    (task : A2aTask) (s : TaskStatus) (m : Option String) (now : ℕ)
    → Transitioned task s m now (transition_task task s m now)
unfolding transition_task get_valid_transitions
transition_task-Transitioned task s m now = elim (Bool-cases (status_eq task.status s)) [
  | inl e ↦ rw e (same (status_eq→≡ task.status s e))
  | inr d ↦ rw d (elim (Bool-cases (includes (valid_transitions task.status) s)) [
    | inl i ↦ rw i (moved (includes-Arrow task.status s i))
    | inr o ↦ rw o (
        refused (λ p. cc (d, ap (status_eq task.status) p, status_eq_refl task.status))
          (λ a. cc (o, Arrow-includes a)))
  ])
]
