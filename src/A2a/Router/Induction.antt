-- ===== src/A2a/Router/Induction.antt =====
-- Induction on the calls of a run: what every effect keeps holds at its end.
use kalen.Prelude.{◌≡◌, none, List, [], ◌∷◌, inr, true}
use kalen.Prelude.Dict.{lookup}
use kalen.A2a.Lifecycle.{is_terminal_status}
use kalen.A2a.Router.{Router}
use kalen.A2a.Router.Calls.{
  Call, create, delegate, cancel, transition, add_message, add_artifact, step, run,
}
use kalen.A2a.Router.Effects.{
  Effect, Effects, one, two, MayEnd, create_task-Effect, delegate_task-Effects, cancel_task-Effect,
  transition_router_task-Effect, add_task_message-Effect, add_task_artifact-Effect,
}

-- The id that a call is given for a new task is not one of a stored task.
abbrev pub IsFresh : Router → Call → Type 0
IsFresh r (create _ _ _ id _) = lookup id r.tasks ≡ none
IsFresh r (delegate _ _ _ id _) = lookup id r.tasks ≡ none
IsFresh r _ = Unit

abbrev pub AreFresh : Router → List Call → Type 0
AreFresh r [] = Unit
AreFresh r (c ∷ cs) = IsFresh r c × AreFresh (step r c).1 cs

abbrev pub Ends : Type 0 → Router → Call → Type 0
Ends Q r (cancel task_id _ _ _) = MayEnd Q r task_id
Ends Q r (transition task_id s _ _) = is_terminal_status s ≡ true → MayEnd Q r task_id
Ends Q r _ = Unit

abbrev pub AllEnd : Type 0 → Router → List Call → Type 0
AllEnd Q r [] = Unit
AllEnd Q r (c ∷ cs) = Ends Q r c × AllEnd Q (step r c).1 cs

Ends-Unit : (r : Router) (c : Call) → Ends Unit r c
Ends-Unit r (cancel _ _ _ _) = λ s found. inr tt
Ends-Unit r (transition _ _ _ _) = λ ends s found. inr tt
Ends-Unit r _ = tt

pub AllEnd-Unit : (r : Router) (cs : List Call) → AllEnd Unit r cs
AllEnd-Unit r [] = tt
AllEnd-Unit r (c ∷ cs) = (Ends-Unit r c, AllEnd-Unit (step r c).1 cs)

pub step-Effects :
    {Q : Type 0} (r : Router) (c : Call) → IsFresh r c → Ends Q r c → Effects Q r (step r c).1
unfolding step
step-Effects r (create agent_id by m id now) fresh _ =
    one (create_task-Effect r agent_id by m id now fresh)
step-Effects r (delegate task_id target m id now) fresh _ =
    delegate_task-Effects r task_id target m id now fresh
step-Effects r (cancel task_id by reason now) _ may =
    one (cancel_task-Effect r task_id by reason now may)
step-Effects r (transition task_id s m now) _ may =
    one (transition_router_task-Effect r task_id s m now may)
step-Effects r (add_message task_id m now) _ _ = one (add_task_message-Effect r task_id m now)
step-Effects r (add_artifact task_id a now) _ _ = one (add_task_artifact-Effect r task_id a now)

-- What every effect keeps holds after any calls.
pub run_induction :
    {Q : Type 0} (P : Router → Type 0)
    → ((q q' : Router) → Effect Q q q' → P q → P q')
    → (r : Router) (cs : List Call) → AreFresh r cs
    → AllEnd Q r cs
    → P r
    → P (run r cs)
unfolding run
run_induction P keep r [] fresh may h = h
run_induction {Q} P keep r (c ∷ cs) (f, fresh) (m, may) h =
    run_induction P keep (step r c).1 cs fresh may (both (step-Effects r c f m))
  where
    both : Effects Q r (step r c).1 → P (step r c).1
    both (one e) = keep r _ e h
    both (two q e e') = keep q _ e' (keep r q e h)
