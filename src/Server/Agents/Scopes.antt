-- ===== src/Server/Agents/Scopes.antt =====
-- The scopes and the role of a new agent, and the role that the guard reads from its token.
use kalen.Prelude.{
  ◌≤◌, String, ◌≡◌, ◌↔◌, refl, ◌∙◌, Bool, true, false, List, [], ◌∷◌, any, length, ltb, arith,
  if◌then◌else◌, Option,
}
use kalen.Shared.Text.{Units, units}
use kalen.Identity.Roles.{Role, agent_basic, agent_privileged}
use kalen.Identity.Token.{strings}
use kalen.Identity.Token.Trips.{agent_read}
use kalen.Identity.Agents.{Created}
use kalen.Server.Accounts as Accounts
use kalen.Server.Guards.{count_items, resolve_role}
use kalen.Server.Guards.Admission.{role_agent, agent_role}
use kalen.Server.Agents.{
  Capabilities, starts_with, infer_scopes, is_some_row, requested_skills, requested_tools, row_of,
}

-- whether a skill begins with "code."
abbrev pub writes_code : List Units → Bool
writes_code skills = any (λ s. starts_with s (units "code.")) skills

-- the role of the guards that a role of the table stands for
abbrev pub guard_role : Accounts.AgentRole → Role
guard_role Accounts.agent_basic = agent_basic
guard_role Accounts.agent_privileged = agent_privileged

count_strings : (ss : List String) → count_items (strings ss) ≡ length ss
unfolding count_items
count_strings [] = refl
count_strings (s ∷ ss) = ground (arith, count_strings ss)

writes_code-some : (skills : List Units) → writes_code skills ≡ true → is_some_row skills ≡ true
writes_code-some [] h = ground (arith, h)
writes_code-some (s ∷ ss) h = refl

length-infer_scopes :
    (skills tools : List Units)
    → (length (infer_scopes skills tools) ≤ 6)
      × (ltb 5 (length (infer_scopes skills tools)) ≡ writes_code skills)
unfolding infer_scopes
length-infer_scopes skills tools = ground (arith, writes_code-some skills)

privileged_iff :
    (b w : Bool)
    → b ≡ w
    → ((if b then Accounts.agent_privileged else Accounts.agent_basic) ≡ Accounts.agent_privileged)
      ↔ (w ≡ true)
privileged_iff true w h = (λ _. ground (arith, h), λ _. refl)
privileged_iff false w h = (λ e. absurd (ground (arith, e)), λ e. absurd (ground (arith, e, h)))

role_of_strings :
    (ss : List String)
    → agent_role (strings ss)
      ≡ guard_role (if ltb 5 (length ss) then Accounts.agent_privileged else Accounts.agent_basic)
unfolding agent_role
role_of_strings ss = rw (count_strings ss) (ground arith)

-- A new agent has at most six scopes; it is privileged exactly if one of its skills begins with
-- "code.", and the guard reads the same role from the number of scopes in its token.
pub new_agent_role :
    {Token : Type 0} (c : Created Token) (owner_id : String) (name key hex : Units)
    (capabilities : Option Capabilities)
    → let a = row_of c owner_id name key hex capabilities in
      (length a.scopes ≤ 6)
      × ((a.role ≡ Accounts.agent_privileged)
          ↔ (writes_code (requested_skills capabilities) ≡ true))
      × (resolve_role (agent_read a.id (strings a.scopes) "access") ≡ guard_role a.role)
new_agent_role c owner_id name key hex capabilities =
    let (few, many) =
      length-infer_scopes (requested_skills capabilities) (requested_tools capabilities) in
    (
      few,
      privileged_iff
          (ltb 5
            (length (infer_scopes (requested_skills capabilities) (requested_tools capabilities))))
          (writes_code (requested_skills capabilities)) many,
      role_agent c.identity.agent_id
            (strings (infer_scopes (requested_skills capabilities) (requested_tools capabilities)))
          ∙ role_of_strings
              (infer_scopes (requested_skills capabilities) (requested_tools capabilities)),
    )
