-- ===== src/Mcp/AllowList.antt =====
-- packages/mcp-gateway/src/governance/allowlist.ts. An entry is written in place in the source; no
-- reference to one leaves the object, but for the set that `getAllowedTools` may give.
pub mod Policy
pub mod Listing
use kalen.Prelude.{
  String, Bool, true, false, not, ◌&&◌, Option, none, some, List, [], ◌∷◌, filter, is_some,
  if◌then◌else◌,
}
use kalen.Prelude.Dict.{Dict, lookup, insert, erase}
use kalen.Prelude.StringSet.{StringSet, has, add, delete}

-- `AllowListEntry`
pub record Entry : Type 0 where
  pub entity_id : String
  pub allowed : StringSet
  pub denied : StringSet
  pub restrictive : Bool

pub record AllowList : Type 0 where
  pub entries : Dict Entry
  pub global_denied : StringSet

abbrev pub empty : AllowList
empty = record { entries = []; global_denied = [] }

-- the entry that a method makes where there is none
abbrev pub new_entry : String → Bool → Entry
new_entry entity_id restrictive = record {
  entity_id = entity_id;
  allowed = [];
  denied = [];
  restrictive = restrictive;
}

-- `let entry = this.entries.get(entityId); if (!entry) …`
abbrev pub or_new : String → Option Entry → Entry
or_new entity_id none = new_entry entity_id false
or_new entity_id (some entry) = entry

abbrev pub entry_or_new : AllowList → String → Entry
entry_or_new l entity_id = or_new entity_id (lookup entity_id l.entries)

abbrev pub put : AllowList → String → Entry → AllowList
put l entity_id entry = record l { entries = insert entity_id entry l.entries }

-- `allowTool`
unfoldable pub allow_tool : AllowList → String → String → AllowList
allow_tool l entity_id tool_name =
    let entry = entry_or_new l entity_id in
    put l entity_id (record entry {
      allowed = add tool_name entry.allowed;
      denied = delete tool_name entry.denied;
    })

-- `denyTool`
unfoldable pub deny_tool : AllowList → String → String → AllowList
deny_tool l entity_id tool_name =
    let entry = entry_or_new l entity_id in
    put l entity_id (record entry {
      denied = add tool_name entry.denied;
      allowed = delete tool_name entry.allowed;
    })

-- `denyGlobal`
unfoldable pub deny_global : AllowList → String → AllowList
deny_global l tool_name = record l { global_denied = add tool_name l.global_denied }

-- `removeGlobalDeny`
unfoldable pub remove_global_deny : AllowList → String → AllowList
remove_global_deny l tool_name = record l { global_denied = delete tool_name l.global_denied }

-- `setRestrictive`
unfoldable pub set_restrictive : AllowList → String → Bool → AllowList
set_restrictive l entity_id restrictive = elim (lookup entity_id l.entries) [
  | none ↦ put l entity_id (new_entry entity_id restrictive)
  | some entry ↦ put l entity_id (record entry { restrictive = restrictive })
]

-- the checks of `isAllowed` on the entity's own entry
abbrev pub entry_allows : Option Entry → String → Bool
entry_allows none tool_name = true
entry_allows (some entry) tool_name =
    if has tool_name entry.denied
    then false
    else if entry.restrictive
    then has tool_name entry.allowed
    else true

-- `isAllowed`
unfoldable pub is_allowed : AllowList → String → String → Bool
is_allowed l entity_id tool_name =
    if has tool_name l.global_denied
    then false
    else entry_allows (lookup entity_id l.entries) tool_name

-- `for (const tool of denied) allowed.delete(tool)`
unfoldable pub delete_all : StringSet → StringSet → StringSet
delete_all [] s = s
delete_all (t ∷ ts) s = delete_all ts (delete t s)

-- `new Set(xs)`
unfoldable pub set_from : StringSet → List String → StringSet
set_from s [] = s
set_from s (x ∷ xs) = set_from (add x s) xs

-- the branches of `getAllowedTools`
unfoldable pub tools_of : StringSet → Option Entry → Option (List String) → StringSet
unfolding set_from delete_all
tools_of global_denied none none = []
tools_of global_denied none (some tools) =
    set_from [] (filter (λ t. not (has t global_denied)) tools)
tools_of global_denied (some entry) none =
    if entry.restrictive then delete_all global_denied entry.allowed else entry.allowed
tools_of global_denied (some entry) (some tools) =
    if entry.restrictive
    then delete_all global_denied entry.allowed
    else set_from [] (filter (λ t. not (has t entry.denied) && not (has t global_denied)) tools)

-- `getAllowedTools`; `none` is a call with no list of tools
unfoldable pub get_allowed_tools : AllowList → String → Option (List String) → StringSet
unfolding tools_of
get_allowed_tools l entity_id all_tools =
    tools_of l.global_denied (lookup entity_id l.entries) all_tools

-- `removeEntity`
unfoldable pub remove_entity : AllowList → String → AllowList
remove_entity l entity_id = record l { entries = erase entity_id l.entries }

-- `hasEntry`
unfoldable pub has_entry : AllowList → String → Bool
has_entry l entity_id = is_some (lookup entity_id l.entries)
