-- ===== src/Mcp/Tests.antt =====
-- The package on small inputs, and the theorems applied to them.
use kalen.Prelude.{◌≡◌, refl, true, false, some, none, [], ◌∷◌, List}
use kalen.Prelude.Dict.{lookup, insert}
use kalen.Prelude.StringSet.{has, add, delete}
use kalen.Mcp.AllowList.{
  Entry, AllowList, empty, is_allowed, get_allowed_tools, allow_tool, deny_tool, deny_global,
  set_restrictive,
}
use kalen.Mcp.AllowList.Policy.{
  Change, allow, deny, deny_all, restrict, run, step, policy, changes, decides, is_allowed-run,
}

abbrev some_changes : List Change
some_changes =
    allow "a" "read"
    ∷ restrict "a" true
    ∷ deny "b" "write"
    ∷ deny_all "drop"
    ∷ allow "a" "drop"
    ∷ []

allowlist : Unit {0}
unfolding lookup insert has add delete run step allow_tool deny_tool deny_global set_restrictive
    is_allowed get_allowed_tools policy
allowlist = tt

is_allowed_tests :
    (is_allowed (run empty some_changes) "a" "read" ≡ true)
    × (is_allowed (run empty some_changes) "a" "write" ≡ false)
    × (is_allowed (run empty some_changes) "a" "drop" ≡ false)
    × (is_allowed (run empty some_changes) "b" "write" ≡ false)
    × (is_allowed (run empty some_changes) "b" "read" ≡ true)
    × (is_allowed (run empty some_changes) "c" "write" ≡ true)
    × (get_allowed_tools (run empty some_changes) "a" none ≡ "read" ∷ [])
    × (get_allowed_tools (run empty some_changes) "b" (some ("read" ∷ "write" ∷ "drop" ∷ []))
        ≡ "read" ∷ [])
unfolding allowlist
is_allowed_tests = (refl, refl, refl, refl, refl, refl, refl, refl)

is_allowed-run_example :
    is_allowed (run empty some_changes) "a" "read"
    ≡ decides (changes (policy empty) some_changes) "a" "read"
is_allowed-run_example = is_allowed-run empty some_changes "a" "read"

abbrev named : Entry
named = record { entity_id = "a"; allowed = "drop" ∷ []; denied = []; restrictive = false }

abbrev named_list : AllowList
named_list = record { entries = ("a", named) ∷ []; global_denied = "drop" ∷ [] }
