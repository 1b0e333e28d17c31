-- ===== src/Mcp/AllowList/Listing.antt =====
-- `getAllowedTools` against `isAllowed`.
use kalen.Prelude.{
  String, ◌≡◌, refl, true, false, not, ◌&&◌, ◌||◌, Option, none, some, List, [], ◌∷◌, arith, eq_iff,
  if◌then◌else◌, filter,
}
use kalen.Prelude.Dict.{lookup}
use kalen.Prelude.StringSet.{StringSet, has, add, delete, has-add, has-delete, has-filter, has-nil}
use kalen.Mcp.AllowList.{
  Entry, AllowList, empty, is_allowed, entry_allows, or_new, get_allowed_tools, delete_all,
  set_from, tools_of,
}
use kalen.Mcp.AllowList.Policy.{
  Change, allow, deny, deny_all, undeny_all, restrict, remove, run, Policy, policy, change, changes,
  policy-run,
}

has-delete_all :
    (t : String) (ds s : StringSet)
    → has t (delete_all ds s) ≡ (if has t ds then false else has t s)
unfolding delete_all has
has-delete_all t [] s = refl
has-delete_all t (d ∷ ds) s = ground (arith, has-delete_all t ds (delete d s), has-delete d t s)

has-set_from :
    (t : String) (s : StringSet) (xs : List String)
    → has t (set_from s xs) ≡ (if has t s then true else has t xs)
unfolding set_from has
has-set_from t s [] = ground arith
has-set_from t s (x ∷ xs) = ground (arith, has-set_from t (add x s) xs, has-add x t s)

-- no tool is both allowed to an entity and denied to it
abbrev pub IsDisjoint : Policy → Type 0
IsDisjoint p = (e t : String) → p.denied_to e t ≡ true → p.allowed_to e t ≡ false

change-IsDisjoint : (p : Policy) (c : Change) → IsDisjoint p → IsDisjoint (change p c)
change-IsDisjoint p (allow e t) h f u = ground (arith, h f u, eq_iff e f)
change-IsDisjoint p (deny e t) h f u = ground (arith, h f u, eq_iff e f)
change-IsDisjoint p (deny_all t) h f u = h f u
change-IsDisjoint p (undeny_all t) h f u = h f u
change-IsDisjoint p (restrict e b) h f u = h f u
change-IsDisjoint p (remove e) h f u = ground (arith, h f u)

changes-IsDisjoint : (p : Policy) (cs : List Change) → IsDisjoint p → IsDisjoint (changes p cs)
changes-IsDisjoint p [] h = h
changes-IsDisjoint p (c ∷ cs) h = changes-IsDisjoint (change p c) cs (change-IsDisjoint p c h)

empty-IsDisjoint : IsDisjoint (policy empty)
unfolding policy lookup has
empty-IsDisjoint e t h = refl

run-IsDisjoint : (cs : List Change) → IsDisjoint (policy (run empty cs))
run-IsDisjoint cs = rw policy-run (changes-IsDisjoint (policy empty) cs empty-IsDisjoint)

listed :
    (global : StringSet) (e t : String) (tools : List String) (o : Option Entry)
    → (has t (or_new e o).denied ≡ true → has t (or_new e o).allowed ≡ false)
    → has t (tools_of global o (some tools)) ≡ (
        (if has t global then false else entry_allows o t)
        && ((or_new e o).restrictive || has t tools))
unfolding tools_of
listed global e t tools none h = ground (
  arith,
  has-set_from t [] (filter (λ u. not (has u global)) tools),
  has-filter (λ u. not (has u global)) t tools,
  has-nil t,
)
listed global e t tools (some x) h = ground (
  arith,
  has-nil t,
  has-delete_all t global x.allowed,
  has-set_from t [] (filter (λ u. not (has u x.denied) && not (has u global)) tools),
  has-filter (λ u. not (has u x.denied) && not (has u global)) t tools,
)

-- Whatever changes a new allowlist has had: among the tools that it is asked about, it lists for
-- an entity those that it allows; for a restricted entity it lists all that it allows, whether
-- they were asked about or not.
pub has-get_allowed_tools :
    (cs : List Change) (e t : String) (tools : List String)
    → has t (get_allowed_tools (run empty cs) e (some tools))
      ≡ (is_allowed (run empty cs) e t && ((policy (run empty cs)).is_restricted e || has t tools))
unfolding get_allowed_tools is_allowed policy
has-get_allowed_tools cs e t tools =
    let l = run empty cs in
    listed l.global_denied e t tools (lookup e l.entries) (run-IsDisjoint cs e t)

-- With no list to ask about, the tools listed for an unrestricted entity include one that is
-- allowed to it by name, also where the tool is denied to all and so is not allowed.
pub get_allowed_tools_ignores_global :
    (l : AllowList) (e t : String) (x : Entry)
    → lookup e l.entries ≡ some x
    → x.restrictive ≡ false
    → has t x.allowed ≡ true
    → has t l.global_denied ≡ true
    → (has t (get_allowed_tools l e none) ≡ true) × (is_allowed l e t ≡ false)
unfolding get_allowed_tools is_allowed
get_allowed_tools_ignores_global l e t x found open' named denied = (ground arith, ground arith)
