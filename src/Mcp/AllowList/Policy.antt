-- ===== src/Mcp/AllowList/Policy.antt =====
-- The policy that an allowlist stands for: four tests, which forget how entries are kept. The
-- operations change the tests at one place each, and `isAllowed` is a formula of them.
use kalen.Prelude.{
  String, ◌≡◌, refl, ap, ◌∙◌, fun_ext, Bool, true, false, not, ◌&&◌, ◌||◌, Option, none, some, List,
  [], ◌∷◌, arith, ◌==◌, eq_iff, if◌then◌else◌, Bool-cases, inl, inr,
}
use kalen.Prelude.Dict.{lookup, lookup-insert, lookup-erase}
use kalen.Prelude.StringSet.{has, add, delete, has-add, has-delete}
use kalen.Mcp.AllowList.{
  Entry, AllowList, allow_tool, deny_tool, deny_global, remove_global_deny, new_entry,
  set_restrictive, is_allowed, remove_entity, or_new, entry_or_new, put,
}

-- a call that changes an allowlist
pub data Change : Type 0 where
  allow deny : (entity tool : String) → Change
  deny_all undeny_all : (tool : String) → Change
  restrict : (entity : String) → Bool → Change
  remove : (entity : String) → Change

unfoldable pub step : AllowList → Change → AllowList
step l (allow e t) = allow_tool l e t
step l (deny e t) = deny_tool l e t
step l (deny_all t) = deny_global l t
step l (undeny_all t) = remove_global_deny l t
step l (restrict e b) = set_restrictive l e b
step l (remove e) = remove_entity l e

unfoldable pub run : AllowList → List Change → AllowList
run l [] = l
run l (c ∷ cs) = run (step l c) cs

pub record Policy : Type 0 where
  pub denied_to_all : String → Bool
  pub denied_to : String → String → Bool
  pub allowed_to : String → String → Bool
  pub is_restricted : String → Bool

-- whom a policy lets call what
abbrev pub decides : Policy → String → String → Bool
decides p e t =
    not (p.denied_to_all t)
    && (not (p.denied_to e t) && (not (p.is_restricted e) || p.allowed_to e t))

-- a test with another answer at one point
abbrev pub update {ℓ} : {A : Type ℓ} → (String → A) → String → A → String → A
update f k v j = if k == j then v else f j

abbrev nothing : String → Bool
nothing _ = false

-- what each change does to the policy
abbrev pub change : Policy → Change → Policy
change p (allow e t) = record p {
  allowed_to = update p.allowed_to e (update (p.allowed_to e) t true);
  denied_to = update p.denied_to e (update (p.denied_to e) t false);
}
change p (deny e t) = record p {
  allowed_to = update p.allowed_to e (update (p.allowed_to e) t false);
  denied_to = update p.denied_to e (update (p.denied_to e) t true);
}
change p (deny_all t) = record p { denied_to_all = update p.denied_to_all t true }
change p (undeny_all t) = record p { denied_to_all = update p.denied_to_all t false }
change p (restrict e b) = record p { is_restricted = update p.is_restricted e b }
change p (remove e) = record p {
  allowed_to = update p.allowed_to e (λ _. false);
  denied_to = update p.denied_to e (λ _. false);
  is_restricted = update p.is_restricted e false;
}

abbrev pub changes : Policy → List Change → Policy
changes p [] = p
changes p (c ∷ cs) = changes (change p c) cs

-- the policy of an allowlist; an entity with no entry has the tests of a new one
unfoldable pub policy : AllowList → Policy
policy l = record {
  denied_to_all = λ t. has t l.global_denied;
  denied_to = λ e t. has t (entry_or_new l e).denied;
  allowed_to = λ e t. has t (entry_or_new l e).allowed;
  is_restricted = λ e. (entry_or_new l e).restrictive;
}

pub is_allowed-decides : (l : AllowList) (e t : String) → is_allowed l e t ≡ decides (policy l) e t
unfolding is_allowed policy has
is_allowed-decides l e t = ground arith

read-if {ℓ} :
    {A : Type ℓ} (g : Entry → A) (f : String) (o o' : Option Entry) (b : Bool)
    → g (or_new f (if b then o else o')) ≡ (if b then g (or_new f o) else g (or_new f o'))
read-if g f o o' true = refl
read-if g f o o' false = refl

-- reading one field of an entry after one entry was put
read-put {ℓ} :
    {A : Type ℓ} (g : Entry → A) (l : AllowList) (e f : String) (x : Entry)
    → g (entry_or_new (put l e x) f) ≡ (if e == f then g x else g (entry_or_new l f))
read-put g l e f x =
    ap (λ o. g (or_new f o)) (lookup-insert e f x l.entries)
    ∙ read-if g f (some x) (lookup f l.entries) (e == f)

policy-put :
    (l : AllowList) (e : String) (x : Entry)
    → policy (put l e x) ≡ record {
      denied_to_all = (policy l).denied_to_all;
      denied_to = update (policy l).denied_to e (λ t. has t x.denied);
      allowed_to = update (policy l).allowed_to e (λ t. has t x.allowed);
      is_restricted = update (policy l).is_restricted e x.restrictive;
    }
unfolding policy
policy-put l e x = λ i. record {
  denied_to_all = λ t. has t l.global_denied;
  denied_to = λ f. read-put (λ y t. has t y.denied) l e f x i;
  allowed_to = λ f. read-put (λ y t. has t y.allowed) l e f x i;
  is_restricted = λ f. read-put (λ y. y.restrictive) l e f x i;
}

update_self {ℓ} : {A : Type ℓ} (f : String → A) (k : String) → update f k (f k) ≡ f
update_self f k = fun_ext λ j. elim (Bool-cases (k == j)) [
  | inl same ↦ rw same (ap f ((eq_iff k j).0 same))
  | inr other ↦ rw other
]

allow-change :
    (l : AllowList) (e t : String) → policy (allow_tool l e t) ≡ change (policy l) (allow e t)
unfolding allow_tool
allow-change l e t =
    let x : Entry = entry_or_new l e in
    policy-put l e (record x { allowed = add t x.allowed; denied = delete t x.denied })
    ∙ (unfold policy in
        λ i. record {
          denied_to_all = (policy l).denied_to_all;
          denied_to = update (policy l).denied_to e (λ u. has-delete t u x.denied i);
          allowed_to = update (policy l).allowed_to e (λ u. has-add t u x.allowed i);
          is_restricted = update_self (policy l).is_restricted e i;
        })

deny-change :
    (l : AllowList) (e t : String) → policy (deny_tool l e t) ≡ change (policy l) (deny e t)
unfolding deny_tool
deny-change l e t =
    let x : Entry = entry_or_new l e in
    policy-put l e (record x { denied = add t x.denied; allowed = delete t x.allowed })
    ∙ (unfold policy in
        λ i. record {
          denied_to_all = (policy l).denied_to_all;
          denied_to = update (policy l).denied_to e (λ u. has-add t u x.denied i);
          allowed_to = update (policy l).allowed_to e (λ u. has-delete t u x.allowed i);
          is_restricted = update_self (policy l).is_restricted e i;
        })

-- both branches of `setRestrictive` put the entry or a new one, in the mode asked for
set_restrictive-put :
    (l : AllowList) (e : String) (b : Bool)
    → set_restrictive l e b ≡ put l e (record (entry_or_new l e) { restrictive = b })
unfolding set_restrictive
set_restrictive-put l e b = ground arith

restrict-change :
    (l : AllowList) (e : String) (b : Bool)
    → policy (set_restrictive l e b) ≡ change (policy l) (restrict e b)
restrict-change l e b =
    ap policy (set_restrictive-put l e b)
    ∙ policy-put l e (record (entry_or_new l e) { restrictive = b })
    ∙ (unfold policy in
        λ i. record {
          denied_to_all = (policy l).denied_to_all;
          denied_to = update_self (policy l).denied_to e i;
          allowed_to = update_self (policy l).allowed_to e i;
          is_restricted = update (policy l).is_restricted e b;
        })

read-remove {ℓ} :
    {A : Type ℓ} (g : Entry → A) (l : AllowList) (e f : String)
    → g (entry_or_new (remove_entity l e) f)
      ≡ (if e == f then g (new_entry f false) else g (entry_or_new l f))
unfolding remove_entity
read-remove g l e f =
    ap (λ o. g (or_new f o)) (lookup-erase e f l.entries)
    ∙ read-if g f none (lookup f l.entries) (e == f)

remove-change :
    (l : AllowList) (e : String) → policy (remove_entity l e) ≡ change (policy l) (remove e)
unfolding policy has remove_entity
remove-change l e = λ i. record {
  denied_to_all = (policy l).denied_to_all;
  denied_to = λ f. read-remove (λ y t. has t y.denied) l e f i;
  allowed_to = λ f. read-remove (λ y t. has t y.allowed) l e f i;
  is_restricted = λ f. read-remove (λ y. y.restrictive) l e f i;
}

step-change : (l : AllowList) (c : Change) → policy (step l c) ≡ change (policy l) c
unfolding step
step-change l (allow e t) = allow-change l e t
step-change l (deny e t) = deny-change l e t
step-change l (deny_all t) =
    unfold policy deny_global in
    λ i. record {
      denied_to_all = λ u. has-add t u l.global_denied i;
      denied_to = (policy l).denied_to;
      allowed_to = (policy l).allowed_to;
      is_restricted = (policy l).is_restricted;
    }
step-change l (undeny_all t) =
    unfold policy remove_global_deny in
    λ i. record {
      denied_to_all = λ u. has-delete t u l.global_denied i;
      denied_to = (policy l).denied_to;
      allowed_to = (policy l).allowed_to;
      is_restricted = (policy l).is_restricted;
    }
step-change l (restrict e b) = restrict-change l e b
step-change l (remove e) = remove-change l e

pub policy-run : (l : AllowList) (cs : List Change) → policy (run l cs) ≡ changes (policy l) cs
unfolding run
policy-run l [] = refl
policy-run l (c ∷ cs) = policy-run (step l c) cs ∙ ap (λ p. changes p cs) (step-change l c)

-- After any changes the allowlist decides as the policy does that the changes make, one at a
-- time, of the policy that it stood for: a tool is denied if it is denied to all, or denied to
-- the entity, or if the entity is restricted and the tool is not among those allowed to it.
pub is_allowed-run :
    (l : AllowList) (cs : List Change) (e t : String)
    → is_allowed (run l cs) e t ≡ decides (changes (policy l) cs) e t
is_allowed-run l cs e t =
    is_allowed-decides (run l cs) e t ∙ ap (λ p. decides p e t) (policy-run l cs)
