-- ===== src/Prelude/SetMap.antt =====
-- A `Map` from keys to sets of strings, or to arrays of strings without repetitions.
use Prim.Native.String.{String}
use mathlib.Core.Path.{◌≡◌, refl}
use mathlib.Core.Logic.{◌≢◌, inl, inr}
use mathlib.Core.Bool.{Bool, true, false}
use mathlib.Core.Option.{none, some}
use mathlib.Core.List.{[], ◌∷◌}
use native.Mathlib.Omega.{arith}
use text.Mathlib.Text.{◌==◌}
use text.Mathlib.TextEquality.{eq_iff}
use text.Mathlib.TextPositions.{eq_refl}
use package.kalen.Prelude.Tests.{if◌then◌else◌, is_some, get_or, Option-cases, Bool-cases}
use package.kalen.Prelude.Dict.{Dict, lookup, insert, erase, lookup-insert, lookup-erase}
use package.kalen.Prelude.StringSet.{StringSet, has, add, delete, has-nil, has-add, has-delete}

-- the set of a key, empty if it has none
abbrev pub set_of : Dict StringSet → String → StringSet
set_of m k = get_or (lookup k m) []

-- a set of its own for a key that has none, and then the string is added to the key's
unfoldable pub add_to : Dict StringSet → String → String → Dict StringSet
add_to m k x =
    let known = if is_some (lookup k m) then m else insert k [] m in
    insert k (add x (get_or (lookup k known) [])) known

-- the string is removed from the key's set, and the key with its last string
unfoldable pub remove_from : Dict StringSet → String → String → Dict StringSet
remove_from m k x = elim (lookup k m) [
  | none ↦ m
  | some s ↦ elim (delete x s) [ [] ↦ erase k m | y ∷ ys ↦ insert k (y ∷ ys) m ]
]

-- whether the set of `l` holds `y`, after that of `k` has got or lost `x`
abbrev pub changed : Bool → Dict StringSet → (k x l y : String) → Bool
changed b m k x l y =
    if k == l then (if x == y then b else has y (set_of m l)) else has y (set_of m l)

pub has-add_to :
    (m : Dict StringSet) (k x l y : String)
    → has y (set_of (add_to m k x) l) ≡ changed true m k x l y
unfolding add_to
has-add_to m k x l y = elim (Option-cases (lookup k m)) [
  | inl e ↦ ground (
    arith,
    e,
    eq_iff k l,
    eq_refl k,
    has-nil y,
    has-add x y [],
    lookup-insert k k [] m,
    lookup-insert k l [] m,
    lookup-insert k l (add x []) (insert k [] m),
  )
  | inr (s, e) ↦ ground (arith, e, eq_iff k l, has-add x y s, lookup-insert k l (add x s) m)
]

pub has-remove_from :
    (m : Dict StringSet) (k x l y : String)
    → has y (set_of (remove_from m k x) l) ≡ changed false m k x l y
unfolding remove_from
has-remove_from m k x l y = elim (Option-cases (lookup k m)) [
  | inl e ↦ rw (e, remove_from) (ground (arith, e, eq_iff k l, has-nil y))
  | inr (s, e) ↦ left s e (delete x s) refl
]
  where
    left :
        (s : StringSet)
        → lookup k m ≡ some s
        → (t : StringSet) → delete x s ≡ t
        → has y (set_of (remove_from m k x) l) ≡ changed false m k x l y
    left s e [] d =
        rw (e, remove_from)
          (rw d (ground (arith, e, d, eq_iff k l, has-nil y, has-delete x y s, lookup-erase k l m)))
    left s e (z ∷ t) d =
        rw (e, remove_from)
          (rw d (ground (arith, e, d, eq_iff k l, has-delete x y s, lookup-insert k l (z ∷ t) m)))

-- No key has an empty set.
pub record HasNoEmpty (m : Dict StringSet) : Type 0 where
  pub filled : (k : String) (s : StringSet) → lookup k m ≡ some s → s ≢ []

pub add_to-HasNoEmpty :
    (m : Dict StringSet) (k x : String) → HasNoEmpty m → HasNoEmpty (add_to m k x)
unfolding add_to
add_to-HasNoEmpty m k x f = record {
  filled = λ l s h e. elim (Bool-cases (k == l)) [
    | inl same ↦ ground (arith, h, e, same, eq_iff k l, eq_refl x, has-nil x, has-add_to m k x l x)
    | inr other ↦ elim (Option-cases (lookup k m)) [
      | inl n ↦ ground (
        arith,
        h,
        e,
        n,
        other,
        lookup-insert k k [] m,
        lookup-insert k l [] m,
        lookup-insert k l (add x []) (insert k [] m),
        eq_refl k,
        f.filled l s,
      )
      | inr (t, n) ↦ ground (arith, h, e, n, other, lookup-insert k l (add x t) m, f.filled l s)
    ]
  ];
}

pub remove_from-HasNoEmpty :
    (m : Dict StringSet) (k x : String) → HasNoEmpty m → HasNoEmpty (remove_from m k x)
unfolding remove_from
remove_from-HasNoEmpty m k x f = elim (Option-cases (lookup k m)) [
  | inl n ↦ rw (n, remove_from) f
  | inr (t, n) ↦ left t n (delete x t) refl
]
  where
    left :
        (t : StringSet)
        → lookup k m ≡ some t
        → (r : StringSet) → delete x t ≡ r
        → HasNoEmpty (remove_from m k x)
    left t n [] d =
        rw (n, remove_from)
          (rw d
            (record { filled = λ l s h e. ground (arith, h, e, lookup-erase k l m, f.filled l s) }))
    left t n (y ∷ ys) d =
        rw (n, remove_from)
          (rw d (record {
            filled = λ l s h e. ground (arith, h, e, lookup-insert k l (y ∷ ys) m, f.filled l s);
          }))
