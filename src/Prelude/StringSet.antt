-- ===== src/Prelude/StringSet.antt =====
-- The `Set` of the language, of strings: its items in insertion order.
use Prim.Native.String.{String}
use mathlib.Core.Path.{◌≡◌, refl}
use mathlib.Core.Bool.{Bool, true, false}
use mathlib.Core.List.{List, [], ◌∷◌, ◌++◌}
use native.Mathlib.Omega.{arith}
use text.Mathlib.Text.{◌==◌}
use text.Mathlib.TextEquality.{eq_iff}
use package.kalen.Prelude.Tests.{if◌then◌else◌}
use package.kalen.Prelude.Lists.{filter}

abbrev pub StringSet : Type 0
StringSet = List String

-- `s.has(x)`, and `xs.includes(x)` of an array
unfoldable pub has : String → StringSet → Bool
has x [] = false
has x (y ∷ s) = if y == x then true else has x s

-- `s.add(x)`
unfoldable pub add : String → StringSet → StringSet
unfolding has
add x s = if has x s then s else s ++ x ∷ []

-- `s.delete(x)`
unfoldable pub delete : String → StringSet → StringSet
delete x [] = []
delete x (y ∷ s) = let rest = delete x s in if y == x then rest else y ∷ rest

pub has-nil : (y : String) → has y [] ≡ false
unfolding has
has-nil y = refl

has-append_one :
    (x y : String) (s : StringSet) → has y (s ++ x ∷ []) ≡ (if x == y then true else has y s)
unfolding has
has-append_one x y [] = refl
has-append_one x y (z ∷ s) = ground (arith, eq_iff z y, eq_iff x y, has-append_one x y s)

pub has-add : (x y : String) (s : StringSet) → has y (add x s) ≡ (if x == y then true else has y s)
unfolding add
has-add x y s = ground (arith, eq_iff x y, has-append_one x y s)

pub has-delete :
    (x y : String) (s : StringSet) → has y (delete x s) ≡ (if x == y then false else has y s)
unfolding has delete
has-delete x y [] = ground arith
has-delete x y (z ∷ s) = ground (arith, eq_iff z x, eq_iff z y, eq_iff x y, has-delete x y s)

pub has-filter :
    (p : String → Bool) (y : String) (s : StringSet)
    → has y (filter p s) ≡ (if p y then has y s else false)
unfolding has
has-filter p y [] = ground arith
has-filter p y (z ∷ s) = ground (arith, eq_iff z y, has-filter p y s)
