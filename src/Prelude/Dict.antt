-- ===== src/Prelude/Dict.antt =====
-- The `Map` and the `Set` of the language, with string keys: entries in insertion order. `set` on
-- a key that is there keeps its place.
use Prim.Native.Nat.{ℕ, ◌+◌}
use Prim.Native.String.{String}
use mathlib.Core.Path.{◌≡◌, refl}
use mathlib.Core.Bool.{Bool}
use mathlib.Core.Option.{Option, none, some}
use mathlib.Core.List.{List, [], ◌∷◌, ◌++◌}
use native.Mathlib.Omega.{arith}
use text.Mathlib.Text.{◌==◌}
use text.Mathlib.TextEquality.{eq_iff}
use package.kalen.Prelude.Tests.{if◌then◌else◌, to_ℕ}

abbrev pub Dict {ℓ} : Type ℓ → Type ℓ
Dict V = List (String × V)

module _ {ℓ} {V : Type ℓ} where
  -- `d.get(k)`
  unfoldable pub lookup : String → Dict V → Option V
  lookup k [] = none
  lookup k ((j, v) ∷ d) = if j == k then some v else lookup k d

  -- `d.set(k, v)`
  unfoldable pub insert : String → V → Dict V → Dict V
  insert k v [] = (k, v) ∷ []
  insert k v ((j, w) ∷ d) = if j == k then (j, v) ∷ d else (j, w) ∷ insert k v d

  -- `d.delete(k)`. Every entry of the key goes; a map has at most one.
  unfoldable pub erase : String → Dict V → Dict V
  erase k [] = []
  erase k ((j, w) ∷ d) = let rest = erase k d in if j == k then rest else (j, w) ∷ rest

  pub lookup-insert :
      (k j : String) (v : V) (d : Dict V)
      → lookup j (insert k v d) ≡ (if k == j then some v else lookup j d)
  unfolding lookup insert
  lookup-insert k j v [] = refl
  lookup-insert k j v ((i, w) ∷ d) =
      ground (arith, eq_iff k j, eq_iff i k, eq_iff i j, lookup-insert k j v d)

  pub lookup-erase :
      (k j : String) (d : Dict V) → lookup j (erase k d) ≡ (if k == j then none else lookup j d)
  unfolding lookup erase
  lookup-erase k j [] = ground arith
  lookup-erase k j ((i, w) ∷ d) =
      ground (arith, eq_iff k j, eq_iff i k, eq_iff i j, lookup-erase k j d)

module _ {ℓ} {V : Type ℓ} where
  -- How many entries pass a test.
  unfoldable pub count : (V → Bool) → Dict V → ℕ
  count p [] = 0
  count p ((j, v) ∷ d) = to_ℕ (p v) + count p d

  pub count-insert_new :
      (p : V → Bool) (k : String) (v : V) (d : Dict V)
      → lookup k d ≡ none
      → count p (insert k v d) ≡ count p d + to_ℕ (p v)
  unfolding lookup insert count
  count-insert_new p k v [] h = omega arith
  count-insert_new p k v ((j, w) ∷ d) h = ground (arith, count-insert_new p k v d)

  pub count-insert_old :
      (p : V → Bool) (k : String) (v w : V) (d : Dict V)
      → lookup k d ≡ some w
      → count p (insert k v d) + to_ℕ (p w) ≡ count p d + to_ℕ (p v)
  unfolding lookup insert count
  count-insert_old p k v w [] h = ground arith
  count-insert_old p k v w ((j, u) ∷ d) h = ground (arith, count-insert_old p k v w d)

  -- `d.values()`
  unfoldable pub values : Dict V → List V
  values [] = []
  values ((j, v) ∷ d) = v ∷ values d

  pub values-insert_new :
      (k : String) (v : V) (d : Dict V)
      → lookup k d ≡ none
      → values (insert k v d) ≡ values d ++ v ∷ []
  unfolding lookup insert values
  values-insert_new k v [] h = refl
  values-insert_new k v ((j, w) ∷ d) h = ground (arith, values-insert_new k v d)
