-- ===== src/Shared/Json.antt =====
-- Values of type `unknown` and `Record<string, unknown>`. A number is kept only as a natural
-- number: no code of the model looks into one.
pub mod Print
use kalen.Prelude.{
  ℕ, String, Bool, true, false, not, Option, none, some, List, [], ◌∷◌, ◌==◌, eqb, if◌then◌else◌,
}

mutual
  pub data Json : Type 0 where
    null : Json
    bool : Bool → Json
    num : ℕ → Json
    str : String → Json
    arr : Items → Json
    obj : Fields → Json

  pub data Items : Type 0 where
    nil : Items
    cons : Json → Items → Items

  pub data Fields : Type 0 where
    end : Fields
    field : String → Json → Fields → Fields

abbrev pub items : Items → List Json
items nil = []
items (cons v vs) = v ∷ items vs

abbrev pub fields : Fields → List (String × Json)
fields end = []
fields (field k v vs) = (k, v) ∷ fields vs

-- `record[key]`
unfoldable pub get : String → Fields → Option Json
get k end = none
get k (field j v vs) = if j == k then some v else get k vs

-- Whether a value counts as true; `none` is `undefined`.
abbrev pub truthy : Option Json → Bool
truthy none = false
truthy (some null) = false
truthy (some (bool b)) = b
truthy (some (num n)) = not (eqb n 0)
truthy (some (str s)) = not (s == "")
truthy (some _) = true

-- `v ?? d`
abbrev pub or_default : Option Json → Json → Json
or_default none d = d
or_default (some null) d = d
or_default (some v) d = v
