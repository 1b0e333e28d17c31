-- ===== src/Shared/Json/Print.antt =====
-- `JSON.stringify` on the values of the model: no spaces, keys in their order. Characters outside
-- the basic plane are kept as they are.
use Prim.Native.String.{String, ◌++◌, slice}
use Prim.Native.Char.{code}
use kalen.Prelude.{ℕ, zero, suc, ◌+◌, ◌/◌, ◌%◌, true, false, ltb, eqb, if◌then◌else◌}
use kalen.Shared.Json.{Json, null, bool, num, str, arr, obj, Items, nil, cons, Fields, end, field}

abbrev digit : ℕ → String
digit n = slice "0123456789abcdef" n (n + 1)

-- A number has fewer digits than its successor's value, so that fuel is enough.
unfoldable pub decimal : ℕ → ℕ → String
decimal zero n = ""
decimal (suc fuel) n =
    let rest = decimal fuel (n / 10) in if ltb n 10 then digit n else rest ++ digit (n % 10)

-- one character of a quoted string
abbrev escaped : ℕ → String → String
escaped n s =
    if eqb n 34
    then "\\\""
    else if eqb n 92
    then "\\\\"
    else if eqb n 8
    then "\\b"
    else if eqb n 9
    then "\\t"
    else if eqb n 10
    then "\\n"
    else if eqb n 12
    then "\\f"
    else if eqb n 13
    then "\\r"
    else if ltb n 32
    then "\\u00" ++ digit (n / 16) ++ digit (n % 16)
    else s

unfoldable pub escape : String → String
escape String.[] = ""
escape (String.◌∷◌ c s) = escaped (code c) (String.◌∷◌ c String.[]) ++ escape s

abbrev quote : String → String
quote s = "\"" ++ escape s ++ "\""

unfoldable mutual
  pub stringify : Json → String
  stringify null = "null"
  stringify (bool true) = "true"
  stringify (bool false) = "false"
  stringify (num n) = decimal (suc n) n
  stringify (str s) = quote s
  stringify (arr vs) = "[" ++ stringify_items vs ++ "]"
  stringify (obj fs) = "{" ++ stringify_fields fs ++ "}"

  pub stringify_items : Items → String
  stringify_items nil = ""
  stringify_items (cons v nil) = stringify v
  stringify_items (cons v (cons w ws)) = stringify v ++ "," ++ stringify_items (cons w ws)

  pub stringify_fields : Fields → String
  stringify_fields end = ""
  stringify_fields (field k v end) = quote k ++ ":" ++ stringify v
  stringify_fields (field k v (field l w fs)) =
      quote k ++ ":" ++ stringify v ++ "," ++ stringify_fields (field l w fs)

abbrev in_array : Json → String → String
in_array null s = ""
in_array v s = s

-- `String(v)`, as in a template: an array is its items, joined
unfoldable mutual
  pub to_text : Json → String
  to_text null = "null"
  to_text (bool true) = "true"
  to_text (bool false) = "false"
  to_text (num n) = decimal (suc n) n
  to_text (str s) = s
  to_text (arr vs) = join_items vs
  to_text (obj fs) = "[object Object]"

  pub join_items : Items → String
  join_items nil = ""
  join_items (cons v nil) = in_array v (to_text v)
  join_items (cons v (cons w ws)) = in_array v (to_text v) ++ "," ++ join_items (cons w ws)
