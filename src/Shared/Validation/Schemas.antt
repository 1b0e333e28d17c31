-- ===== src/Shared/Validation/Schemas.antt =====
-- packages/shared/src/utils/validation.ts: the schema of a tool's input.
use kalen.Prelude.{
  String, Bool, true, false, ◌||◌, Option, none, some, [], ◌∷◌, ◌==◌, any, is_some, if◌then◌else◌,
}
use kalen.Shared.Json.{Json, null, num, str, arr, obj, Items, nil, cons, Fields, end, field, get}
use kalen.Shared.Validation.{Verdict, valid, invalid}

pub data SchemaError : Type 0 where
  missing not_object wrong_type bad_properties bad_required bad_required_item bad_additional :
      SchemaError
  bad_property untyped_property : (key : String) → SchemaError

-- `typeof v === "string"`
abbrev is_text : Option Json → Bool
is_text (some (str s)) = true
is_text _ = false

-- whether a property says what it is: a type, or a combination of schemas
unfoldable pub is_typed : Fields → Bool
is_typed fs =
    is_text (get "type" fs)
    || any (λ k. is_some (get k fs)) ("anyOf" ∷ "oneOf" ∷ "allOf" ∷ "$ref" ∷ [])

-- one property of the loop
unfoldable pub check_property : String → Json → Verdict SchemaError
unfolding is_typed
check_property key (obj fs) = if is_typed fs then valid else invalid (untyped_property key)
check_property key _ = invalid (bad_property key)

-- the first error, or what follows
abbrev and_then : Verdict SchemaError → Verdict SchemaError → Verdict SchemaError
and_then valid v = v
and_then (invalid e) v = invalid e

-- the loop over the properties
unfoldable pub check_properties : Fields → Verdict SchemaError
unfolding check_property
check_properties end = valid
check_properties (field k v fs) = and_then (check_property k v) (check_properties fs)

-- the loop over the names of those that are required
unfoldable pub check_required : Items → Verdict SchemaError
check_required nil = valid
check_required (cons v vs) =
    and_then (if is_text (some v) then valid else invalid bad_required_item) (check_required vs)

abbrev properties_of : Option Json → Verdict SchemaError
properties_of none = valid
properties_of (some (obj fs)) = check_properties fs
properties_of (some _) = invalid bad_properties

abbrev required_of : Option Json → Verdict SchemaError
required_of none = valid
required_of (some (arr vs)) = check_required vs
required_of (some _) = invalid bad_required

abbrev additional_of : Option Json → Verdict SchemaError
additional_of (some (num n)) = invalid bad_additional
additional_of (some (str s)) = invalid bad_additional
additional_of _ = valid

abbrev type_of : Option Json → Verdict SchemaError
type_of (some (str s)) = if s == "object" then valid else invalid wrong_type
type_of _ = invalid wrong_type

-- `validateMCPToolSchema`; `none` is `undefined`
unfoldable pub validate_mcp_tool_schema : Option Json → Verdict SchemaError
unfolding check_properties check_required
validate_mcp_tool_schema none = invalid missing
validate_mcp_tool_schema (some null) = invalid missing
validate_mcp_tool_schema (some (obj fs)) = and_then (type_of (get "type" fs)) (
    and_then (properties_of (get "properties" fs))
      (and_then (required_of (get "required" fs)) (additional_of (get "additionalProperties" fs))))
validate_mcp_tool_schema (some _) = invalid not_object
