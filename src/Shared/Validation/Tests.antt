-- ===== src/Shared/Validation/Tests.antt =====
-- The validations on small inputs, and the theorems applied to them.
use kalen.Prelude.{◌≡◌, refl, ◌↔◌, true, none, some, map}
use kalen.Shared.Json.{str, arr, obj, nil, cons, end, field, get}
use kalen.Shared.Text.{units, trim, lower}
use kalen.Shared.Validation.{
  valid, invalid, is_valid, too_short, no_suffix, bad_characters, validate_agent_name, wrong_length,
  validate_public_key,
}
use kalen.Shared.Validation.Names.{IsName, validate_agent_name_iff}
use kalen.Shared.Validation.Schemas.{validate_mcp_tool_schema, missing, untyped_property}
use kalen.Shared.Validation.Email.{
  IsAddress, validate_email, validate_email-IsAddress, no_dot, bad_format,
}

validation_tests :
    (validate_agent_name (units " Bob (ai) ") ≡ valid)
    × (validate_agent_name (units "Bob(ai)") ≡ invalid no_suffix)
    × (validate_agent_name (units "B (ai)") ≡ valid)
    × (validate_agent_name (units "(ai)") ≡ invalid too_short)
    × (validate_agent_name (units "B/b (ai)") ≡ invalid bad_characters)
    × (validate_public_key (units "abc") ≡ invalid (wrong_length 2))
unfolding validate_agent_name validate_public_key units
validation_tests = (refl, refl, refl, refl, refl, refl)

schema_tests :
    (validate_mcp_tool_schema none ≡ invalid missing)
    × (validate_mcp_tool_schema (
          some (
            obj (
              field "type"
                (str "object")
                (field "properties" (obj (field "a" (obj end) end)) end))))
        ≡ invalid (untyped_property "a"))
    × (validate_mcp_tool_schema (
          some
            (obj (field "type" (str "object") (field "required" (arr (cons (str "a") nil)) end))))
        ≡ valid)
unfolding validate_mcp_tool_schema get
schema_tests = (refl, refl, refl)

email_tests :
    (validate_email (units " A.b@Kalen.chat") ≡ valid)
    × (validate_email (units "a@b") ≡ invalid no_dot)
    × (validate_email (units "a@b@c.d") ≡ invalid bad_format)
    × (validate_email (units "a@-b.c") ≡ invalid bad_format)
unfolding validate_email units
email_tests = (refl, refl, refl, refl)

validate_agent_name_iff_example :
    ((is_valid (validate_agent_name (units "Bob (ai) ")) ≡ true)
      ↔ IsName (trim (units "Bob (ai) ")))
    × (validate_agent_name (trim (units "Bob (ai) ")) ≡ validate_agent_name (units "Bob (ai) "))
validate_agent_name_iff_example = validate_agent_name_iff (units "Bob (ai) ")

validate_email-IsAddress_example : IsAddress (map lower (trim (units " A.b@Kalen.chat")))
unfolding validate_email units
validate_email-IsAddress_example = validate_email-IsAddress (units " A.b@Kalen.chat") refl
