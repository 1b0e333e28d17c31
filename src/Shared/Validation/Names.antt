-- ===== src/Shared/Validation/Names.antt =====
-- packages/shared/src/utils/validation.ts: which names of agents are valid.
use kalen.Prelude.{
  ◌-◌, ◌≤◌, ◌<◌, ◌≡◌, sym, ap, subst, ◌↔◌, true, ◌++◌, length, length-append, all, take, arith,
}
use kalen.Shared.Text.{Units, trim, trim_end, ends_with}
use kalen.Shared.Text.Trim.{trim_idem, take-append, ends_with_split, ends_with-append}
use kalen.Shared.Validation.{
  is_valid, agent_display_suffix, min_agent_name_length, max_agent_name_length, is_name_unit,
  base_name, check_name, validate_agent_name,
}

-- What a valid name is, once the white space at its ends is gone: a text and the suffix, of a length
-- within the limits, where the text has characters before its last white space, all of them allowed.
pub record IsName (trimmed : Units) : Type 0 where
  pub body : Units
  pub parts : trimmed ≡ body ++ agent_display_suffix
  pub long : min_agent_name_length ≤ length trimmed
  pub short : length trimmed ≤ max_agent_name_length
  pub filled : 0 < length (trim_end body)
  pub allowed : all is_name_unit (trim_end body) ≡ true

base_name-append : (body : Units) → base_name (body ++ agent_display_suffix) ≡ trim_end body
unfolding base_name
base_name-append body =
    let n : length (body ++ agent_display_suffix) - length agent_display_suffix ≡ length body =
      omega (arith, length-append body agent_display_suffix) in
    rw n (ap trim_end (take-append body agent_display_suffix))

check_name-IsName : (t : Units) → is_valid (check_name t) ≡ true → IsName t
unfolding check_name
check_name-IsName t h =
    let body : Units = take (length t - length agent_display_suffix) t in
    let split : t ≡ body ++ agent_display_suffix =
      ends_with_split t agent_display_suffix (ground (arith, h)) in
    let base : base_name t ≡ trim_end body =
      subst (λ u. base_name u ≡ trim_end body) (sym split) (base_name-append body) in
    record {
      body = body;
      parts = split;
      long = ground (arith, h);
      short = ground (arith, h);
      filled = rw (← base) (ground (arith, h));
      allowed = rw (← base) (ground (arith, h));
    }

IsName-check_name : (t : Units) → IsName t → is_valid (check_name t) ≡ true
unfolding check_name
IsName-check_name t n =
    let ends : ends_with t agent_display_suffix ≡ true =
      rw n.parts (ends_with-append n.body agent_display_suffix) in
    let base : base_name t ≡ trim_end n.body = rw n.parts (base_name-append n.body) in
    ground (arith, ends, base, n.filled, n.allowed, n.long, n.short)

-- A name is valid exactly if, without the white space at its ends, it is a text that ends with
-- the suffix and has nothing but allowed characters, and at least one, before the suffix and the
-- white space in front of it, and its length is within the limits; and white space at its ends
-- does not matter.
pub validate_agent_name_iff :
    (name : Units)
    → ((is_valid (validate_agent_name name) ≡ true) ↔ IsName (trim name))
      × (validate_agent_name (trim name) ≡ validate_agent_name name)
unfolding validate_agent_name
validate_agent_name_iff name =
    ((check_name-IsName (trim name), IsName-check_name (trim name)), ap check_name (trim_idem name))
