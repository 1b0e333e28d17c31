-- ===== src/Shared/Validation.antt =====
-- packages/shared/src/utils/validation.ts. A regular expression is a test on code units; that an
-- argument is a text holds by its type.
pub mod Names
pub mod Keys
pub mod Schemas
pub mod Email
mod Tests
use Prim.Native.String.{String}
use kalen.Prelude.{
  ℕ, zero, suc, ◌+◌, ◌-◌, ◌*◌, ◌/◌, ◌≡◌, Bool, true, false, not, ◌&&◌, ◌||◌, Option, none, some,
  List, [], ◌∷◌, ◌++◌, ltb, leb, eqb, length, any, all, take, drop, if◌then◌else◌,
}
use kalen.Shared.Text.{Units, units, is_white, trim, trim_end, ends_with, lower, is_alphanumeric}

-- what a validation says: `valid`, or the error
pub data Verdict {ℓ} (E : Type ℓ) : Type ℓ where
  valid : Verdict E
  invalid : E → Verdict E

abbrev pub is_valid {ℓ} : {E : Type ℓ} → Verdict E → Bool
is_valid valid = true
is_valid (invalid e) = false

abbrev pub min_agent_name_length : ℕ
min_agent_name_length = 6

abbrev pub max_agent_name_length : ℕ
max_agent_name_length = 64

abbrev pub ed25519_public_key_length : ℕ
ed25519_public_key_length = 32

-- `AGENT_DISPLAY_SUFFIX`, " (ai)"
abbrev pub agent_display_suffix : Units
agent_display_suffix = 32 ∷ 40 ∷ 97 ∷ 105 ∷ 41 ∷ []

-- `[a-zA-Z0-9_\-. ]`
unfoldable pub is_name_unit : ℕ → Bool
unfolding is_alphanumeric
is_name_unit c = is_alphanumeric c || any (eqb c) (95 ∷ 45 ∷ 46 ∷ 32 ∷ [])

pub data NameError : Type 0 where
  too_short too_long no_suffix no_base bad_characters : NameError

-- the name before the suffix
unfoldable pub base_name : Units → Units
unfolding trim_end
base_name trimmed = trim_end (take (length trimmed - length agent_display_suffix) trimmed)

-- `validateAgentName` past the trimming
unfoldable pub check_name : Units → Verdict NameError
unfolding ends_with base_name is_name_unit
check_name trimmed =
    if ltb (length trimmed) min_agent_name_length
    then invalid too_short
    else if ltb max_agent_name_length (length trimmed)
    then invalid too_long
    else if not (ends_with trimmed agent_display_suffix)
    then invalid no_suffix
    else if eqb (length (base_name trimmed)) 0
    then invalid no_base
    else if not (all is_name_unit (base_name trimmed))
    then invalid bad_characters
    else valid

-- `validateAgentName`
unfoldable pub validate_agent_name : Units → Verdict NameError
unfolding check_name trim
validate_agent_name name = check_name (trim name)

-- `[A-Za-z0-9_-]`
unfoldable pub is_base64url_unit : ℕ → Bool
unfolding is_alphanumeric
is_base64url_unit c = is_alphanumeric c || any (eqb c) (95 ∷ 45 ∷ [])

pub data KeyError : Type 0 where
  empty not_base64url : KeyError
  wrong_length : ℕ → KeyError

-- `validatePublicKey`
unfoldable pub validate_public_key : Units → Verdict KeyError
unfolding is_base64url_unit
validate_public_key key =
    if eqb (length key) 0
    then invalid empty
    else if not (all is_base64url_unit key)
    then invalid not_base64url
    else if not (eqb (length key * 3 / 4) ed25519_public_key_length)
    then invalid (wrong_length (length key * 3 / 4))
    else valid
