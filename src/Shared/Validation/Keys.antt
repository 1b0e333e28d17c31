-- ===== src/Shared/Validation/Keys.antt =====
-- packages/shared/src/utils/validation.ts: which public keys are valid.
use kalen.Prelude.{◌≡◌, ◌↔◌, true, length, all, arith}
use kalen.Shared.Text.{Units}
use kalen.Shared.Validation.{is_valid, is_base64url_unit, validate_public_key}

-- A public key is valid exactly if it has 43 characters, all of the alphabet of base64url: the
-- length of 32 bytes without padding.
pub validate_public_key_iff :
    (key : Units)
    → (is_valid (validate_public_key key) ≡ true)
      ↔ ((length key ≡ 43) × (all is_base64url_unit key ≡ true))
unfolding validate_public_key
validate_public_key_iff key =
    (λ h. (ground (arith, h), ground (arith, h)), λ h. ground (arith, h.0, h.1))
