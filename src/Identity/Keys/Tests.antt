-- ===== src/Identity/Keys/Tests.antt =====
-- Keys and their texts on small inputs, and the theorems applied to them.
use kalen.Prelude.{◌≡◌, refl, none, some, [], ◌∷◌, arith}
use kalen.Shared.Text.{Units, units}
use kalen.Identity.Keys.{Bytes, encode, bytes_to_base64url, base64url_to_bytes}
use kalen.Identity.Keys.Base64.{base64url_round_trip}
use kalen.Identity.Keys.Plain.{plain}

abbrev bytes : Bytes
bytes = 255 ∷ 239 ∷ 1 ∷ 0 ∷ []

key_tests :
    (bytes_to_base64url bytes ≡ units "_-8BAA")
    × (base64url_to_bytes (units "_-8BAA") ≡ some bytes)
    × (base64url_to_bytes (units "a") ≡ none)
    × (base64url_to_bytes (units "a?aa") ≡ none)
    × (encode (units "aé€") ≡ 97 ∷ 195 ∷ 169 ∷ 226 ∷ 130 ∷ 172 ∷ [])
unfolding bytes_to_base64url base64url_to_bytes encode units
key_tests = (refl, refl, refl, refl, refl)

base64url_round_trip_example : base64url_to_bytes (bytes_to_base64url bytes) ≡ some bytes
base64url_round_trip_example = base64url_round_trip bytes (omega arith)

abbrev signature : Units
signature = bytes_to_base64url (plain.sign (encode (units "hi")) bytes)
