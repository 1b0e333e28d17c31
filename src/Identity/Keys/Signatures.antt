-- ===== src/Identity/Keys/Signatures.antt =====
-- packages/identity/src/agent-identity/creation.ts: what is signed is verified, and keys are valid.
use kalen.Prelude.{
  ℕ, ◌+◌, ◌*◌, ◌/◌, ◌<◌, ◌≡◌, refl, true, some, List, [], ◌∷◌, length, length-map, all, map, arith,
}
use kalen.Shared.Text.{Units}
use kalen.Shared.Validation.{is_valid, is_base64url_unit, validate_public_key}
use kalen.Shared.Validation.Keys.{validate_public_key_iff}
use kalen.Identity.Keys.{
  Bytes, digit, encode, bytes_to_base64url, Noble, from_private_key, sign, verify,
  get_public_key_base64url,
}
use kalen.Identity.Keys.Base64.{
  AreBytes, AreValues, sextets, sextets-AreValues, url_digit, bytes_to_base64url-eq-map,
  base64url_round_trip,
}

-- What the library says of itself: a key of 32 bytes, a signature of 64, and that it verifies what it
-- has signed under the public key of the private one.
pub record IsNoble (ed : Noble) : Type 0 where
  pub key_length : (k : Bytes) → length (ed.get_public_key k) ≡ 32
  pub key_bytes : (k : Bytes) → AreBytes (ed.get_public_key k)
  pub signature_length : (m k : Bytes) → length (ed.sign m k) ≡ 64
  pub signature_bytes : (m k : Bytes) → AreBytes (ed.sign m k)
  pub verifies : (m k : Bytes) → ed.verify (ed.sign m k) m (ed.get_public_key k) ≡ some true

length-sextets : (bs : Bytes) → length (sextets bs) ≡ (length bs * 4 + 2) / 3
unfolding sextets
length-sextets [] = omega arith
length-sextets (a ∷ []) = omega arith
length-sextets (a ∷ b ∷ []) = omega arith
length-sextets (a ∷ b ∷ c ∷ r) = omega (arith, length-sextets r)

url_digit-IsBase64url : (n : ℕ) → n < 64 → is_base64url_unit (url_digit n) ≡ true
unfolding is_base64url_unit digit
url_digit-IsBase64url n h = ground arith

url_digits-IsBase64url :
    (vs : List ℕ) → AreValues vs → all is_base64url_unit (map url_digit vs) ≡ true
url_digits-IsBase64url [] h = refl
url_digits-IsBase64url (v ∷ vs) h =
    ground (arith, url_digit-IsBase64url v h.0, url_digits-IsBase64url vs h.1)

-- With a library that keeps its word, the public key of every private key has a valid text.
pub generated_key-IsValid :
    (ed : Noble) (secret_key : Bytes)
    → IsNoble ed
    → is_valid (validate_public_key (get_public_key_base64url (from_private_key ed secret_key)))
      ≡ true
unfolding get_public_key_base64url from_private_key
generated_key-IsValid ed k n =
    let key : Bytes = ed.get_public_key k in
    let text = bytes_to_base64url-eq-map (ed.get_public_key k) (n.key_bytes k) in
    let size : length (map url_digit (sextets (ed.get_public_key k))) ≡ 43 = omega (
      arith,
      length-map url_digit (sextets (ed.get_public_key k)),
      length-sextets (ed.get_public_key k),
      n.key_length k,
    ) in
    (validate_public_key_iff (bytes_to_base64url (ed.get_public_key k))).1 (
      rw text (
        size,
        url_digits-IsBase64url (sextets (ed.get_public_key k))
            (sextets-AreValues (ed.get_public_key k) (n.key_bytes k)),
      ))

-- With a library that keeps its word, what a private key has signed is verified, as the text that it
-- was given, with the text of the signature and the text of the public key.
pub verify-sign :
    (ed : Noble) (secret_key : Bytes) (message signature : Units)
    → IsNoble ed
    → sign ed (from_private_key ed secret_key) message ≡ some signature
    → verify ed message signature (get_public_key_base64url (from_private_key ed secret_key)) ≡ true
unfolding sign verify get_public_key_base64url from_private_key
verify-sign ed k message signature n h =
    let s : bytes_to_base64url (ed.sign (encode message) k) ≡ signature = ground (arith, h) in
    let read_signature =
      base64url_round_trip (ed.sign (encode message) k) (n.signature_bytes (encode message) k) in
    let read_key = base64url_round_trip (ed.get_public_key k) (n.key_bytes k) in
    rw (← s) (
      rw (read_signature, verify)
        (rw read_key (
          ground (
            arith,
            n.signature_length (encode message) k,
            n.key_length k,
            n.verifies (encode message) k,
          ))))

-- A signature of the library has a text that is not empty.
pub sign-length :
    (ed : Noble) (secret_key : Bytes) (message signature : Units)
    → IsNoble ed
    → sign ed (from_private_key ed secret_key) message ≡ some signature
    → length signature ≡ 86
unfolding sign from_private_key
sign-length ed k message signature n h =
    let bytes : Bytes = ed.sign (encode message) k in
    let s : bytes_to_base64url (ed.sign (encode message) k) ≡ signature = ground (arith, h) in
    rw (← s) (
      rw
        (bytes_to_base64url-eq-map (ed.sign (encode message) k)
          (n.signature_bytes (encode message) k))
        (omega (
          arith,
          length-map url_digit (sextets (ed.sign (encode message) k)),
          length-sextets (ed.sign (encode message) k),
          n.signature_length (encode message) k,
        )))
