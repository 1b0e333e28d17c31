-- ===== src/Identity/Keys.antt =====
-- packages/identity/src/agent-identity/creation.ts: keys, signatures and their text form. Bytes are
-- numbers below 256; the arithmetic of Ed25519 is that of the library @noble/ed25519.
pub mod Padding
pub mod Base64
pub mod Signatures
pub mod Plain
mod Tests
use kalen.Prelude.{
  ℕ, zero, suc, ◌+◌, ◌-◌, ◌*◌, ◌/◌, ◌%◌, Bool, true, false, not, ◌&&◌, ◌||◌, Option, none, some,
  List, [], ◌∷◌, ◌++◌, ltb, leb, eqb, length, any, map, filter, take, drop, replicate,
  if◌then◌else◌,
}
use kalen.Shared.Text.{Units, ends_with}

abbrev pub Bytes : Type 0
Bytes = List ℕ

-- a character of base64
unfoldable pub digit : ℕ → ℕ
digit n =
    if ltb n 26
    then n + 65
    else if ltb n 52
    then n + 71
    else if ltb n 62
    then n - 4
    else if eqb n 62
    then 43
    else 47

-- the value of a character, if it is one of base64
unfoldable pub value : ℕ → Option ℕ
value c =
    if leb 65 c && leb c 90
    then some (c - 65)
    else if leb 97 c && leb c 122
    then some (c - 71)
    else if leb 48 c && leb c 57
    then some (c + 4)
    else if eqb c 43
    then some 62
    else if eqb c 47
    then some 63
    else none

-- `btoa` of bytes
unfoldable pub btoa : Bytes → Units
unfolding digit
btoa [] = []
btoa (a ∷ []) = digit (a / 4) ∷ digit (a % 4 * 16) ∷ 61 ∷ 61 ∷ []
btoa (a ∷ b ∷ []) = digit (a / 4) ∷ digit (a % 4 * 16 + b / 16) ∷ digit (b % 16 * 4) ∷ 61 ∷ []
btoa (a ∷ b ∷ c ∷ r) =
    digit (a / 4)
    ∷ digit (a % 4 * 16 + b / 16)
    ∷ digit (b % 16 * 4 + c / 64)
    ∷ digit (c % 64)
    ∷ btoa r

-- the values of all characters, if they all are of base64
unfoldable pub values : Units → Option (List ℕ)
unfolding value
values [] = some []
values (c ∷ s) = elim (value c) [
  | none ↦ none
  | some v ↦ elim (values s) [ none ↦ none | some vs ↦ some (v ∷ vs) ]
]

-- the bytes in the values; what is left of the last value is dropped
unfoldable pub collect : List ℕ → Bytes
collect [] = []
collect (a ∷ []) = []
collect (a ∷ b ∷ []) = (a * 4 + b / 16) ∷ []
collect (a ∷ b ∷ c ∷ []) = (a * 4 + b / 16) ∷ (b % 16 * 16 + c / 4) ∷ []
collect (a ∷ b ∷ c ∷ d ∷ r) =
    (a * 4 + b / 16) ∷ (b % 16 * 16 + c / 4) ∷ (c % 4 * 64 + d) ∷ collect r

-- the padding that `atob` removes, of a text whose length is a multiple of four
unfoldable pub strip_padding : Units → Units
unfolding ends_with
strip_padding s =
    if not (eqb (length s % 4) 0)
    then s
    else if ends_with s (61 ∷ 61 ∷ [])
    then take (length s - 2) s
    else if ends_with s (61 ∷ [])
    then take (length s - 1) s
    else s

abbrev pub is_ascii_white : ℕ → Bool
is_ascii_white c = any (eqb c) (9 ∷ 10 ∷ 12 ∷ 13 ∷ 32 ∷ [])

-- what `atob` does with what is left without white space and padding
unfoldable pub read_base64 : Units → Option Bytes
unfolding values collect
read_base64 s =
    if eqb (length s % 4) 1
    then none
    else elim (values s) [ none ↦ none | some vs ↦ some (collect vs) ]

-- `atob`: `none` where it throws
unfoldable pub atob : Units → Option Bytes
unfolding strip_padding read_base64
atob text = read_base64 (strip_padding (filter (λ c. not (is_ascii_white c)) text))

-- `.replace(/\+/g, "-").replace(/\//g, "_")`, and back
abbrev pub to_url : ℕ → ℕ
to_url c = if eqb c 43 then 45 else if eqb c 47 then 95 else c

abbrev pub from_url : ℕ → ℕ
from_url c = if eqb c 45 then 43 else if eqb c 95 then 47 else c

-- `bytesToBase64url`
unfoldable pub bytes_to_base64url : Bytes → Units
unfolding btoa
bytes_to_base64url bytes = filter (λ c. not (eqb c 61)) (map to_url (btoa bytes))

-- `base64urlToBytes`: `none` where it throws
unfoldable pub base64url_to_bytes : Units → Option Bytes
unfolding atob
base64url_to_bytes text = atob (map from_url text ++ replicate ((4 - length text % 4) % 4) 61)

-- one code point in UTF-8
abbrev utf8 : ℕ → Bytes
utf8 c =
    if ltb c 128
    then c ∷ []
    else if ltb c 2048
    then (192 + c / 64) ∷ (128 + c % 64) ∷ []
    else if ltb c 65536
    then (224 + c / 4096) ∷ (128 + c / 64 % 64) ∷ (128 + c % 64) ∷ []
    else (240 + c / 262144) ∷ (128 + c / 4096 % 64) ∷ (128 + c / 64 % 64) ∷ (128 + c % 64) ∷ []

abbrev is_high : ℕ → Bool
is_high c = leb 55296 c && leb c 56319

abbrev is_low : ℕ → Bool
is_low c = leb 56320 c && leb c 57343

-- `new TextEncoder().encode(…)`: a half of a pair that stands alone becomes U+FFFD
unfoldable pub encode : Units → Bytes
encode [] = []
encode (c ∷ []) = if is_high c || is_low c then utf8 65533 else utf8 c
encode (c ∷ d ∷ s) =
    let paired = utf8 (65536 + (c - 55296) * 1024 + (d - 56320)) ++ encode s in
    let alone = utf8 65533 ++ encode (d ∷ s) in
    let plain = utf8 c ++ encode (d ∷ s) in
    if is_high c then (if is_low d then paired else alone) else if is_low c then alone else plain

-- the library: `verify` gives `none` where it throws
pub record Noble : Type 0 where
  pub get_public_key : (secret_key : Bytes) → Bytes
  pub sign : (message secret_key : Bytes) → Bytes
  pub verify : (signature message public_key : Bytes) → Option Bool

-- `Ed25519Signer`
pub record Signer : Type 0 where
  pub private_key : Option Bytes
  pub public_key : Bytes

module _ (ed : Noble) where
  -- `generate`, with the random key, and `fromPrivateKey`
  unfoldable pub from_private_key : Bytes → Signer
  from_private_key secret_key = record {
    private_key = some secret_key;
    public_key = ed.get_public_key secret_key;
  }

  -- `sign`: `none` where there is no private key
  unfoldable pub sign : Signer → Units → Option Units
  unfolding encode bytes_to_base64url
  sign signer message = elim signer.private_key [
    | none ↦ none
    | some secret_key ↦ some (bytes_to_base64url (ed.sign (encode message) secret_key))
  ]

  abbrev or_false : Option Bool → Bool
  or_false none = false
  or_false (some b) = b

  -- `verify` on bytes
  abbrev check_bytes : Units → Bytes → Bytes → Bool
  check_bytes message sig_bytes pub_bytes =
      if not (eqb (length sig_bytes) 64)
      then false
      else if not (eqb (length pub_bytes) 32)
      then false
      else or_false (ed.verify sig_bytes (encode message) pub_bytes)

  -- `Ed25519Signer.verify`
  unfoldable pub verify : (message signature public_key : Units) → Bool
  unfolding base64url_to_bytes encode
  verify message signature public_key = elim (base64url_to_bytes signature) [
    | none ↦ false
    | some sig_bytes ↦ elim (base64url_to_bytes public_key) [
      | none ↦ false
      | some pub_bytes ↦ check_bytes message sig_bytes pub_bytes
    ]
  ]

-- `getPublicKeyBase64url`
unfoldable pub get_public_key_base64url : Signer → Units
unfolding bytes_to_base64url
get_public_key_base64url signer = bytes_to_base64url signer.public_key
