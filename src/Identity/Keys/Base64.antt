-- ===== src/Identity/Keys/Base64.antt =====
-- packages/identity/src/agent-identity/creation.ts: bytes in base64url and back.
use kalen.Prelude.{
  ℕ, zero, suc, ◌+◌, ◌-◌, ◌*◌, ◌/◌, ◌%◌, ◌<◌, ◌≡◌, ◌≢◌, refl, ap, ◌∙◌, false, not, some, List, [],
  ◌∷◌, ◌++◌, eqb, length, length-map, map, filter, filter-append, replicate, arith, All,
}
use mathlib.Core.List.{append-nil}
use kalen.Shared.Text.{Units}
use kalen.Identity.Keys.Padding.{IsPlain, added, strip-added}
use kalen.Identity.Keys.{
  Bytes, digit, value, btoa, values, collect, strip_padding, read_base64, atob, is_ascii_white,
  to_url, from_url, bytes_to_base64url, base64url_to_bytes,
}

abbrev pub AreBytes : Bytes → Type 0
AreBytes = All (λ b. b < 256)

-- the values of the characters that bytes become
unfoldable pub sextets : Bytes → List ℕ
sextets [] = []
sextets (a ∷ []) = a / 4 ∷ a % 4 * 16 ∷ []
sextets (a ∷ b ∷ []) = a / 4 ∷ (a % 4 * 16 + b / 16) ∷ b % 16 * 4 ∷ []
sextets (a ∷ b ∷ c ∷ r) = a / 4 ∷ (a % 4 * 16 + b / 16) ∷ (b % 16 * 4 + c / 64) ∷ c % 64 ∷ sextets r

abbrev pub AreValues : List ℕ → Type 0
AreValues = All (λ n. n < 64)

pub sextets-AreValues : (bs : Bytes) → AreBytes bs → AreValues (sextets bs)
unfolding sextets
sextets-AreValues [] h = tt
sextets-AreValues (a ∷ []) h = (omega arith, (omega arith, tt))
sextets-AreValues (a ∷ b ∷ []) h = (omega arith, (omega arith, (omega arith, tt)))
sextets-AreValues (a ∷ b ∷ c ∷ r) h =
    (omega arith, (omega arith, (omega arith, (omega arith, sextets-AreValues r h.1.1.1))))

collect-sextets : (bs : Bytes) → AreBytes bs → collect (sextets bs) ≡ bs
unfolding sextets collect
collect-sextets [] h = refl
collect-sextets (a ∷ []) h = ground arith
collect-sextets (a ∷ b ∷ []) h = ground arith
collect-sextets (a ∷ b ∷ c ∷ r) h = ground (arith, collect-sextets r h.1.1.1)

length-sextets : (bs : Bytes) → length (sextets bs) % 4 ≢ 1
unfolding sextets
length-sextets [] h = absurd (omega arith)
length-sextets (a ∷ []) h = absurd (omega arith)
length-sextets (a ∷ b ∷ []) h = absurd (omega arith)
length-sextets (a ∷ b ∷ c ∷ r) h = length-sextets r (omega arith)

-- a character of base64url
abbrev pub url_digit : ℕ → ℕ
url_digit n = to_url (digit n)

value-digit : (n : ℕ) → n < 64 → value (digit n) ≡ some n
unfolding digit value
value-digit n h = ground arith

from_url-url_digit : (n : ℕ) → n < 64 → from_url (url_digit n) ≡ digit n
unfolding digit
from_url-url_digit n h = ground arith

url_digit-ne-padding : (n : ℕ) → n < 64 → eqb (url_digit n) 61 ≡ false
unfolding digit
url_digit-ne-padding n h = ground arith

digit-ne-padding : (n : ℕ) → n < 64 → eqb (digit n) 61 ≡ false
unfolding digit
digit-ne-padding n h = ground arith

digit-ne-white : (n : ℕ) → n < 64 → is_ascii_white (digit n) ≡ false
unfolding digit
digit-ne-white n h = ground arith

values-digit : (vs : List ℕ) → AreValues vs → values (map digit vs) ≡ some vs
unfolding values
values-digit [] h = refl
values-digit (v ∷ vs) h = rw (value-digit v h.0, values) (rw (values-digit vs h.1) refl)

from_url-to_url : (vs : List ℕ) → AreValues vs → map from_url (map url_digit vs) ≡ map digit vs
from_url-to_url [] h = refl
from_url-to_url (v ∷ vs) h = ground (arith, from_url-url_digit v h.0, from_url-to_url vs h.1)

-- without padding
abbrev unpadded : Units → Units
unpadded = filter (λ c. not (eqb c 61))

unpadded-map :
    (vs : List ℕ) (rest : Units)
    → AreValues vs
    → unpadded (map url_digit vs ++ rest) ≡ map url_digit vs ++ unpadded rest
unpadded-map [] rest h = refl
unpadded-map (v ∷ vs) rest h =
    rw (url_digit-ne-padding v h.0) (ap (λ t. url_digit v ∷ t) (unpadded-map vs rest h.1))

-- the padding of the text of bytes
padding : Bytes → Units
padding [] = []
padding (a ∷ []) = 61 ∷ 61 ∷ []
padding (a ∷ b ∷ []) = 61 ∷ []
padding (a ∷ b ∷ c ∷ r) = padding r

to_url-btoa : (bs : Bytes) → map to_url (btoa bs) ≡ map url_digit (sextets bs) ++ padding bs
unfolding btoa sextets padding
to_url-btoa [] = refl
to_url-btoa (a ∷ []) = refl
to_url-btoa (a ∷ b ∷ []) = refl
to_url-btoa (a ∷ b ∷ c ∷ r) = rw (to_url-btoa r) refl

unpadded-padding : (bs : Bytes) → unpadded (padding bs) ≡ []
unfolding padding
unpadded-padding [] = refl
unpadded-padding (a ∷ []) = refl
unpadded-padding (a ∷ b ∷ []) = refl
unpadded-padding (a ∷ b ∷ c ∷ r) = unpadded-padding r

pub bytes_to_base64url-eq-map :
    (bs : Bytes) → AreBytes bs → bytes_to_base64url bs ≡ map url_digit (sextets bs)
unfolding bytes_to_base64url
bytes_to_base64url-eq-map bs h = rw (to_url-btoa bs) (
    unpadded-map (sextets bs) (padding bs) (sextets-AreValues bs h)
    ∙ rw (unpadded-padding bs) (append-nil (map url_digit (sextets bs))))

digits-IsPlain : (vs : List ℕ) → AreValues vs → IsPlain (map digit vs)
digits-IsPlain [] h = tt
digits-IsPlain (v ∷ vs) h = (digit-ne-padding v h.0, digits-IsPlain vs h.1)

-- without white space
abbrev dense : Units → Units
dense = filter (λ c. not (is_ascii_white c))

dense-map : (vs : List ℕ) → AreValues vs → dense (map digit vs) ≡ map digit vs
dense-map [] h = refl
dense-map (v ∷ vs) h = rw (digit-ne-white v h.0) (ap (λ t. digit v ∷ t) (dense-map vs h.1))

dense-replicate : (n : ℕ) → dense (replicate n 61) ≡ replicate n 61
dense-replicate zero = refl
dense-replicate (suc n) = ap (λ t. 61 ∷ t) (dense-replicate n)

read_base64-digits :
    (vs : List ℕ)
    → AreValues vs
    → length vs % 4 ≢ 1
    → read_base64 (map digit vs) ≡ some (collect vs)
unfolding read_base64
read_base64-digits vs h n =
    let more : eqb (length (map digit vs) % 4) 1 ≡ false = ground (arith, n, length-map digit vs) in
    rw (more, read_base64) (rw (values-digit vs h) refl)

atob-added :
    (vs : List ℕ)
    → AreValues vs
    → length vs % 4 ≢ 1
    → atob (map digit vs ++ added (length vs)) ≡ some (collect vs)
unfolding atob
atob-added vs h n =
    let size = length-map digit vs in
    let clean : dense (map digit vs ++ added (length vs)) ≡ map digit vs ++ added (length vs) =
      filter-append (λ c. not (is_ascii_white c)) (map digit vs) (added (length vs))
      ∙ rw (dense-map vs h)
          (ap (λ t. map digit vs ++ t) (dense-replicate ((4 - length vs % 4) % 4))) in
    let stripped : strip_padding (map digit vs ++ added (length vs)) ≡ map digit vs =
      rw (← size) (strip-added (map digit vs) (digits-IsPlain vs h) (rw size n)) in
    rw clean (rw stripped (read_base64-digits vs h n))

-- Bytes that are written in base64url are read back: whatever the bytes, the text is one that the
-- reader accepts, and it gives the same bytes.
pub base64url_round_trip :
    (bytes : Bytes) → AreBytes bytes → base64url_to_bytes (bytes_to_base64url bytes) ≡ some bytes
unfolding base64url_to_bytes
base64url_round_trip bytes h =
    let vs = sextets-AreValues bytes h in
    let n = length-map url_digit (sextets bytes) in
    rw (bytes_to_base64url-eq-map bytes h) (
      rw n (
        rw (from_url-to_url (sextets bytes) vs) (
          atob-added (sextets bytes) vs (length-sextets bytes)
          ∙ ap some (collect-sextets bytes h))))
