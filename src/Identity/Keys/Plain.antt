-- ===== src/Identity/Keys/Plain.antt =====
-- A library of signatures for the tests: a signature says how long its message is.
use kalen.Prelude.{ℕ, ◌%◌, ◌<◌, ◌≡◌, refl, some, length, replicate, zero, suc, arith, All}
use kalen.Shared.Text.{same}
use kalen.Shared.Text.Trim.{same_refl}
use kalen.Identity.Keys.{Noble}
use kalen.Identity.Keys.Signatures.{IsNoble}

abbrev pub plain : Noble
plain = record {
  get_public_key = λ k. replicate 32 7;
  sign = λ m k. replicate 64 (length m % 256);
  verify = λ s m p. some (same s (replicate 64 (length m % 256)));
}

All-replicate : (n b : ℕ) → b < 256 → All (λ c. c < 256) (replicate n b)
All-replicate zero b h = tt
All-replicate (suc n) b h = (h, All-replicate n b h)

length-replicate : (n b : ℕ) → length (replicate n b) ≡ n
length-replicate zero b = refl
length-replicate (suc n) b = omega (arith, length-replicate n b)

pub plain-IsNoble : IsNoble plain
plain-IsNoble = record {
  key_length = λ k. refl;
  key_bytes = λ k. All-replicate 32 7 (omega arith);
  signature_length = λ m k. length-replicate 64 (length m % 256);
  signature_bytes = λ m k. All-replicate 64 (length m % 256) (omega arith);
  verifies = λ m k. ground (arith, same_refl (replicate 64 (length m % 256)));
}
