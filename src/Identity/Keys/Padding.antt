-- ===== src/Identity/Keys/Padding.antt =====
-- packages/identity/src/agent-identity/creation.ts: the padding that the reader of base64url adds is
-- what the decoder of base64 removes.
use mathlib.Core.List.{append-nil, append_assoc, append_cancel_right}
use kalen.Prelude.{
  ℕ, ◌-◌, ◌%◌, ◌≡◌, ◌≢◌, refl, sym, subst, ◌∙◌, false, inl, inr, [], ◌∷◌, ◌++◌, eqb, length,
  length-append, take, replicate, arith, All, Bool-cases,
}
use kalen.Shared.Text.{Units, ends_with}
use kalen.Shared.Text.Trim.{take-append, ends_with_split, ends_with-append}
use kalen.Identity.Keys.{strip_padding}

-- A text with no padding in it.
abbrev pub IsPlain : Units → Type 0
IsPlain = All (λ c. eqb c 61 ≡ false)

-- A plain text does not end with padding.
plain-ends_with : (x t : Units) → IsPlain (x ++ 61 ∷ t) → ⊥
plain-ends_with [] t h = ground (arith, h.0)
plain-ends_with (c ∷ x) t h = plain-ends_with x t h.1

not_padded : (s t : Units) → IsPlain s → ends_with s (61 ∷ t) ≡ false
not_padded s t h = elim (Bool-cases (ends_with s (61 ∷ t))) [
  | inr n ↦ n
  | inl e ↦ absurd (plain-ends_with _ t (subst IsPlain (ends_with_split s (61 ∷ t) e) h))
]

strip_none : (s : Units) → IsPlain s → length s % 4 ≡ 0 → strip_padding s ≡ s
unfolding strip_padding
strip_none s h n = ground (arith, n, not_padded s [] h, not_padded s (61 ∷ []) h)

take_before : (s t : Units) (n : ℕ) → length t ≡ n → take (length (s ++ t) - n) (s ++ t) ≡ s
take_before s t n e =
    let m : length (s ++ t) - n ≡ length s = omega (arith, e, length-append s t) in
    rw m (take-append s t)

strip_two : (s : Units) → length s % 4 ≡ 2 → strip_padding (s ++ 61 ∷ 61 ∷ []) ≡ s
unfolding strip_padding
strip_two s n =
    let t : Units = 61 ∷ 61 ∷ [] in
    let size : length (s ++ 61 ∷ 61 ∷ []) % 4 ≡ 0 =
      omega (arith, n, length-append s (61 ∷ 61 ∷ [])) in
    ground (arith, size, ends_with-append s (61 ∷ 61 ∷ []), take_before s (61 ∷ 61 ∷ []) 2 refl)

one_not_two : (s : Units) → IsPlain s → ends_with (s ++ 61 ∷ []) (61 ∷ 61 ∷ []) ≡ false
one_not_two s h = elim (Bool-cases (ends_with (s ++ 61 ∷ []) (61 ∷ 61 ∷ []))) [
  | inr n ↦ n
  | inl e ↦
      let split = ends_with_split (s ++ 61 ∷ []) (61 ∷ 61 ∷ []) e in
      let x : Units = take (length (s ++ 61 ∷ []) - 2) (s ++ 61 ∷ []) in
      let same : s ≡ x ++ 61 ∷ [] =
        append_cancel_right s (x ++ 61 ∷ []) (61 ∷ [])
          (split ∙ sym (append_assoc x (61 ∷ []) (61 ∷ []))) in
      absurd (plain-ends_with x [] (subst IsPlain same h))
]

strip_one : (s : Units) → IsPlain s → length s % 4 ≡ 3 → strip_padding (s ++ 61 ∷ []) ≡ s
unfolding strip_padding
strip_one s h n =
    let size : length (s ++ 61 ∷ []) % 4 ≡ 0 = omega (arith, n, length-append s (61 ∷ [])) in
    ground
      (arith, size, one_not_two s h, ends_with-append s (61 ∷ []), take_before s (61 ∷ []) 1 refl)

-- the padding that the decoder adds to a text of this length
abbrev pub added : ℕ → Units
added n = replicate ((4 - n % 4) % 4) 61

pub strip-added :
    (s : Units) → IsPlain s → length s % 4 ≢ 1 → strip_padding (s ++ added (length s)) ≡ s
strip-added s h n = elim (Bool-cases (eqb (length s % 4) 0)) [
  | inl zero_left ↦
      let z : length s % 4 ≡ 0 = ground (arith, zero_left) in
      rw z (rw (append-nil s) (strip_none s h z))
  | inr some_left ↦ elim (Bool-cases (eqb (length s % 4) 2)) [
    | inl two_left ↦ let z : length s % 4 ≡ 2 = ground (arith, two_left) in rw z (strip_two s z)
    | inr other ↦
        let z : length s % 4 ≡ 3 = ground (arith, some_left, other, n) in rw z (strip_one s h z)
  ]
]
