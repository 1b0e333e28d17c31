-- ===== src/Shared/Validation/Email.antt =====
-- packages/shared/src/utils/validation.ts: addresses of mail. The regular expression is read as what
-- it describes: characters, one `@`, and labels with dots between them.
use kalen.Prelude.{
  ℕ, ◌≤◌, ◌≡◌, refl, Bool, true, false, not, ◌&&◌, ◌||◌, Option, none, some, List, [], ◌∷◌, ◌++◌,
  ltb, leb, eqb, inl, inr, length, any, all, map, arith, Option-cases, ◌∙◌, ◌<◌, if◌then◌else◌,
}
use mathlib.Core.List.{append-nil}
use kalen.Shared.Text.{Units, trim, lower, is_alphanumeric}
use kalen.Shared.Validation.{Verdict, valid, invalid, is_valid}

pub data EmailError : Type 0 where
  empty too_long bad_format bad_local_part no_dot : EmailError

-- `[a-zA-Z0-9.!#$%&'*+/=?^_`{|}~-]`
unfoldable pub is_local_unit : ℕ → Bool
unfolding is_alphanumeric
is_local_unit c =
    is_alphanumeric c
    || any (eqb c) (
        46 ∷ 33 ∷ 35 ∷ 36 ∷ 37 ∷ 38 ∷ 39 ∷ 42 ∷ 43 ∷ 47 ∷ 61 ∷ 63 ∷ 94 ∷ 95 ∷ 96 ∷ 123 ∷ 124 ∷ 125
        ∷ 126 ∷ 45 ∷ [])

-- `s.split(…)` at one code unit: the first part, and the others
unfoldable pub split : ℕ → Units → Units × List Units
split at [] = ([], [])
split at (c ∷ s) =
    let (part, parts) = split at s in if eqb c at then ([], part ∷ parts) else (c ∷ part, parts)

-- whether the last unit passes a test
abbrev last_is : (ℕ → Bool) → Units → Bool
last_is p [] = false
last_is p (c ∷ []) = p c
last_is p (c ∷ d ∷ s) = last_is p (d ∷ s)

-- `[a-zA-Z0-9](?:[a-zA-Z0-9-]{0,61}[a-zA-Z0-9])?`
unfoldable pub is_label : Units → Bool
unfolding is_alphanumeric
is_label [] = false
is_label (c ∷ s) =
    (is_alphanumeric c && leb (length s) 62)
    && (all (λ d. is_alphanumeric d || eqb d 45) s && last_is is_alphanumeric (c ∷ s))

-- labels, with dots between them
unfoldable pub is_domain : Units → Bool
unfolding split is_label
is_domain s = let (label, labels) = split 46 s in is_label label && all is_label labels

-- the two parts of a text with one `@`
abbrev pub two_parts : Units × List Units → Option (Units × Units)
two_parts (local_part, domain ∷ []) = some (local_part, domain)
two_parts _ = none

-- `validateEmail` past the trimming and the change to lower case
unfoldable pub check_email : Units → Verdict EmailError
unfolding is_local_unit split is_domain
check_email trimmed =
    if eqb (length trimmed) 0
    then invalid empty
    else if ltb 254 (length trimmed)
    then invalid too_long
    else elim (two_parts (split 64 trimmed)) [
      | none ↦ invalid bad_format
      | some (local_part, domain) ↦
          if not ((ltb 0 (length local_part) && all is_local_unit local_part) && is_domain domain)
          then invalid bad_format
          else if ltb 64 (length local_part)
          then invalid bad_local_part
          else if not (any (eqb 46) domain)
          then invalid no_dot
          else valid
    ]

-- `validateEmail`
unfoldable pub validate_email : Units → Verdict EmailError
unfolding check_email trim lower
validate_email email = check_email (map lower (trim email))

-- The parts that a text is split into, with the unit between them, are the text.
abbrev pub join : ℕ → List Units → Units
join at [] = []
join at (part ∷ parts) = at ∷ (part ++ join at parts)

pub join-split : (at : ℕ) (s : Units) → (split at s).0 ++ join at (split at s).1 ≡ s
unfolding split
join-split at [] = refl
join-split at (c ∷ s) = ground (arith, join-split at s)

-- What the parts of a valid address are.
pub record IsAddress (s : Units) : Type 0 where
  pub local_part : Units
  pub domain : Units
  pub parts : s ≡ local_part ++ 64 ∷ domain
  pub whole_short : length s ≤ 254
  pub local_filled : 0 < length local_part
  pub local_short : length local_part ≤ 64
  pub allowed : all is_local_unit local_part ≡ true
  pub labels : is_domain domain ≡ true
  pub dotted : any (eqb 46) domain ≡ true

two_parts-some :
    (r : Units × List Units) (l d : Units) → two_parts r ≡ some (l, d) → r ≡ (l, d ∷ [])
two_parts-some (x, []) l d h = cc
two_parts-some (x, y ∷ []) l d h = ground (arith, h)
two_parts-some (x, y ∷ z ∷ r) l d h = cc

check_email-IsAddress : (s : Units) → is_valid (check_email s) ≡ true → IsAddress s
unfolding check_email
check_email-IsAddress s h = elim (Option-cases (two_parts (split 64 s))) [
  | inl e ↦ absurd (ground (arith, e, h))
  | inr ((l, d), e) ↦
      let r = two_parts-some (split 64 s) l d e in
      let j = join-split 64 s in
      let w : s ≡ l ++ 64 ∷ (d ++ []) = ground (arith, j, r) in
      record {
        local_part = l;
        domain = d;
        parts = w ∙ rw (append-nil d) refl;
        whole_short = ground (arith, e, h);
        local_filled = ground (arith, e, h);
        local_short = ground (arith, e, h);
        allowed = ground (arith, e, h);
        labels = ground (arith, e, h);
        dotted = ground (arith, e, h);
      }
]

-- An address that is valid is, without the white space at its ends and in lower case, at most 254
-- characters: a part of 1 to 64 allowed characters, an `@`, and a domain of labels with a dot.
pub validate_email-IsAddress :
    (email : Units) → is_valid (validate_email email) ≡ true → IsAddress (map lower (trim email))
unfolding validate_email
validate_email-IsAddress email h = check_email-IsAddress (map lower (trim email)) h
