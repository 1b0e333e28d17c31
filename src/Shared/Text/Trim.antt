-- ===== src/Shared/Text/Trim.antt =====
-- Texts: trimming twice is trimming once, and what the end of a text is.
use kalen.Prelude.{
  ℕ, ◌-◌, ◌≡◌, refl, ap, sym, ◌∙◌, true, false, inl, inr, List, [], ◌∷◌, ◌++◌, length,
  length-append, take, drop, take-append-drop, subst, arith, Bool-cases, if◌then◌else◌,
}
use kalen.Shared.Text.{Units, is_white, trim_start, trim_end, trim, same, ends_with}

-- The text does not begin with white space.
abbrev pub Begins : Units → Type 0
Begins [] = Unit
Begins (c ∷ s) = is_white c ≡ false

trim_start-Begins : (s : Units) → Begins (trim_start s)
unfolding trim_start
trim_start-Begins [] = tt
trim_start-Begins (c ∷ s) = elim (Bool-cases (is_white c)) [
  | inl w ↦ rw w (trim_start-Begins s)
  | inr w ↦ rw w w
]

trim_start_begun : (s : Units) → Begins s → trim_start s ≡ s
unfolding trim_start
trim_start_begun [] b = refl
trim_start_begun (c ∷ s) b = rw b refl

trim_end_cons : (c d : ℕ) (s r : Units) → trim_end s ≡ d ∷ r → trim_end (c ∷ s) ≡ c ∷ d ∷ r
unfolding trim_end
trim_end_cons c d s r e = rw (e, trim_end) refl

trim_end_nil :
    (c : ℕ) (s : Units) → trim_end s ≡ [] → trim_end (c ∷ s) ≡ (if is_white c then [] else c ∷ [])
unfolding trim_end
trim_end_nil c s e = rw (e, trim_end) refl

trim_end-Begins : (s : Units) → Begins s → Begins (trim_end s)
unfolding trim_end
trim_end-Begins [] b = tt
trim_end-Begins (c ∷ s) b = go (trim_end s) refl
  where
    go : (t : Units) → trim_end s ≡ t → Begins (trim_end (c ∷ s))
    go [] e = rw (trim_end_nil c s e) (rw b b)
    go (d ∷ r) e = rw (trim_end_cons c d s r e) b

trim_end_idem : (s : Units) → trim_end (trim_end s) ≡ trim_end s
unfolding trim_end
trim_end_idem [] = refl
trim_end_idem (c ∷ s) = go (trim_end s) refl (trim_end_idem s)
  where
    go :
        (t : Units)
        → trim_end s ≡ t
        → trim_end (trim_end s) ≡ trim_end s
        → trim_end (trim_end (c ∷ s)) ≡ trim_end (c ∷ s)
    go [] e ih = rw (trim_end_nil c s e) (elim (Bool-cases (is_white c)) [
      | inl w ↦ rw w refl
      | inr w ↦ rw w (trim_end_nil c [] refl ∙ rw w refl)
    ])
    go (d ∷ r) e ih =
        rw (trim_end_cons c d s r e)
          (trim_end_cons c d (d ∷ r) r (subst (λ u. trim_end u ≡ u) e ih))

pub trim_idem : (s : Units) → trim (trim s) ≡ trim s
unfolding trim
trim_idem s =
    rw
      (trim_start_begun (trim_end (trim_start s))
        (trim_end-Begins (trim_start s) (trim_start-Begins s)))
      (trim_end_idem (trim_start s))

pub same_refl : (s : Units) → same s s ≡ true
unfolding same
same_refl [] = refl
same_refl (c ∷ s) = ground (arith, same_refl s)

eq_of_same : (s t : Units) → same s t ≡ true → s ≡ t
unfolding same
eq_of_same [] [] h = refl
eq_of_same [] (d ∷ t) h = cc
eq_of_same (c ∷ s) [] h = cc
eq_of_same (c ∷ s) (d ∷ t) h = ground (arith, eq_of_same s t)

pub take-append {ℓ} : {A : Type ℓ} (s t : List A) → take (length s) (s ++ t) ≡ s
take-append [] t = refl
take-append (c ∷ s) t = ap (λ r. c ∷ r) (take-append s t)

drop-append {ℓ} : {A : Type ℓ} (s t : List A) → drop (length s) (s ++ t) ≡ t
drop-append [] t = refl
drop-append (c ∷ s) t = drop-append s t

-- A text ends with another exactly if it is some text and then the other.
pub ends_with_split : (s t : Units) → ends_with s t ≡ true → s ≡ take (length s - length t) s ++ t
unfolding ends_with
ends_with_split s t h =
    let e : drop (length s - length t) s ≡ t =
      eq_of_same (drop (length s - length t) s) t (ground (arith, h)) in
    sym (take-append-drop (length s - length t) s) ∙ ap (λ r. take (length s - length t) s ++ r) e

pub ends_with-append : (s t : Units) → ends_with (s ++ t) t ≡ true
unfolding ends_with
ends_with-append s t =
    let n : length (s ++ t) - length t ≡ length s = omega (arith, length-append s t) in
    rw n (ground (arith, length-append s t, drop-append s t, same_refl t))
