-- ===== src/Server/Pages/Partition.antt =====
-- The pages of a list: together they are the list.
use kalen.Prelude.{
  take-append-drop, take, drop, ℕ, zero, suc, ◌+◌, ◌-◌, ◌*◌, ◌≤◌, ◌<◌, ◌≡◌, refl, ap, sym, ◌∙◌,
  none, some, List, [], ◌∷◌, ◌++◌, arith, length,
}
use mathlib.Core.List.{append_assoc, append-nil}
use kalen.Server.Pages.{cut, total_pages}

next_offset : (page limit : ℕ) → 0 < page → (page - 1) * limit + limit ≡ (page + 1 - 1) * limit
next_offset page limit h =
    let before : ℕ = page - 1 in
    let e : page ≡ before + 1 = omega arith in
    let f : page + 1 - 1 ≡ before + 1 = omega arith in rw f (grind arith)

module _ {ℓ} {A : Type ℓ} where
  drop-drop : (m n k : ℕ) (xs : List A) → n + m ≡ k → drop m (drop n xs) ≡ drop k xs
  drop-drop m zero k xs e = let e' : m ≡ k = omega arith in ap (λ t. drop t xs) e'
  drop-drop zero (suc n) zero xs e = absurd (omega arith)
  drop-drop (suc m) (suc n) zero xs e = absurd (omega arith)
  drop-drop zero (suc n) (suc k) [] e = refl
  drop-drop (suc m) (suc n) (suc k) [] e = refl
  drop-drop m (suc n) (suc k) (x ∷ xs) e = drop-drop m n k xs (omega arith)

  drop_all : (n : ℕ) (xs : List A) → length xs ≤ n → drop n xs ≡ []
  drop_all zero [] h = refl
  drop_all zero (x ∷ xs) h = absurd (omega arith)
  drop_all (suc n) [] h = refl
  drop_all (suc n) (x ∷ xs) h = drop_all n xs (omega arith)

  -- what the pages from one on hold, for a number of pages
  abbrev pub pages_from : (page count limit : ℕ) → List A → List A
  pages_from page zero limit rows = []
  pages_from page (suc count) limit rows = elim (cut page limit rows) [
    | none ↦ []
    | some p ↦ p ++ pages_from (page + 1) count limit rows
  ]

  cut-some :
      (page limit : ℕ) (rows : List A)
      → 0 < page
      → cut page limit rows ≡ some (take limit (drop ((page - 1) * limit) rows))
  unfolding cut
  cut-some page limit rows h = ground arith

  pages_from_first :
      (page count limit : ℕ) (rows : List A)
      → 0 < page
      → pages_from page (suc count) limit rows
        ≡ take limit (drop ((page - 1) * limit) rows) ++ pages_from (page + 1) count limit rows
  pages_from_first page count limit rows h = rw (cut-some page limit rows h, pages_from) refl

  pages_from-append-drop :
      (page count limit start end : ℕ) (rows : List A)
      → 0 < page
      → start ≡ (page - 1) * limit
      → end ≡ start + count * limit
      → pages_from page count limit rows ++ drop end rows ≡ drop start rows
  pages_from-append-drop page zero limit start end rows h s e =
      let e' : end ≡ start = omega arith in ap (λ t. drop t rows) e'
  pages_from-append-drop page (suc count) limit start end rows h s e =
      rw (pages_from_first page count limit rows h) (
        append_assoc (take limit (drop ((page - 1) * limit) rows))
          (pages_from (page + 1) count limit rows) (drop end rows)
        ∙ ap (λ t. take limit (drop ((page - 1) * limit) rows) ++ t)
            (pages_from-append-drop (page + 1) count limit (start + limit) end rows (omega arith)
              (omega (arith, s, next_offset page limit h)) (grind (arith, e)))
        ∙ rw (← s) (
            ap (λ t. take limit (drop start rows) ++ t)
              (sym (drop-drop limit start (start + limit) rows refl))
            ∙ take-append-drop limit (drop start rows)))

  -- For a limit that is not zero, the pages from the first to the last, one after the other, are
  -- the rows that the query finds: no row is on two pages, and none is on no page.
  pub pages_partition :
      (limit count : ℕ) (rows : List A)
      → total_pages (length rows) limit ≡ some count
      → pages_from 1 count limit rows ≡ rows
  unfolding total_pages
  pages_partition limit count rows h =
      let enough : length rows ≤ count * limit = grind (arith, h) in
      sym (append-nil (pages_from 1 count limit rows))
      ∙ ap (λ t. pages_from 1 count limit rows ++ t) (sym (drop_all (count * limit) rows enough))
      ∙ pages_from-append-drop 1 count limit 0 (count * limit) rows (omega arith) (omega arith)
          (omega arith)
