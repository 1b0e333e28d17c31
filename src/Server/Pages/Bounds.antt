-- ===== src/Server/Pages/Bounds.antt =====
-- The pages of a list: how long they are, and which one is the last.
use kalen.Prelude.{
  take, drop, ℕ, zero, suc, ◌+◌, ◌-◌, ◌*◌, ◌≤◌, ◌<◌, ◌≡◌, ◌↔◌, true, Option, some, List, [], ◌∷◌,
  arith, length,
}
use kalen.Server.Pages.{min, page_number, page_limit, cut, pagination}

module _ {ℓ} {A : Type ℓ} where
  length-take : (n : ℕ) (xs : List A) → length (take n xs) ≡ min n (length xs)
  length-take zero xs = ground arith
  length-take (suc n) [] = ground arith
  length-take (suc n) (x ∷ xs) = ground (arith, length-take n xs)

  length-drop : (n : ℕ) (xs : List A) → length (drop n xs) ≡ length xs - n
  length-drop zero xs = omega arith
  length-drop (suc n) [] = omega arith
  length-drop (suc n) (x ∷ xs) = omega (arith, length-drop n xs)

  -- A page holds as many rows as are left from its offset on, up to its limit, which is at most
  -- a hundred whatever was asked for.
  pub length-cut :
      (page limit : Option ℕ) (rows found : List A)
      → cut (page_number page) (page_limit limit) rows ≡ some found
      → (length found
          ≡ min (page_limit limit) (length rows - (page_number page - 1) * page_limit limit))
        × (length found ≤ 100)
  unfolding cut
  length-cut page limit rows found h =
      let offset : ℕ = (page_number page - 1) * page_limit limit in
      ground (arith, h, length-take (page_limit limit) (drop offset rows), length-drop offset rows)

  length-cut_next :
      (page limit : ℕ) (rows next : List A)
      → cut (page + 1) limit rows ≡ some next
      → length next ≡ min limit (length rows - page * limit)
  unfolding cut
  length-cut_next page limit rows next h =
      let before : page + 1 - 1 ≡ page = omega arith in
      rw (← before) (
        ground (
          arith,
          h,
          length-take limit (drop ((page + 1 - 1) * limit) rows),
          length-drop ((page + 1 - 1) * limit) rows,
        ))

  -- The answer says that there is a next page exactly when the next page has rows, for a limit that
  -- is not zero; and that there is a page before exactly when the page is past the first.
  pub has_next_iff :
      (page limit : ℕ) (rows next : List A)
      → 0 < limit
      → cut (page + 1) limit rows ≡ some next
      → (((pagination page limit (length rows)).has_next ≡ true) ↔ (0 < length next))
        × (((pagination page limit (length rows)).has_prev ≡ true) ↔ (1 < page))
  unfolding cut pagination
  has_next_iff page limit rows next l h =
      let size = length-cut_next page limit rows next h in
      (
        (λ t. ground (arith, size), λ t. ground (arith, size)),
        (λ t. ground arith, λ t. ground arith),
      )
