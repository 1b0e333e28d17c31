-- ===== src/Server/Pages/Tests.antt =====
-- Pages of small lists, and the theorems applied to them.
use kalen.Prelude.{ℕ, ◌≡◌, refl, true, none, some, List, [], ◌∷◌}
use kalen.Server.Pages.{cut, total_pages, pagination}
use kalen.Server.Pages.Partition.{pages_from, pages_partition}

abbrev rows : List ℕ
rows = 1 ∷ 2 ∷ 3 ∷ 4 ∷ 5 ∷ []

abbrev last : List ℕ
last = 5 ∷ []

page_tests :
    (cut 3 2 rows ≡ some (5 ∷ []))
    × (cut 0 2 rows ≡ none)
    × (total_pages 5 2 ≡ some 3)
    × (total_pages 5 0 ≡ none)
    × ((pagination 2 2 5).has_next ≡ true)
unfolding cut total_pages pagination
page_tests = (refl, refl, refl, refl, refl)

pages_partition_example : pages_from 1 3 2 rows ≡ rows
unfolding total_pages
pages_partition_example = pages_partition 2 3 rows refl
