-- ===== src/Server/Pages.antt =====
-- The pages of a list, as the services (room.service.ts, message.service.ts, agent.service.ts) and
-- the repositories below apps/server/src cut them. A page and a limit are natural numbers.
pub mod Partition
pub mod Bounds
mod Tests
use kalen.Prelude.{
  ℕ, zero, suc, ◌+◌, ◌-◌, ◌*◌, ◌/◌, Bool, Option, none, some, List, [], ◌∷◌, ltb, eqb, get_or,
  length, take, drop, if◌then◌else◌,
}

-- `Math.min(a, b)`
abbrev pub min : ℕ → ℕ → ℕ
min a b = if ltb b a then b else a

-- `options?.page ?? 1`
abbrev pub page_number : Option ℕ → ℕ
page_number page = get_or page 1

-- `Math.min(options?.limit ?? 20, 100)`
abbrev pub page_limit : Option ℕ → ℕ
page_limit limit = min (get_or limit 20) 100

-- `qb.skip((page - 1) * limit).take(limit)`: a page of the rows that a query finds; `none` where
-- the offset is negative, which the database refuses
unfoldable pub cut {ℓ} : {A : Type ℓ} → (page limit : ℕ) → List A → Option (List A)
cut page limit rows =
    if eqb page 0 then none else some (take limit (drop ((page - 1) * limit) rows))

-- `Math.ceil(total / limit)`: `none` where it is no number, or an infinite one
unfoldable pub total_pages : (total limit : ℕ) → Option ℕ
total_pages total limit = if eqb limit 0 then none else some ((total + (limit - 1)) / limit)

pub record Pagination : Type 0 where
  pub page : ℕ
  pub limit : ℕ
  pub total : ℕ
  pub pages : Option ℕ
  pub has_next : Bool
  pub has_prev : Bool

-- the `pagination` of an answer
unfoldable pub pagination : (page limit total : ℕ) → Pagination
unfolding total_pages
pagination page limit total = record {
  page = page;
  limit = limit;
  total = total;
  pages = total_pages total limit;
  has_next = ltb (page * limit) total;
  has_prev = ltb 1 page;
}
