-- ===== src/Server/RateLimiter.antt =====
-- apps/server/src/common/middleware/rate-limiter.middleware.ts. Times are in milliseconds. The
-- headers and the answer 429 are a value, and `next()` is `passed`.
pub mod Trace
pub mod Ways
pub mod Windows
pub mod Decision
pub mod Sharing
pub mod Resets
mod Tests
use Prim.Native.String
use Prim.Native.String.{String}
use text.Mathlib.Text.{find?}
use kalen.Prelude.{
  ℕ, ◌+◌, ◌-◌, ◌/◌, Bool, true, false, not, ◌&&◌, Option, none, some, [], ◌∷◌, ◌==◌, leb, ltb,
  get_or, is_some, if◌then◌else◌,
}
use kalen.Prelude.Dict.{Dict, lookup, insert, erase}

-- `RateLimitEntry`
pub record RateLimitEntry : Type 0 where
  pub count : ℕ
  pub window_start : ℕ

-- what the middleware reads of a request; `sub` is that of the identity, if there is one
pub record Request : Type 0 where
  pub sub : Option String
  pub ip : Option String
  pub method : String
  pub path : String

pub record Headers : Type 0 where
  pub limit : ℕ
  pub remaining : ℕ
  pub reset : ℕ

pub data Verdict : Type 0 where
  passed : Headers → Verdict
  limited : Headers → (retry_after : ℕ) → Verdict

-- `windowMs`
abbrev pub window_ms : ℕ
window_ms = 60000

-- the key of an address
abbrev ip_key : Option String → String
ip_key ip = String.◌++◌ "ratelimit:ip:" (get_or ip "unknown")

-- `resolveKey`
unfoldable pub resolve_key : Request → String
resolve_key q = elim q.sub [
  | none ↦ ip_key q.ip
  | some s ↦ if s == "" then ip_key q.ip else String.◌++◌ "ratelimit:" s
]

-- `s.includes(t)`
abbrev includes : String → String → Bool
includes s t = is_some (find? s t)

-- `resolveLimit`
unfoldable pub resolve_limit : Request → ℕ
resolve_limit q =
    if includes q.path "/auth/"
    then 10
    else if q.method == "POST" && includes q.path "/messages"
    then 60
    else if includes q.path "/mcp/invoke"
    then 100
    else if includes q.path "/search"
    then 30
    else 300

-- `Math.ceil(ms / 1000)`
abbrev pub seconds : ℕ → ℕ
seconds ms = (ms + 999) / 1000

abbrev pub is_over : RateLimitEntry → ℕ → Bool
is_over entry now = ltb (entry.window_start + window_ms) now

-- a request that opens a window; `start` is what the header is computed from
unfoldable pub open_window : Dict RateLimitEntry → Request → ℕ → ℕ → Verdict × Dict RateLimitEntry
unfolding insert resolve_key resolve_limit
open_window limits q now start =
    let limit = resolve_limit q in
    (
      passed (record { limit = limit; remaining = limit - 1; reset = seconds start + 60 }),
      insert (resolve_key q) (record { count = 1; window_start = now }) limits,
    )

-- a request in a window that is open
unfoldable pub count_in_window :
    Dict RateLimitEntry → Request → ℕ → RateLimitEntry → Verdict × Dict RateLimitEntry
unfolding insert resolve_key resolve_limit
count_in_window limits q now entry =
    let limit = resolve_limit q in
    let retry_after = seconds (entry.window_start + window_ms - now) in
    if leb limit entry.count
    then (
      limited (record { limit = limit; remaining = 0; reset = retry_after }) retry_after,
      limits,
    )
    else (
      passed (record {
        limit = limit;
        remaining = limit - (entry.count + 1);
        reset = seconds (entry.window_start + window_ms);
      }),
      insert (resolve_key q) (record entry { count = entry.count + 1 }) limits,
    )

-- `use`
unfoldable pub handle : Dict RateLimitEntry → Request → ℕ → Verdict × Dict RateLimitEntry
unfolding lookup resolve_key open_window count_in_window
handle limits q now = elim (lookup (resolve_key q) limits) [
  | none ↦ open_window limits q now now
  | some entry ↦
      if is_over entry now
      then open_window limits q now entry.window_start
      else count_in_window limits q now entry
]

-- `cleanup`
unfoldable pub cleanup : Dict RateLimitEntry → ℕ → Dict RateLimitEntry
unfolding erase
cleanup [] now = []
cleanup ((k, entry) ∷ limits) now =
    let rest = cleanup limits now in
    if ltb (entry.window_start + window_ms + window_ms) now then erase k rest else (k, entry) ∷ rest
