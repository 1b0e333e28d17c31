-- ===== src/Server/RateLimiter/Ways.antt =====
-- What one request and one cleanup do.
use kalen.Prelude.{
  ℕ, ◌+◌, ◌≤◌, ◌<◌, String, ◌≡◌, refl, true, false, Option, none, some, [], ◌∷◌, leb, ltb, ◌==◌,
  arith, Bool-cases, Option-cases, inl, inr, if◌then◌else◌,
}
use kalen.Prelude.Dict.{Dict, lookup, insert, lookup-erase}
use kalen.Server.RateLimiter.{
  RateLimitEntry, Request, Headers, Verdict, passed, limited, window_ms, is_over, resolve_key,
  resolve_limit, open_window, count_in_window, handle, cleanup,
}

-- The three ways of the middleware.
pub data Handled (limits : Dict RateLimitEntry) (q : Request) (now : ℕ)
    : Verdict × Dict RateLimitEntry → Type 0 where
  opens :
      (h : Headers)
      → ((e : RateLimitEntry) → lookup (resolve_key q) limits ≡ some e → is_over e now ≡ true)
      → Handled limits q now
          (passed h, insert (resolve_key q) (record { count = 1; window_start = now }) limits)
  counts :
      (h : Headers) (e : RateLimitEntry)
      → lookup (resolve_key q) limits ≡ some e
      → is_over e now ≡ false
      → e.count < resolve_limit q
      → Handled limits q now
          (passed h, insert (resolve_key q) (record e { count = e.count + 1 }) limits)
  blocks :
      (h : Headers) (retry_after : ℕ) (e : RateLimitEntry)
      → lookup (resolve_key q) limits ≡ some e
      → is_over e now ≡ false
      → resolve_limit q ≤ e.count
      → Handled limits q now (limited h retry_after, limits)

count-Handled :
    (limits : Dict RateLimitEntry) (q : Request) (now : ℕ) (e : RateLimitEntry)
    → lookup (resolve_key q) limits ≡ some e
    → is_over e now ≡ false
    → Handled limits q now (count_in_window limits q now e)
unfolding count_in_window
count-Handled limits q now e found open' = elim (Bool-cases (leb (resolve_limit q) e.count)) [
  | inl full ↦ rw full (blocks _ _ e found open' (ground arith))
  | inr room ↦ rw room (counts _ e found open' (ground arith))
]

pub handle-Handled :
    (limits : Dict RateLimitEntry) (q : Request) (now : ℕ)
    → Handled limits q now (handle limits q now)
unfolding handle open_window
handle-Handled limits q now = elim (Option-cases (lookup (resolve_key q) limits)) [
  | inl gone ↦ rw (gone, handle) (opens _ (λ e h. cc (gone, h)))
  | inr (e, found) ↦
      rw (found, handle)
        (elim (Bool-cases (is_over e now)) [
          | inl over ↦ rw over (opens _ (λ e' h. ground arith))
          | inr open' ↦ rw open' (count-Handled limits q now e found open')
        ])
]

-- what the cleanup leaves of an entry
abbrev pub kept : Option RateLimitEntry → ℕ → Option RateLimitEntry
kept none now = none
kept (some e) now = if ltb (e.window_start + window_ms + window_ms) now then none else some e

pub lookup-cleanup :
    (k : String) (limits : Dict RateLimitEntry) (now : ℕ)
    → lookup k (cleanup limits now) ≡ kept (lookup k limits) now
unfolding lookup cleanup
lookup-cleanup k [] now = refl
lookup-cleanup k ((j, e) ∷ d) now =
    elim (Bool-cases (ltb (e.window_start + window_ms + window_ms) now)) [
      | inl old ↦
          rw (old, lookup-erase j k (cleanup d now), lookup-cleanup k d now)
            (elim (Bool-cases (j == k)) [ inl s ↦ rw (s, old) refl | inr n ↦ rw n refl ])
      | inr young ↦
          rw (young, lookup-cleanup k d now)
            (elim (Bool-cases (j == k)) [ inl s ↦ rw (s, young) refl | inr n ↦ rw n refl ])
    ]
