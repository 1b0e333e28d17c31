-- ===== src/Server/RateLimiter/Resets.antt =====
-- The header `X-RateLimit-Reset` of a window that is opened again.
use kalen.Prelude.{ℕ, ◌+◌, ◌≤◌, ◌≡◌, true, some, eq_refl, arith}
use kalen.Prelude.Dict.{Dict, lookup, lookup-insert}
use kalen.Server.RateLimiter.{
  RateLimitEntry, Request, Verdict, passed, limited, window_ms, is_over, resolve_key, resolve_limit,
  seconds, open_window, count_in_window, handle,
}

abbrev pub reset_of : Verdict → ℕ
reset_of (passed h) = h.reset
reset_of (limited h r) = h.reset

two_fit : (q : Request) → 2 ≤ resolve_limit q
unfolding resolve_limit
two_fit q = ground arith

-- Two requests at the time when the window of their key is over: the first opens a new window,
-- and its header names the end of the old one; the header of the second names the end of the new
-- one.
pub reset_of_renewed :
    (limits : Dict RateLimitEntry) (q : Request) (now : ℕ) (e : RateLimitEntry)
    → lookup (resolve_key q) limits ≡ some e
    → is_over e now ≡ true
    → let (first, limits') = handle limits q now in
      let (second, _) = handle limits' q now in
      (reset_of first ≡ seconds e.window_start + 60) × (reset_of second ≡ seconds (now + window_ms))
unfolding handle open_window count_in_window
reset_of_renewed limits q now e found over =
    let fresh =
      lookup-insert (resolve_key q) (resolve_key q) (record { count = 1; window_start = now })
        limits in
    (ground arith, ground (arith, fresh, eq_refl (resolve_key q), two_fit q))
