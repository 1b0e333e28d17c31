-- ===== src/Server/RateLimiter/Sharing.antt =====
-- One count for all limits, and what a cleanup may change.
use kalen.Prelude.{
  ℕ, zero, suc, ◌+◌, ◌≤◌, ◌<◌, ◌≡◌, refl, sym, subst, ◌∙◌, Bool, true, false, ◌||◌, Option, some,
  none, [], replicate, eq_refl, arith, Option-cases, inl, inr, ltb,
}
use kalen.Prelude.Dict.{Dict, lookup, lookup-insert}
use kalen.Server.RateLimiter.{
  RateLimitEntry, Request, Verdict, passed, limited, is_over, resolve_key, resolve_limit,
  open_window, count_in_window, handle, cleanup,
}
use kalen.Server.RateLimiter.Trace.{World, request, run, step, start}
use kalen.Server.RateLimiter.Ways.{
  Handled, opens, counts, blocks, handle-Handled, kept, lookup-cleanup,
}

abbrev pub is_passed : Verdict → Bool
is_passed (passed h) = true
is_passed (limited h r) = false

-- whether a request is let through, by the entry of its key
abbrev lets : Option RateLimitEntry → ℕ → ℕ → Bool
lets none limit now = true
lets (some e) limit now = is_over e now || ltb e.count limit

Handled-lets :
    (limits : Dict RateLimitEntry) (q : Request) (now : ℕ) {b : Verdict × Dict RateLimitEntry}
    → Handled limits q now b
    → is_passed b.0 ≡ lets (lookup (resolve_key q) limits) (resolve_limit q) now
Handled-lets limits q now (opens h over) = elim (Option-cases (lookup (resolve_key q) limits)) [
  | inl gone ↦ rw gone refl
  | inr (e, found) ↦ rw (found, over e found) refl
]
Handled-lets limits q now (counts h e found open' room) = rw found (ground arith)
Handled-lets limits q now (blocks h r e found open' full) = rw found (ground arith)

lets-kept :
    (o : Option RateLimitEntry) (limit t now : ℕ)
    → t ≤ now
    → lets (kept o t) limit now ≡ lets o limit now
lets-kept none limit t now later = refl
lets-kept (some e) limit t now later = ground arith

-- A cleanup before a request does not change whether the request is let through.
pub cleanup_keeps_verdict :
    (limits : Dict RateLimitEntry) (q : Request) (t now : ℕ)
    → t ≤ now
    → is_passed (handle (cleanup limits t) q now).0 ≡ is_passed (handle limits q now).0
cleanup_keeps_verdict limits q t now later =
    Handled-lets (cleanup limits t) q now (handle-Handled (cleanup limits t) q now)
    ∙ rw (lookup-cleanup (resolve_key q) limits t) (
        lets-kept (lookup (resolve_key q) limits) (resolve_limit q) t now later
        ∙ sym (Handled-lets limits q now (handle-Handled limits q now)))

-- the entry after a request in an open window that has room
handle-counts :
    (limits : Dict RateLimitEntry) (q : Request) (c t : ℕ)
    → lookup (resolve_key q) limits ≡ some (record { count = c; window_start = t })
    → c < resolve_limit q
    → lookup (resolve_key q) (handle limits q t).1
      ≡ some (record { count = c + 1; window_start = t })
unfolding handle count_in_window
handle-counts limits q c t found room = ground (
  arith,
  eq_refl (resolve_key q),
  lookup-insert (resolve_key q) (resolve_key q) (record { count = c + 1; window_start = t }) limits,
)

repeat-counts :
    (w : World) (q : Request) (c n m t : ℕ)
    → lookup (resolve_key q) w.limits ≡ some (record { count = c; window_start = t })
    → m ≡ c + n
    → m ≤ resolve_limit q
    → lookup (resolve_key q) (run w (replicate n (request q t))).limits
      ≡ some (record { count = m; window_start = t })
unfolding run step
repeat-counts w q c zero m t found sum room = let same : m ≡ c = omega arith in rw same found
repeat-counts w q c (suc n) m t found sum room =
    repeat-counts (step w (request q t)) q (c + 1) n m t
      (handle-counts w.limits q c t found (omega arith)) (omega arith) room

handle-opens :
    (q : Request) (t : ℕ)
    → lookup (resolve_key q) (handle [] q t).1 ≡ some (record { count = 1; window_start = t })
unfolding handle open_window lookup
handle-opens q t = rw (eq_refl (resolve_key q)) refl

-- All requests of a key are counted together, whatever their limits: after as many requests of
-- one kind as another kind's limit, a request of the other kind with that key is refused, though
-- it may be the first of its kind.
pub limits_share_count :
    (q q' : Request) (n t : ℕ)
    → resolve_key q ≡ resolve_key q'
    → suc n ≤ resolve_limit q
    → resolve_limit q' ≤ suc n
    → is_passed (handle (run start (replicate (suc n) (request q t))).limits q' t).0 ≡ false
unfolding run step
limits_share_count q q' n t same room reached =
    let w = run start (replicate (suc n) (request q t)) in
    let found =
      repeat-counts (step start (request q t)) q 1 n (suc n) t (handle-opens q t) (omega arith)
        room in
    Handled-lets w.limits q' t (handle-Handled w.limits q' t)
    ∙ subst (λ k. lets (lookup k w.limits) (resolve_limit q') t ≡ false) same
        (rw found (ground arith))
