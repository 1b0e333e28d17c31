-- ===== src/Server/RateLimiter/Decision.antt =====
-- The answer of the limiter, against windows that are read off the requests it has let through.
use kalen.Prelude.{
  ℕ, ◌+◌, ◌≤◌, ◌<◌, String, ◌≡◌, refl, subst, ◌∙◌, ap, sym, Bool, true, false, Option, none, some,
  List, [], ◌∷◌, ltb, ◌==◌, eq_iff, eq_refl, arith, Bool-cases, Option-cases, inl, inr,
  if◌then◌else◌,
}
use kalen.Prelude.Dict.{Dict, lookup, insert, lookup-insert}
use kalen.Server.RateLimiter.{
  RateLimitEntry, Request, Verdict, passed, limited, window_ms, is_over, resolve_key, resolve_limit,
  handle, cleanup,
}
use kalen.Server.RateLimiter.Trace.{
  Pass, since, World, Event, request, clean, time_of, note, step, run, AreOrdered, start,
}
use kalen.Server.RateLimiter.Ways.{
  Handled, opens, counts, blocks, handle-Handled, kept, lookup-cleanup,
}
use kalen.Server.RateLimiter.Windows.{Fits, run-AllFit, start-AllFit, clock-step}

-- a minute, in milliseconds
abbrev pub minute : ℕ
minute = 60000

-- A window lasts a minute: a pass within it belongs to it, and the first one after it opens the next.
abbrev pub next_window : Option ℕ → ℕ → ℕ
next_window none now = now
next_window (some s) now = if ltb (s + minute) now then now else s

-- when the last window of a key began; the latest pass stands first
unfoldable pub window_of : String → List Pass → Option ℕ
window_of k [] = none
window_of k ((j, u) ∷ ps) =
    let before = window_of k ps in if j == k then some (next_window before u) else before

-- how many passes of a key there are in its window, if that is open
abbrev count_from : Option ℕ → String → ℕ → List Pass → ℕ
count_from none k now ps = 0
count_from (some s) k now ps = if ltb (s + minute) now then 0 else since k s ps

unfoldable pub in_window : String → ℕ → List Pass → ℕ
unfolding window_of
in_window k now ps = count_from (window_of k ps) k now ps

abbrev pub is_passed : Verdict → Bool
is_passed (passed h) = true
is_passed (limited h r) = false

-- How an entry fits the window: it began with it; where there is none, the window is closed.
abbrev Begins : Option RateLimitEntry → String → World → Type 0
Begins none k w = (s : ℕ) → window_of k w.passes ≡ some s → s + minute < w.clock
Begins (some e) k w = window_of k w.passes ≡ some e.window_start

abbrev AllBegin : World → Type 0
AllBegin w = (k : String) → Begins (lookup k w.limits) k w

Begins-later :
    (o : Option RateLimitEntry) (k : String) (w : World) (now : ℕ)
    → w.clock ≤ now
    → Begins o k w
    → Begins o k (record w { clock = now })
Begins-later none k w now later b = λ s h. omega (arith, b s h)
Begins-later (some e) k w now later b = b

-- the window of a key with a pass of its own, and of another's
window_here :
    (k : String) (now : ℕ) (ps : List Pass)
    → window_of k ((k, now) ∷ ps) ≡ some (next_window (window_of k ps) now)
unfolding window_of
window_here k now ps = ground (arith, eq_refl k)

window_other :
    (j k : String) (now : ℕ) (ps : List Pass)
    → j == k ≡ false
    → window_of k ((j, now) ∷ ps) ≡ window_of k ps
unfolding window_of
window_other j k now ps other = ground arith

-- a new window opens where there is no entry, or an old one
opens_window :
    (o : Option RateLimitEntry) (k : String) (w : World) (now : ℕ)
    → w.clock ≤ now
    → Begins o k w
    → ((e : RateLimitEntry) → o ≡ some e → is_over e now ≡ true)
    → (s : ℕ) → window_of k w.passes ≡ some s
    → s + minute < now
opens_window none k w now later b over s h = omega (arith, b s h)
opens_window (some e) k w now later b over s h = ground (arith, over e refl, b, h)

next_of_closed :
    (o : Option ℕ) (now : ℕ) → ((s : ℕ) → o ≡ some s → s + minute < now) → next_window o now ≡ now
next_of_closed none now closed = refl
next_of_closed (some s) now closed = ground (arith, closed s refl)

insert-AllBegin :
    (j : String) (e : RateLimitEntry) (w : World) (now : ℕ)
    → w.clock ≤ now
    → next_window (window_of j w.passes) now ≡ e.window_start
    → AllBegin w
    → AllBegin (record { limits = insert j e w.limits; passes = (j, now) ∷ w.passes; clock = now })
insert-AllBegin j e w now later begun fit k = elim (Bool-cases (j == k)) [
  | inl same ↦
      rw (lookup-insert j k e w.limits, same)
        (subst (λ i. window_of i ((j, now) ∷ w.passes) ≡ some e.window_start) ((eq_iff j k).0 same)
          (window_here j now w.passes ∙ ap some begun))
  | inr other ↦
      rw (lookup-insert j k e w.limits, other)
        (elim (Option-cases (lookup k w.limits)) [
          | inl gone ↦ rw gone (λ s h. ground (
            arith,
            subst (λ o. Begins o k w) gone (fit k) s
                (sym (window_other j k now w.passes other) ∙ h),
          ))
          | inr (old, found) ↦
              rw found
                (window_other j k now w.passes other ∙ subst (λ o. Begins o k w) found (fit k))
        ])
]

Handled-AllBegin :
    (w : World) (q : Request) (now : ℕ) {b : Verdict × Dict RateLimitEntry}
    → Handled w.limits q now b
    → w.clock ≤ now
    → AllBegin w
    → AllBegin
        (record { limits = b.1; passes = note b.0 (resolve_key q, now) w.passes; clock = now })
Handled-AllBegin w q now (opens h over) later fit =
    let k = resolve_key q in
    insert-AllBegin k (record { count = 1; window_start = now }) w now later
      (next_of_closed (window_of k w.passes) now
        (opens_window (lookup k w.limits) k w now later (fit k) over))
      fit
Handled-AllBegin w q now (counts h e found open' room) later fit =
    let k = resolve_key q in
    let begun = subst (λ o. Begins o k w) found (fit k) in
    insert-AllBegin k (record e { count = e.count + 1 }) w now later (ground (arith, begun)) fit
Handled-AllBegin w q now (blocks h r e found open' full) later fit =
    λ k. Begins-later (lookup k w.limits) k w now later (fit k)

cleanup-Begins :
    (o : Option RateLimitEntry) (k : String) (w : World) (now : ℕ)
    → w.clock ≤ now
    → Begins o k w
    → Begins (kept o now) k (record w { limits = cleanup w.limits now; clock = now })
cleanup-Begins none k w now later b = λ s h. omega (arith, b s h)
cleanup-Begins (some e) k w now later b =
    elim (Bool-cases (ltb (e.window_start + window_ms + window_ms) now)) [
      | inl old ↦ rw old (λ s h. ground (arith, b, h))
      | inr young ↦ rw young b
    ]

step-AllBegin : (w : World) (e : Event) → w.clock ≤ time_of e → AllBegin w → AllBegin (step w e)
unfolding step
step-AllBegin w (request q now) later fit =
    Handled-AllBegin w q now (handle-Handled w.limits q now) later fit
step-AllBegin w (clean now) later fit = λ k.
    rw (lookup-cleanup k w.limits now) (cleanup-Begins (lookup k w.limits) k w now later (fit k))

run-AllBegin :
    (w : World) (es : List Event) → AreOrdered w.clock es → AllBegin w → AllBegin (run w es)
unfolding run
run-AllBegin w [] ordered fit = fit
run-AllBegin w (e ∷ es) (later, ordered) fit =
    run-AllBegin (step w e) es (rw clock-step ordered) (step-AllBegin w e later fit)

start-AllBegin : AllBegin start
unfolding lookup window_of
start-AllBegin k = λ s h. absurd (ground (arith, h))

limit_positive : (q : Request) → 1 ≤ resolve_limit q
unfolding resolve_limit
limit_positive q = ground arith

closed-in_window :
    (k : String) (now : ℕ) (ps : List Pass)
    → ((s : ℕ) → window_of k ps ≡ some s → s + minute < now)
    → in_window k now ps ≡ 0
unfolding in_window
closed-in_window k now ps closed = elim (Option-cases (window_of k ps)) [
  | inl gone ↦ rw gone refl
  | inr (s, found) ↦ rw found (ground (arith, closed s found))
]

open-in_window :
    (k : String) (now s : ℕ) (ps : List Pass)
    → window_of k ps ≡ some s
    → now ≤ s + minute
    → in_window k now ps ≡ since k s ps
unfolding in_window
open-in_window k now s ps found young = rw found (ground arith)

Handled-decides :
    (w : World) (q : Request) (now : ℕ) {b : Verdict × Dict RateLimitEntry}
    → Handled w.limits q now b
    → w.clock ≤ now
    → Fits (lookup (resolve_key q) w.limits) (resolve_key q) w
    → Begins (lookup (resolve_key q) w.limits) (resolve_key q) w
    → is_passed b.0 ≡ ltb (in_window (resolve_key q) now w.passes) (resolve_limit q)
Handled-decides w q now (opens h over) later fit begun =
    let k = resolve_key q in
    ground (
      arith,
      limit_positive q,
      closed-in_window k now w.passes (opens_window (lookup k w.limits) k w now later begun over),
    )
Handled-decides w q now (counts h e found open' room) later fit begun =
    let k = resolve_key q in
    let (exact, late) = subst (λ o. Fits o k w) found fit in
    let same = subst (λ o. Begins o k w) found begun in
    ground (arith, exact, open-in_window k now e.window_start w.passes same (ground arith))
Handled-decides w q now (blocks h r e found open' full) later fit begun =
    let k = resolve_key q in
    let (exact, late) = subst (λ o. Fits o k w) found fit in
    let same = subst (λ o. Begins o k w) found begun in
    ground (arith, exact, open-in_window k now e.window_start w.passes same (ground arith))

-- After any requests and cleanups of a new limiter, at times that do not go back: a request no
-- earlier than these is let through exactly when fewer requests of its key than its limit have
-- been let through in the window that is open. A window is opened by the first request of its key
-- that is let through more than a minute after the last one began, and is open for a minute;
-- cleanups play no part in it.
pub handle-decides :
    (es : List Event) (q : Request) (now : ℕ)
    → AreOrdered 0 es
    → (run start es).clock ≤ now
    → is_passed (handle (run start es).limits q now).0
      ≡ ltb (in_window (resolve_key q) now (run start es).passes) (resolve_limit q)
handle-decides es q now ordered later =
    let w = run start es in
    Handled-decides w q now (handle-Handled w.limits q now) later
      (run-AllFit start es ordered start-AllFit (resolve_key q))
      (run-AllBegin start es ordered start-AllBegin (resolve_key q))
