-- ===== src/Server/RateLimiter/Windows.antt =====
-- The counts of the limiter against the requests that it has let through.
use kalen.Prelude.{
  ℕ, ◌+◌, ◌≤◌, String, ◌≡◌, refl, subst, ◌∙◌, true, false, Option, none, some, List, [], ◌∷◌, ltb,
  ◌==◌, eq_iff, arith, Bool-cases, inl, inr,
}
use kalen.Prelude.Dict.{Dict, lookup, insert, lookup-insert}
use kalen.Server.RateLimiter.{
  RateLimitEntry, Request, Headers, Verdict, passed, window_ms, is_over, resolve_key, cleanup,
}
use kalen.Server.RateLimiter.Trace.{
  since, World, Event, request, clean, time_of, note, step, run, AreOrdered, start, since_later,
  since_other, since_here, since_before,
}
use kalen.Server.RateLimiter.Ways.{
  Handled, opens, counts, blocks, handle-Handled, kept, lookup-cleanup,
}

-- How the entry of a key fits the passes: there is none, and no pass is as late as the clock; or its
-- count is that of the passes since its window began, and none is later than its window.
abbrev pub Fits : Option RateLimitEntry → String → World → Type 0
Fits none k w = since k w.clock w.passes ≡ 0
Fits (some e) k w =
    (since k e.window_start w.passes ≡ e.count)
    × ((since k (e.window_start + window_ms + 1) w.passes ≡ 0) × (e.window_start ≤ w.clock))

abbrev pub AllFit : World → Type 0
AllFit w = (k : String) → Fits (lookup k w.limits) k w

-- the clock may go on
Fits-later :
    (o : Option RateLimitEntry) (k : String) (w : World) (now : ℕ)
    → w.clock ≤ now
    → Fits o k w
    → Fits o k (record w { clock = now })
Fits-later none k w now h f = since_later k w.clock now w.passes h f
Fits-later (some e) k w now h (f, (g, p)) = (f, (g, omega arith))

-- where nothing has passed as late as now, a new window fits
no_pass_now :
    (o : Option RateLimitEntry) (k : String) (w : World) (now : ℕ)
    → w.clock ≤ now
    → Fits o k w
    → ((e : RateLimitEntry) → o ≡ some e → is_over e now ≡ true)
    → since k now w.passes ≡ 0
no_pass_now none k w now h f over = since_later k w.clock now w.passes h f
no_pass_now (some e) k w now h (f, (g, p)) over =
    since_later k (e.window_start + window_ms + 1) now w.passes (ground (arith, over e refl)) g

-- another key's entry still fits
Fits-other :
    (o : Option RateLimitEntry) (j k : String) (w : World) (limits : Dict RateLimitEntry) (now : ℕ)
    (v : Verdict)
    → j == k ≡ false
    → w.clock ≤ now
    → Fits o k w
    → Fits o k (record { limits = limits; passes = note v (j, now) w.passes; clock = now })
Fits-other none j k w limits now v other h f =
    since_other j k now now v w.passes other ∙ since_later k w.clock now w.passes h f
Fits-other (some e) j k w limits now v other h (f, (g, p)) = (
  since_other j k now e.window_start v w.passes other ∙ f,
  (since_other j k now (e.window_start + window_ms + 1) v w.passes other ∙ g, omega arith),
)

-- The table and the passes after a verdict, for the keys alike: the new entry of the key fits, and
-- the rest does.
insert-AllFit :
    (j : String) (e : RateLimitEntry) (w : World) (now : ℕ) (h : Headers)
    → w.clock ≤ now
    → (since j e.window_start ((j, now) ∷ w.passes) ≡ e.count)
    → (since j (e.window_start + window_ms + 1) ((j, now) ∷ w.passes) ≡ 0)
    → e.window_start ≤ now
    → AllFit w
    → AllFit (record { limits = insert j e w.limits; passes = (j, now) ∷ w.passes; clock = now })
insert-AllFit j e w now h later exact none_late begun fit k = elim (Bool-cases (j == k)) [
  | inl same ↦
      rw (lookup-insert j k e w.limits, same)
        (subst
          (λ i.
            Fits (some e) i
              (record { limits = insert j e w.limits; passes = (j, now) ∷ w.passes; clock = now }))
          ((eq_iff j k).0 same) (exact, (none_late, begun)))
  | inr other ↦
      rw (lookup-insert j k e w.limits, other)
        (Fits-other (lookup k w.limits) j k w (insert j e w.limits) now (passed h) other later
          (fit k))
]

Handled-AllFit :
    (w : World) (q : Request) (now : ℕ) {b : Verdict × Dict RateLimitEntry}
    → Handled w.limits q now b
    → w.clock ≤ now
    → AllFit w
    → AllFit (record { limits = b.1; passes = note b.0 (resolve_key q, now) w.passes; clock = now })
Handled-AllFit w q now (opens h over) later fit =
    let k = resolve_key q in
    let nothing_now = no_pass_now (lookup k w.limits) k w now later (fit k) over in
    insert-AllFit k (record { count = 1; window_start = now }) w now h later
      (omega (arith, since_here k now now w.passes, nothing_now))
      (omega (
        arith,
        since_before k (now + window_ms + 1) now w.passes,
        since_later k now (now + window_ms + 1) w.passes (omega arith) nothing_now,
      ))
      (omega arith) fit
Handled-AllFit w q now (counts h e found open' room) later fit =
    let k = resolve_key q in
    let (exact, (none_late, begun)) = subst (λ o. Fits o k w) found (fit k) in
    insert-AllFit k (record e { count = e.count + 1 }) w now h later
      (omega (arith, since_here k e.window_start now w.passes, exact, begun))
      (since_before k (e.window_start + window_ms + 1) now w.passes (ground arith) ∙ none_late)
      (omega (arith, begun)) fit
Handled-AllFit w q now (blocks h r e found open' full) later fit =
    λ k. Fits-later (lookup k w.limits) k w now later (fit k)

cleanup-Fits :
    (o : Option RateLimitEntry) (k : String) (w : World) (now : ℕ)
    → w.clock ≤ now
    → Fits o k w
    → Fits (kept o now) k (record w { limits = cleanup w.limits now; clock = now })
cleanup-Fits none k w now later f = since_later k w.clock now w.passes later f
cleanup-Fits (some e) k w now later (f, (g, p)) =
    elim (Bool-cases (ltb (e.window_start + window_ms + window_ms) now)) [
      | inl old ↦
          rw old (since_later k (e.window_start + window_ms + 1) now w.passes (ground arith) g)
      | inr young ↦ rw young (f, (g, omega arith))
    ]

step-AllFit : (w : World) (e : Event) → w.clock ≤ time_of e → AllFit w → AllFit (step w e)
unfolding step
step-AllFit w (request q now) later fit =
    Handled-AllFit w q now (handle-Handled w.limits q now) later fit
step-AllFit w (clean now) later fit =
    λ k. rw (lookup-cleanup k w.limits now) (cleanup-Fits (lookup k w.limits) k w now later (fit k))

pub clock-step : (w : World) (e : Event) → (step w e).clock ≡ time_of e
unfolding step
clock-step w (request q now) = refl
clock-step w (clean now) = refl

pub run-AllFit :
    (w : World) (es : List Event) → AreOrdered w.clock es → AllFit w → AllFit (run w es)
unfolding run
run-AllFit w [] ordered fit = fit
run-AllFit w (e ∷ es) (later, ordered) fit =
    run-AllFit (step w e) es (rw clock-step ordered) (step-AllFit w e later fit)

pub start-AllFit : AllFit start
unfolding lookup since
start-AllFit k = refl
