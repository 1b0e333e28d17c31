-- ===== src/Server/RateLimiter/Trace.antt =====
-- Runs of the limiter, with a record of the requests that it lets through.
use kalen.Prelude.{
  ℕ, ◌+◌, ◌≤◌, ◌<◌, String, ◌≡◌, refl, false, ◌&&◌, List, [], ◌∷◌, to_ℕ, leb, ◌==◌, eq_refl, arith,
}
use kalen.Prelude.Dict.{Dict}
use kalen.Server.RateLimiter.{
  RateLimitEntry, Request, Verdict, passed, limited, resolve_key, handle, cleanup,
}

-- a request that was let through: its key and its time
abbrev pub Pass : Type 0
Pass = String × ℕ

-- how many requests of a key were let through at a time or later
unfoldable pub since : String → ℕ → List Pass → ℕ
since k t [] = 0
since k t ((j, u) ∷ ps) = to_ℕ ((j == k) && leb t u) + since k t ps

-- The limiter with the requests that it has let through and the time of the last event.
pub record World : Type 0 where
  pub limits : Dict RateLimitEntry
  pub passes : List Pass
  pub clock : ℕ

pub data Event : Type 0 where
  request : Request → ℕ → Event
  clean : ℕ → Event

abbrev pub time_of : Event → ℕ
time_of (request q now) = now
time_of (clean now) = now

abbrev pub note : Verdict → Pass → List Pass → List Pass
note (passed _) p ps = p ∷ ps
note (limited _ _) p ps = ps

unfoldable pub step : World → Event → World
step w (request q now) =
    let (v, limits) = handle w.limits q now in
    record { limits = limits; passes = note v (resolve_key q, now) w.passes; clock = now }
step w (clean now) = record w { limits = cleanup w.limits now; clock = now }

unfoldable pub run : World → List Event → World
run w [] = w
run w (e ∷ es) = run (step w e) es

-- the times do not go back
abbrev pub AreOrdered : ℕ → List Event → Type 0
AreOrdered t [] = Unit
AreOrdered t (e ∷ es) = (t ≤ time_of e) × AreOrdered (time_of e) es

abbrev pub start : World
start = record { limits = []; passes = []; clock = 0 }

pub since_later :
    (k : String) (t u : ℕ) (ps : List Pass) → t ≤ u → since k t ps ≡ 0 → since k u ps ≡ 0
unfolding since
since_later k t u [] h e = refl
since_later k t u ((j, v) ∷ ps) h e = ground (arith, since_later k t u ps h)

pub since_other :
    (j k : String) (now t : ℕ) (v : Verdict) (ps : List Pass)
    → j == k ≡ false
    → since k t (note v (j, now) ps) ≡ since k t ps
unfolding since
since_other j k now t (passed h) ps other = ground arith
since_other j k now t (limited h r) ps other = refl

pub since_here :
    (k : String) (t now : ℕ) (ps : List Pass)
    → t ≤ now
    → since k t ((k, now) ∷ ps) ≡ since k t ps + 1
unfolding since
since_here k t now ps h = ground (arith, eq_refl k)

pub since_before :
    (k : String) (t now : ℕ) (ps : List Pass) → now < t → since k t ((k, now) ∷ ps) ≡ since k t ps
unfolding since
since_before k t now ps h = ground (arith, eq_refl k)
