-- ===== src/Server/RateLimiter/Tests.antt =====
-- The limiter on small inputs, and the theorems applied to them.
use kalen.Prelude.{◌≡◌, refl, some, none, List, [], ◌∷◌, arith, ltb}
use kalen.Prelude.Dict.{lookup, insert, erase}
use kalen.Server.RateLimiter.{
  Request, resolve_key, resolve_limit, handle, cleanup, open_window, count_in_window,
}
use kalen.Server.RateLimiter.Trace.{Event, request, clean, since, step, run, start}
use kalen.Server.RateLimiter.Decision.{is_passed, in_window, window_of, handle-decides}

abbrev listing : Request
listing = record { sub = some "u1"; ip = none; method = "GET"; path = "/api/v1/rooms" }

abbrev login : Request
login = record { sub = some "u1"; ip = none; method = "POST"; path = "/api/v1/auth/login" }

abbrev events : List Event
events = request listing 1000 ∷ clean 2000 ∷ request login 3000 ∷ request login 62000 ∷ []

opened : Unit {0}
unfolding lookup insert erase resolve_key resolve_limit handle open_window count_in_window cleanup
    since step run window_of in_window
opened = tt

run_tests :
    (resolve_limit listing ≡ 300)
    × (resolve_limit login ≡ 10)
    × (resolve_key login ≡ "ratelimit:u1")
    × ((run start events).limits
        ≡ ("ratelimit:u1", record { count = 1; window_start = 62000 }) ∷ [])
unfolding opened
run_tests = (refl, refl, refl, refl)

window_tests :
    (window_of "ratelimit:u1" (run start events).passes ≡ some 62000)
    × (in_window "ratelimit:u1" 62500 (run start events).passes ≡ 1)
    × (in_window "ratelimit:u1" 122001 (run start events).passes ≡ 0)
unfolding opened
window_tests = (refl, refl, refl)

handle-decides_example :
    is_passed (handle (run start events).limits login 62500).0
    ≡ ltb (in_window (resolve_key login) 62500 (run start events).passes) (resolve_limit login)
unfolding opened
handle-decides_example =
    handle-decides events login 62500 (omega arith, (omega arith, (omega arith, (omega arith, tt))))
      (omega arith)
