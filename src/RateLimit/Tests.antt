-- ===== src/RateLimit/Tests.antt =====
-- The theorems on the rate limiters at concrete times.
use proc_mw.Common.{◌*◌, ◌≤◌, ◌≡◌, refl, true, [], ◌∷◌, arith}
use proc_mw.Dispatch.{Host}
use proc_mw.RateLimit.{RateState, RateLimiter, fresh, roll, admit}
use proc_mw.RateLimit.Bounds.{serve, serve-le_twice_limit}

-- Two requests in each ten nanoseconds.
abbrev two_per_ten : RateLimiter
two_per_ten = record { limit = 2; window = 10 }

abbrev host : Host RateState
host = record { overflow_checks = true; now = λ w. (25, w) }

run : Unit {0}
unfolding serve roll admit
run = tt

-- A whole quota passes at each end of a span, and none in the middle.
results :
    ((serve two_per_ten (9 ∷ 10 ∷ 10 ∷ 11 ∷ 12 ∷ 19 ∷ []) (fresh 0)).0 ≡ 4)
    × ((serve two_per_ten (1 ∷ 2 ∷ 3 ∷ 10 ∷ []) (fresh 0)).0 ≡ 2)
unfolding run
results = (refl, refl)

serve-le_twice_limit_example :
    (serve two_per_ten (9 ∷ 10 ∷ 10 ∷ 11 ∷ 12 ∷ 19 ∷ []) (fresh 0)).0 ≤ 2 * 2
serve-le_twice_limit_example =
    serve-le_twice_limit two_per_ten 9 (9 ∷ 10 ∷ 10 ∷ 11 ∷ 12 ∷ 19 ∷ []) (fresh 0) (omega arith)
      (omega arith)
