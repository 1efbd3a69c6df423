-- ===== src/Services/RetryTests.antt =====
-- Runs of the retrying service and of the one with a fallback, and their theorems at these inputs.
use proc_mw.Common.{false, some, ℕ, zero, suc, ◌<◌, ◌≡◌, refl, true, [], ◌∷◌, arith}
use proc_mw.Int.{pos}
use proc_mw.Effect.{Ended, ok, err}
use proc_mw.Cell.{Cell}
use proc_mw.Dispatch.{Host}
use proc_mw.Opaque.{
  OpaqueChain, new_chain, enter, exit, check_code, enter_all, exit_all, exec, to_node, builtin_mw,
  reject,
}
use proc_mw.Breaker.{
  CircuitState, CircuitBreaker, closed, before_call, count_failure, enter_call, after_failure,
  open_at,
}
use proc_mw.Breaker.Opening.{failed}
use proc_mw.Services.{inner_failed}
use proc_mw.Services.Retry.{
  succeed, fail_counted, fail_opening, attempts, guarded, call_retrying, set_fallback,
  call_or_fallback,
}
use proc_mw.Services.Retrying.{Concluded, call_retrying-Concluded}
use proc_mw.Services.Refusals.{calls_retrying, refusals_never_open}
use proc_mw.Services.Outage.{calls, outage}
use proc_mw.Strings.{Text, codes}

-- The breaker, the fallback, and a number: the time, or how often the inner service still fails
abbrev World : Type 0
World = CircuitState × Text × ℕ

abbrev breaker : Cell World CircuitState
breaker = record { get = λ w. w.0; set = λ s w. (s, w.1, w.2); get-set = λ s w. refl }

abbrev fallback : Cell World Text
fallback = record { get = λ w. w.1; set = λ s w. (w.0, s, w.2); get-set = λ s w. refl }

abbrev host : Host World
host = record { overflow_checks = true; now = λ w. (w.2, w) }

abbrev limits : CircuitBreaker
limits = record { threshold = 2; cooldown = 80 }

-- `FlakySvc`, as long as its count is not 0
abbrev flaky : ℕ → World → Ended ℕ Text × World
flaky req (s, t, left) = elim left [
  | zero ↦ (ok (codes "done"), (s, t, 0))
  | suc n ↦ (err req, (s, t, n))
]

abbrev down : ℕ → World → Ended ℕ Text × World
down req w = (err req, w)

abbrev through : OpaqueChain World ℕ
through = new_chain []

abbrev refusing : OpaqueChain World ℕ
refusing = new_chain (to_node reject ∷ [])

abbrev start_at : ℕ → World
start_at n = (closed, codes "503", n)

run : Unit {0}
unfolding exec enter_all exit_all enter exit check_code to_node builtin_mw enter_call before_call
    count_failure after_failure succeed fail_counted fail_opening attempts guarded call_retrying
    set_fallback call_or_fallback calls_retrying calls
run = tt

-- Two failures, then the value; and with one attempt, the failure.
retry_run :
    (call_retrying host breaker limits flaky through 5 7 (start_at 2)
      ≡ (ok (codes "done"), start_at 0))
    × (call_retrying host breaker limits flaky through 1 7 (start_at 2)
        ≡ (err (inner_failed 7), (failed 1, codes "503", 1)))
unfolding run
retry_run = (refl, refl)

call_retrying-Concluded_example :
    Concluded host breaker limits flaky through 5 7
      (start_at 2)
      (call_retrying host breaker limits flaky through 5 7 (start_at 2))
call_retrying-Concluded_example =
    call_retrying-Concluded host breaker limits flaky through 5 7 (start_at 2) refl refl

-- Three calls that the chain refuses, where the threshold is 2
refusals_never_open_example :
    breaker.get (calls_retrying host breaker limits flaky refusing 4 (7 ∷ 8 ∷ 9 ∷ []) (start_at 2))
    ≡ failed 3
refusals_never_open_example =
    refusals_never_open host breaker limits flaky refusing 4 (7 ∷ 8 ∷ 9 ∷ []) 0 (start_at 2)
      (λ req w.
        (pos 2, req, w, unfold exec enter_all enter to_node builtin_mw check_code in refl, refl))
      (omega arith) refl

-- Two failing calls, and the answer of the third
fallback_run :
    let w = calls host breaker limits down through fallback (7 ∷ 8 ∷ []) (start_at 10) in
    call_or_fallback host breaker limits down through fallback 9
      (set_fallback host breaker limits fallback (codes "200") w)
    ≡ (ok (codes "200"), (open_at 10 80 (failed 2), codes "200", 10))
unfolding run
fallback_run = refl

outage_example :
    let w =
      (call_or_fallback host breaker limits down through fallback 8
        (calls host breaker limits down through fallback (7 ∷ []) (start_at 10))).1 in
    (breaker.get w ≡ record { failures = 2; open_until = some 90; poisoned = false })
    × ((s : Text) (next : ℕ)
        → (host.now (set_fallback host breaker limits fallback s w)).0 < 90
        → (call_or_fallback host breaker limits down through fallback next
            (set_fallback host breaker limits fallback s w)).0
          ≡ ok s)
unfolding run
outage_example =
    outage host breaker limits down through fallback (7 ∷ []) 8 (start_at 10)
      (λ req w. (inner_failed req, w, unfold exec enter_all exit_all in refl, refl))
      (record {
        get-set_fallback = λ s w. refl;
        fallback-now = λ w. refl;
        fallback-set = λ s w. refl;
      })
      refl (omega arith) refl
