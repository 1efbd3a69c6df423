-- ===== src/Breaker/Tests.antt =====
-- The theorems on the circuit breaker of src/circuit_breaker.rs at concrete calls.
use proc_mw.Common.{ℕ, ◌+◌, ◌≡◌, refl, ◌≢◌, ◌⊎◌, inl, true, false, some, [], arith}
use proc_mw.Int.{ℤ, pos}
use proc_mw.Effect.{err, panicked}
use proc_mw.Cell.{Cell}
use proc_mw.Dispatch.{MwError, rejected, Host, enter_all, exit_all, chain_exec_ctx, chain_exec}
use proc_mw.Chain
use proc_mw.Chain.{Chain, Core, new_chain}
use proc_mw.Breaker.{
  CircuitState, CircuitBreaker, closed, before_call, count_failure, enter_call, after_failure,
  settle, call,
}
use proc_mw.Breaker.Calls.{IsValid, AfterProbe, probing, call-IsValid, call_half_open}
use proc_mw.Breaker.Opening.{failed, calls}

-- The breaker's state, and a clock that ticks at each reading.
abbrev cell : Cell (CircuitState × ℕ) CircuitState
cell = record { get = λ w. w.0; set = λ s w. (s, w.1); get-set = λ s w. refl }

abbrev host : Host (CircuitState × ℕ)
host = record { overflow_checks = true; now = λ w. (w.1, (w.0, w.1 + 1)) }

abbrev breaker : CircuitBreaker
breaker = record { threshold = 2; cooldown = 10 }

abbrev chain : Chain (CircuitState × ℕ)
chain = new_chain []

abbrev failing : Core (CircuitState × ℕ)
failing c w = (err (rejected "downstream"), c, w)

abbrev open_until_12 : CircuitState
open_until_12 = record { failures = 2; open_until = some 12; poisoned = false }

run : Unit {0}
unfolding calls call settle after_failure enter_call before_call count_failure Chain.exec chain_exec
    chain_exec_ctx enter_all exit_all
run = tt

results :
    (call host cell breaker chain failing (pos 1) (failed 1, 2)
      ≡ (err (rejected "downstream"), (open_until_12, 3)))
    × (call host cell breaker chain failing (pos 1) (open_until_12, 12)
        ≡ (err (rejected "downstream"), (failed 1, 13)))
unfolding run
results = (refl, refl)

apart : (input : ℤ) (w : CircuitState × ℕ) → (Chain.exec host chain failing input w).1.0 ≡ w.0
unfolding run
apart input w = refl

fails :
    (input : ℤ) (w : CircuitState × ℕ)
    → (e : MwError) × ((Chain.exec host chain failing input w).0 ≡ err e)
unfolding run
fails input w = (rejected "downstream", refl)

closed-IsValid : IsValid breaker closed
closed-IsValid = record { unpoisoned = refl; bounded = omega arith; below = λ _. inl refl }

call-IsValid_example :
    let (r, w') = call host cell breaker chain failing (pos 1) (closed, 5) in
    IsValid breaker w'.0
    × ((r ≢ panicked)
        ⊎ ((Chain.exec host chain failing (pos 1) (enter_call host cell breaker (closed, 5)).1).0
            ≡ panicked))
call-IsValid_example =
    call-IsValid host cell breaker chain failing (pos 1) (closed, 5) (omega arith) apart
      closed-IsValid

call_half_open_example :
    let (r, w₂) =
      Chain.exec host chain failing (pos 1) (probing host cell breaker (open_until_12, 12)) in
    let (r', w') = call host cell breaker chain failing (pos 1) (open_until_12, 12) in
    (r' ≡ r) × AfterProbe host cell breaker r w'.0
call_half_open_example =
    call_half_open host cell breaker chain failing (pos 1) (open_until_12, 12) apart refl refl
      (omega arith)
