-- ===== src/Services/Refusals.antt =====
-- Rows of calls of s03_retry_policy.rs that the chain refuses: what its breaker makes of them.
use proc_mw.Common.{ℕ, suc, ◌+◌, ◌^◌, ◌<◌, ◌≡◌, ap, ◌∙◌, List, [], ◌∷◌, length, lt→ltb, arith}
use proc_mw.Int.{ℤ}
use proc_mw.Effect.{Ended, ok, err}
use proc_mw.Cell.{Cell}
use proc_mw.Dispatch.{Host}
use proc_mw.Opaque.{OpaqueChain, exec}
use proc_mw.Breaker.{CircuitState, CircuitBreaker, count_failure}
use proc_mw.Breaker.Opening.{failed, enter_call_closed}
use proc_mw.Services.Retry.{fail_counted, attempts, guarded, call_retrying}

module _ {W Req Resp E : Type 0} (host : Host W) (cell : Cell W CircuitState) (b : CircuitBreaker)
    (inner : Req → W → Ended E Resp × W) (chain : OpaqueChain W Req) (n : ℕ) where
  -- The chain refuses every request, and does not write the breaker's state.
  abbrev pub AlwaysRefuses : Type 0
  AlwaysRefuses =
      (req : Req) (w : W)
      → (code : ℤ) × (req' : Req) × (w' : W) × (exec chain (λ r v. (ok tt, r, v)) req w
          ≡ (err code, req', w'))
        × (cell.get w' ≡ cell.get w)

  -- Calls one after the other, of a service with `n + 1` attempts
  unfoldable pub calls_retrying : List Req → W → W
  calls_retrying [] w = w
  calls_retrying (req ∷ reqs) w =
      calls_retrying reqs (call_retrying host cell b inner chain (suc n) req w).1

  call_refused :
      (req : Req) (k : ℕ) (w : W)
      → AlwaysRefuses
      → k + 1 < 2 ^ 32
      → cell.get w ≡ failed k
      → cell.get (call_retrying host cell b inner chain (suc n) req w).1 ≡ failed (k + 1)
  unfolding call_retrying guarded attempts fail_counted count_failure
  call_refused req k w refuses small c =
      let (code, req', w', stops, same) = refuses req w in
      rw
        (
          ap (λ (s : CircuitState). s.poisoned) c,
          enter_call_closed host cell b w (ap (λ (s : CircuitState). s.open_until) c),
          stops,
          same,
          c,
          lt→ltb (k + 1) (2 ^ 32) small,
        )
        (cell.get-set (failed (k + 1)) w')

  -- Let the chain refuse every request, and not write the breaker's state. Then a row of calls with one attempt or
  -- more counts a failure for each, and never opens the breaker, whatever its threshold is.
  pub refusals_never_open :
      (reqs : List Req) (k : ℕ) (w : W)
      → AlwaysRefuses
      → k + length reqs < 2 ^ 32
      → cell.get w ≡ failed k
      → cell.get (calls_retrying reqs w) ≡ failed (k + length reqs)
  unfolding calls_retrying
  refusals_never_open [] k w refuses small c = c ∙ ap failed (omega arith)
  refusals_never_open (req ∷ reqs) k w refuses small c =
      refusals_never_open reqs (k + 1) (call_retrying host cell b inner chain (suc n) req w).1
        refuses (omega arith) (call_refused req k w refuses (omega arith) c)
      ∙ ap failed (omega arith)
