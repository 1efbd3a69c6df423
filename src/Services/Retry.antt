-- ===== src/Services/Retry.antt =====
-- s03_retry_policy.rs: a service that attempts a request several times, with a breaker around the attempts; and
-- s04_circuit_fallback.rs: one that answers with a fallback while its breaker is open. The breaker's data and
-- its two blocks are written out in both files as in src/circuit_breaker.rs, and are those of Breaker here.
-- What `inner.call(req).await` comes to is a parameter: it may change all of the shared state, as the other
-- tasks do while the call waits.
use proc_mw.Common.{ℕ, zero, suc, ⊤, Option, none, some, if◌then◌else◌}
use proc_mw.Int.{ℤ, pos}
use proc_mw.Effect.{Ended, ok, err, panicked}
use proc_mw.Cell.{Cell}
use proc_mw.Dispatch.{Host}
use proc_mw.Opaque.{OpaqueChain, exec}
use proc_mw.Breaker.{
  CircuitState, CircuitBreaker, on_success, count_failure, enter_call, after_failure,
}
use proc_mw.Services.{MwSvcError, chain_failed, inner_failed}
use proc_mw.Strings.{Text}

module _ {W : Type 0} (host : Host W) (cell : Cell W CircuitState) (b : CircuitBreaker) where
  -- `breaker.lock().unwrap().failures = 0`, and the value
  unfoldable pub succeed : {E A : Type 0} → A → W → Ended E A × W
  succeed v w =
      if (cell.get w).poisoned then (panicked, w) else (ok v, cell.set (on_success (cell.get w)) w)

  abbrev pub then_fail : {E A : Type 0} → E → Ended ⊥ ⊤ × W → Ended E A × W
  then_fail e (ok _, w) = (err e, w)
  then_fail e (err x, w) = absurd x
  then_fail e (panicked, w) = (panicked, w)

  -- `breaker.lock().unwrap().failures += 1`, and the error
  unfoldable pub fail_counted : {E A : Type 0} → E → W → Ended E A × W
  fail_counted e w =
      if (cell.get w).poisoned
      then (panicked, w)
      else let (counted, st) = count_failure host.overflow_checks (cell.get w) in
        then_fail e (counted, cell.set st w)

  -- The failure that opens the breaker if the threshold is reached, and the error
  unfoldable pub fail_opening : {E A : Type 0} → E → W → Ended E A × W
  fail_opening e w =
      if (cell.get w).poisoned then (panicked, w) else then_fail e (after_failure host cell b w)

  module _ {Req Resp E : Type 0} (inner : Req → W → Ended E Resp × W)
      (chain : OpaqueChain W Req) where
    -- The error of a service of which no attempt has been made is that of an open breaker.
    abbrev pub last_error : Option E → MwSvcError E
    last_error none = chain_failed (pos 2)
    last_error (some e) = inner_failed e

    -- What follows the inner service, and the chain, in one attempt; `next` makes the attempts that are left.
    abbrev pub after_inner :
        (E → W → Ended (MwSvcError E) Resp × W) → Ended E Resp × W → Ended (MwSvcError E) Resp × W
    after_inner next (ok v, w) = succeed v w
    after_inner next (err e, w) = next e w
    after_inner next (panicked, w) = (panicked, w)

    abbrev pub after_chain :
        (ℤ → W → Ended (MwSvcError E) Resp × W)
        → (E → W → Ended (MwSvcError E) Resp × W)
        → Ended ℤ (Unit {0}) × Req × W
        → Ended (MwSvcError E) Resp × W
    after_chain refused next (ok _, req, w) = after_inner next (inner req w)
    after_chain refused next (err code, req, w) = refused code w
    after_chain refused next (panicked, req, w) = (panicked, w)

    -- The loop of `RetryMwService::call`: the attempts that are left, and the last error. Each is made on a
    -- clone of the request.
    unfoldable pub attempts : ℕ → Option E → Req → W → Ended (MwSvcError E) Resp × W
    unfolding succeed fail_counted fail_opening
    attempts zero last req w = fail_opening (last_error last) w
    attempts (suc n) last req w =
        after_chain (λ code. fail_counted (chain_failed code)) (λ e. attempts n (some e) req)
          (exec chain (λ r v. (ok tt, r, v)) req w)

    -- The first block, which both services have, with what the service answers while the breaker is open
    unfoldable pub guarded :
        (W → Ended (MwSvcError E) Resp × W)
        → (W → Ended (MwSvcError E) Resp × W)
        → W
        → Ended (MwSvcError E) Resp × W
    guarded refuse go w =
        if (cell.get w).poisoned
        then (panicked, w)
        else let (runs, w') = enter_call host cell b w in if runs then go w' else refuse w'

    -- `RetryMwService::call`, awaited
    unfoldable pub call_retrying : ℕ → Req → W → Ended (MwSvcError E) Resp × W
    unfolding attempts guarded
    call_retrying retries req w =
        guarded (λ w'. (err (chain_failed (pos 2)), w')) (attempts retries none req) w

  -- `set_fallback`: the text behind the second lock
  unfoldable pub set_fallback : Cell W Text → Text → W → W
  set_fallback fallback s w = fallback.set s w

  -- `FallbackMwService::call`, awaited. No section of the lock of the fallback panics.
  module _ {Req E : Type 0} (inner : Req → W → Ended E Text × W) (chain : OpaqueChain W Req)
      (fallback : Cell W Text) where
    unfoldable pub call_or_fallback : Req → W → Ended (MwSvcError E) Text × W
    unfolding guarded succeed fail_opening
    call_or_fallback req w =
        guarded inner chain (λ w'. (ok (fallback.get w'), w'))
          (λ w'.
            after_chain inner chain (λ code. fail_opening (chain_failed code))
              (λ e. fail_opening (inner_failed e)) (exec chain (λ r v. (ok tt, r, v)) req w'))
          w
