-- ===== src/Async/Erased/Modes.antt =====
-- The ways to execute an asynchronous chain, against those of the synchronous chain.
use proc_mw.Common.{ℕ, zero, suc, ◌*◌, ◌<◌, ◌≡◌, refl, Option, some, List, length, arith}
use proc_mw.Int.{ℤ, pos}
use proc_mw.Effect.{Ended, ok, err, panicked, Hook}
use proc_mw.Opaque
use proc_mw.Opaque.{OpaqueNode, OpaqueChain, HasDeadline, HasTrace, Verdict, opaque_reject}
use proc_mw.Async.Erased.{
  OpaqueAsyncNode, OpaqueAsyncChain, new_chain, exec, exec_fallible, exec_or, exec_catch,
  exec_with_trace, exec_with_deadline, retry_from, exec_retry,
}
use proc_mw.Async.Erased.Agreement.{AllAwaited, exec-eq-sync}

module _ {W R P : Type 0} (idle : W → W) (fuel : ℕ) (c : OpaqueAsyncChain W R P)
    (d : OpaqueChain W R) where
  -- The execution of `c` ends, as the one of `d` does.
  abbrev Agree : Type 0 → Type 0
  Agree O =
      (core : Hook W R O) (r : R) (w : W)
      → exec idle fuel c core r w ≡ some (Opaque.exec d core r w)

  fallible_agrees :
      {O E : Type 0} (core : Hook W R (Verdict O E)) (r : R) (w : W)
      → Agree (Verdict O E)
      → exec_fallible idle fuel c core r w ≡ some (Opaque.exec_fallible d core r w)
  unfolding exec_fallible Opaque.exec_fallible
  fallible_agrees core r w same = rw (same core r w) (ground arith)

  module _ {O : Type 0} (core : Hook W R O) where
    or_agrees :
        (fallback : Hook W R O) (r : R) (w : W)
        → Agree O
        → exec_or idle fuel c core fallback r w ≡ some (Opaque.exec_or d core fallback r w)
    unfolding exec_or Opaque.exec_or
    or_agrees fallback r w same = rw (same core r w) (ground arith)

    catch_agrees :
        (r : R) (w : W)
        → Agree O
        → exec_catch idle fuel c core r w ≡ some (Opaque.exec_catch d core r w)
    unfolding exec_catch Opaque.exec_catch
    catch_agrees r w same = rw (same core r w) (ground arith)

    deadline_agrees :
        (unix_millis : W → Option ℕ × W) (req_deadline : HasDeadline R) (r : R) (w : W)
        → Agree O
        → exec_with_deadline idle fuel c unix_millis req_deadline core r w
          ≡ some (Opaque.exec_with_deadline d unix_millis req_deadline core r w)
    unfolding exec_with_deadline Opaque.exec_with_deadline
    deadline_agrees unix_millis req_deadline r w same =
        ground (arith, same core r w, same core r (unix_millis w).1)

    retry_agrees :
        (clone : R → R) (n : ℕ) (last : ℤ) (r : R) (w : W)
        → Agree O
        → retry_from idle fuel c clone core n last r w
          ≡ some (Opaque.retry_from d clone core n last r w)
    unfolding retry_from Opaque.retry_from
    retry_agrees clone zero last r w same = refl
    retry_agrees clone (suc n) last r w same =
        rw (same core (clone r) w)
          (after (Opaque.exec d core (clone r) w) (λ e w'. retry_agrees clone n e r w' same))
      where
        after :
            (x : Ended ℤ O × R × W)
            → ((e : ℤ) (w' : W)
                → retry_from idle fuel c clone core n e r w'
                  ≡ some (Opaque.retry_from d clone core n e r w'))
            → (elim x.0 as (λ _. Option (Ended ℤ O × R × W)) [
              | ok v ↦ some (ok v, x.1, x.2)
              | err e ↦ retry_from idle fuel c clone core n e r x.2
              | panicked ↦ some (panicked, r, x.2)
            ])
              ≡ some (elim x.0 as (λ _. Ended ℤ O × R × W) [
                | ok v ↦ (ok v, x.1, x.2)
                | err e ↦ Opaque.retry_from d clone core n e r x.2
                | panicked ↦ (panicked, r, x.2)
              ])
        after (ok v, r', w') ih = refl
        after (err e, r', w') ih = ih e w'
        after (panicked, r', w') ih = refl

-- Let the asynchronous nodes end as the enter hooks of synchronous nodes do, each after at most its
-- first poll and `k` more. Then each way to execute the asynchronous chain ends, after at most one poll
-- and `k` more for each node in each execution, and does what the same way to execute the synchronous
-- chain does: with a core that may fail, with a fallback, with panics caught, with a trace identifier, with
-- a deadline, and with retries.
pub modes_agree :
    {W R P O E : Type 0} (idle : W → W) (k fuel : ℕ) (as' : List (OpaqueAsyncNode W R P))
    (ns : List (OpaqueNode W R)) (core' : Hook W R (Verdict O E)) (core fallback : Hook W R O)
    (req_trace : HasTrace R) (trace : ℕ) (unix_millis : W → Option ℕ × W)
    (req_deadline : HasDeadline R) (clone : R → R) (n : ℕ) (r : R) (w : W)
    → AllAwaited idle k as' ns
    → k * length as' < fuel
    → let c = new_chain as' in
      let d = Opaque.new_chain ns in
      (exec_fallible idle fuel c core' r w ≡ some (Opaque.exec_fallible d core' r w))
      × (exec_or idle fuel c core fallback r w ≡ some (Opaque.exec_or d core fallback r w))
      × (exec_catch idle fuel c core r w ≡ some (Opaque.exec_catch d core r w))
      × (exec_with_trace idle fuel c req_trace core trace r w
          ≡ some (Opaque.exec_with_trace d req_trace core trace r w))
      × (exec_with_deadline idle fuel c unix_millis req_deadline core r w
          ≡ some (Opaque.exec_with_deadline d unix_millis req_deadline core r w))
      × (exec_retry idle fuel c clone core n r w ≡ some (Opaque.exec_retry d clone core n r w))
unfolding exec_with_trace Opaque.exec_with_trace exec_retry Opaque.exec_retry
modes_agree {W} {R} {P} {O} {E} idle k fuel as' ns core' core fallback req_trace trace unix_millis
      req_deadline clone n r w h le =
    let c = new_chain as' in
    let d = Opaque.new_chain ns in
    let same : Agree idle fuel c d O =
      λ core₁ r' w'. exec-eq-sync idle k fuel as' ns core₁ r' w' h le in
    let same' : Agree idle fuel c d (Verdict O E) =
      λ core₁ r' w'. exec-eq-sync idle k fuel as' ns core₁ r' w' h le in
    (
      fallible_agrees idle fuel c d core' r w same',
      or_agrees idle fuel c d core fallback r w same,
      catch_agrees idle fuel c d core r w same,
      same core (req_trace.set_trace_id trace r) w,
      deadline_agrees idle fuel c d core unix_millis req_deadline r w same,
      retry_agrees idle fuel c d core clone n (pos 0) r w same,
    )
