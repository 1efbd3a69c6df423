-- ===== src/Services/Retrying.antt =====
-- The attempts of s03_retry_policy.rs: what a call comes to, and which failures its breaker counts.
use proc_mw.Common.{
  ℕ, zero, suc, ◌+◌, ◌≡◌, refl, ap, ◌⊎◌, inl, inr, false, Option, none, some, arith, subst,
}
use proc_mw.Int.{ℤ, pos}
use proc_mw.Effect.{Ended, ok, err, panicked}
use proc_mw.Cell.{Cell}
use proc_mw.Retry.{Fails, start, again, Retried, succeeded, crashed, exhausted}
use proc_mw.Dispatch.{Host}
use proc_mw.Opaque.{OpaqueChain, exec}
use proc_mw.Breaker.{CircuitState, CircuitBreaker}
use proc_mw.Breaker.Opening.{enter_call_closed}
use proc_mw.Services.{MwSvcError, chain_failed, inner_failed}
use proc_mw.Services.Settling.{
  Settles, unwound, succeed-Settles, fail_counted-Settles, fail_opening-Settles,
}
use proc_mw.Services.Retry.{
  fail_counted, after_inner, after_chain, attempts, guarded, call_retrying,
}

module _ {W Req Resp E : Type 0} (host : Host W) (cell : Cell W CircuitState) (b : CircuitBreaker)
    (inner : Req → W → Ended E Resp × W) (chain : OpaqueChain W Req) where
  -- One attempt, as an attempt of a retry loop: it ends the loop by a value or by the refusal of the chain.
  abbrev pub served : Ended E Resp × W → Ended (MwSvcError E) (Resp ⊎ ℤ) × W
  served (ok v, w) = (ok (inl v), w)
  served (err e, w) = (err (inner_failed e), w)
  served (panicked, w) = (panicked, w)

  abbrev pub passed : Ended ℤ (Unit {0}) × Req × W → Ended (MwSvcError E) (Resp ⊎ ℤ) × W
  passed (ok _, req, w) = served (inner req w)
  passed (err code, req, w) = (ok (inr code), w)
  passed (panicked, req, w) = (panicked, w)

  abbrev pub attempt : Req → W → Ended (MwSvcError E) (Resp ⊎ ℤ) × W
  attempt req w = passed (exec chain (λ r v. (ok tt, r, v)) req w)

  abbrev map_error : Option E → Option (MwSvcError E)
  map_error none = none
  map_error (some e) = some (inner_failed e)

  abbrev pub Concluded : ℕ → Req → W → Ended (MwSvcError E) Resp × W → Type 0
  Concluded n req w r =
      (o : Ended (MwSvcError E) (Resp ⊎ ℤ) × W) × Retried (attempt req) (chain_failed (pos 2)) n w o
      × Settles host cell b o.1 o.0 r.0 r.1

  attempts-Concluded :
      (req : Req) (w : W) (total n k : ℕ) (last : Option E) (w₁ : W)
      → total ≡ k + n
      → Fails (attempt req) w k (map_error last) w₁
      → Concluded total req w (attempts host cell b inner chain n last req w₁)
  unfolding attempts
  attempts-Concluded req w total zero k none w₁ e f = (
    (err (chain_failed (pos 2)), w₁),
    exhausted (subst (λ (j : ℕ). Fails (attempt req) w j none w₁) (omega arith) f),
    fail_opening-Settles host cell b (chain_failed (pos 2)) w₁,
  )
  attempts-Concluded req w total zero k (some x) w₁ e f = (
    (err (inner_failed x), w₁),
    exhausted
        (subst (λ (j : ℕ). Fails (attempt req) w j (some (inner_failed x)) w₁) (omega arith) f),
    fail_opening-Settles host cell b (inner_failed x) w₁,
  )
  attempts-Concluded req w total (suc n) k last w₁ e f =
      by_chain (λ x w₂. attempts-Concluded req w total n (suc k) (some x) w₂ (omega arith))
        (exec chain (λ r v. (ok tt, r, v)) req w₁) refl
    where
      next : E → W → Ended (MwSvcError E) Resp × W
      next x = attempts host cell b inner chain n (some x) req

      Following : Type 0
      Following =
          (x : E) (w₂ : W)
          → Fails (attempt req) w (suc k) (some (inner_failed x)) w₂
          → Concluded total req w (next x w₂)

      by_inner :
          Following
          → (o : Ended E Resp × W) → attempt req w₁ ≡ served o
          → Concluded total req w (after_inner host cell b inner chain next o)
      by_inner ih (ok v, w₂) p =
          ((ok (inl v), w₂), succeeded f (omega arith) p, succeed-Settles host cell b v w₂)
      by_inner ih (err x, w₂) p = ih x w₂ (again f p)
      by_inner ih (panicked, w₂) p = ((panicked, w₂), crashed f (omega arith) p, unwound)

      by_chain :
          Following
          → (o : Ended ℤ (Unit {0}) × Req × W) → exec chain (λ r v. (ok tt, r, v)) req w₁ ≡ o
          → Concluded total req w (
              after_chain host cell b inner chain
                (λ code. fail_counted host cell b (chain_failed code))
                next
                o)
      by_chain ih (ok u, req', w₂) p = by_inner ih (inner req' w₂) (ap passed p)
      by_chain ih (err code, req', w₂) p = (
        (ok (inr code), w₂),
        succeeded f (omega arith) (ap passed p),
        fail_counted-Settles host cell b code w₂,
      )
      by_chain ih (panicked, req', w₂) p =
          ((panicked, w₂), crashed f (omega arith) (ap passed p), unwound)

  -- While the breaker is not open, its lock not poisoned, a call makes at most `retries` attempts, each on a
  -- clone of the request and on the state that the one before has left. The first one that does not end by an
  -- error of the inner service ends the call: by its value, with the failures set to 0; by the refusal of the
  -- chain, with one failure more and the breaker left as it was; or by its panic. If all fail, the failures
  -- are one more, the breaker opens until the cooldown after the time read then exactly if they reach the
  -- threshold, and the error is that of the last attempt (the one of an open breaker if there was none). If
  -- the lock has been poisoned in the meantime, the call panics; and if the count does not fit a `u32`, it
  -- panics and poisons the lock with overflow checks, and the count wraps to 0 without them.
  pub call_retrying-Concluded :
      (retries : ℕ) (req : Req) (w : W)
      → (cell.get w).poisoned ≡ false
      → (cell.get w).open_until ≡ none
      → Concluded retries req w (call_retrying host cell b inner chain retries req w)
  unfolding call_retrying guarded
  call_retrying-Concluded retries req w p o =
      rw (p, enter_call_closed host cell b w o)
        (attempts-Concluded req w retries retries 0 none w (omega arith) start)
