-- ===== src/Opaque/Modes.antt =====
-- `exec_retry` of a type-erased chain, and what its errors are.
use proc_mw.Common.{
  ℕ, zero, suc, ◌+◌, ◌≡◌, refl, ap, subst, ◌⊎◌, inl, inr, ◌≢◌, ◌↔◌, arith, Option, none, some,
}
use proc_mw.Int.{ℤ, pos}
use proc_mw.Effect.{Ended, ok, err, panicked, Hook}
use proc_mw.Retry.{Fails, start, again, Retried, succeeded, crashed, exhausted, error_or}
use proc_mw.Opaque.{OpaqueChain, exec, retry_from, exec_retry}
use proc_mw.Opaque.Errors.{exec-ne-err-zero}

-- The result of an execution, with the request that a success leaves; the request of a failed
-- execution is left out.
abbrev pub with_request : {W R O : Type 0} → Ended ℤ O × R × W → Ended ℤ (O × R) × W
with_request (ok v, r, w) = (ok (v, r), w)
with_request (err e, r, w) = (err e, w)
with_request (panicked, r, w) = (panicked, w)

module _ {W R O : Type 0} (chain : OpaqueChain W R) (clone : R → R) (core : Hook W R O) where
  -- One attempt, on a clone of the request.
  abbrev pub attempt : R → W → Ended ℤ (O × R) × W
  attempt r w = with_request (exec chain core (clone r) w)

  abbrev Outcome : ℕ → R → W → Ended ℤ O × R × W → Type 0
  Outcome total r w res =
      Retried (attempt r) (pos 0) total w (with_request res)
      × (((v : O) × (res.0 ≡ ok v)) ⊎ (res.1 ≡ r))

  retry_from-Retried :
      (total n k : ℕ) (last : Option ℤ) (r : R) (w w₁ : W)
      → total ≡ k + n
      → Fails (attempt r) w k last w₁
      → Outcome total r w (retry_from chain clone core n (error_or (pos 0) last) r w₁)
  unfolding retry_from
  retry_from-Retried total zero k last r w w₁ e f =
      (exhausted (subst (λ (j : ℕ). Fails (attempt r) w j last w₁) (omega arith) f), inr refl)
  retry_from-Retried total (suc n) k last r w w₁ e f =
      after (exec chain core (clone r) w₁) refl
        (λ e₁ w₂. retry_from-Retried total n (suc k) (some e₁) r w w₂ (omega arith))
    where
      after :
          (res : Ended ℤ O × R × W)
          → exec chain core (clone r) w₁ ≡ res
          → ((e₁ : ℤ) (w₂ : W)
              → Fails (attempt r) w (suc k) (some e₁) w₂
              → Outcome total r w (retry_from chain clone core n e₁ r w₂))
          → Outcome total r w (elim res.0 [
            | ok v ↦ (ok v, res.1, res.2)
            | err e₁ ↦ retry_from chain clone core n e₁ r res.2
            | panicked ↦ (panicked, r, res.2)
          ])
      after (ok v, r', w₂) p ih = (succeeded f (omega arith) (ap with_request p), inl (v, refl))
      after (err e₁, r', w₂) p ih = ih e₁ w₂ (again f (ap with_request p))
      after (panicked, r', w₂) p ih = (crashed f (omega arith) (ap with_request p), inr refl)

  -- `exec_retry` makes at most `n` attempts, each on a clone of the original request and on the
  -- shared state that the attempt before has left: it returns the first success, with the request
  -- that this attempt left; or a panic; or, when all attempts failed, the code of the last one (0 if
  -- there was no attempt). Without a success the request is as it was.
  pub exec_retry_clones :
      (n : ℕ) (r : R) (w : W)
      → Retried (attempt r) (pos 0) n w (with_request (exec_retry chain clone core n r w))
        × (((v : O) × ((exec_retry chain clone core n r w).0 ≡ ok v))
            ⊎ ((exec_retry chain clone core n r w).1 ≡ r))
  unfolding exec_retry
  exec_retry_clones n r w = retry_from-Retried n n 0 none r w w (omega arith) start

  retry_from-ne-err-zero :
      (n : ℕ) (last : ℤ) (r : R) (w : W)
      → (n ≡ 0 → last ≢ pos 0)
      → (retry_from chain clone core n last r w).0 ≢ err (pos 0)
  unfolding retry_from
  retry_from-ne-err-zero zero last r w ne h = ne refl (ground arith)
  retry_from-ne-err-zero (suc n) last r w ne h =
      after (exec chain core (clone r) w) (exec-ne-err-zero chain core (clone r) w)
        (λ e₁ w₂ nz. retry_from-ne-err-zero n e₁ r w₂ (λ _. nz)) h
    where
      after :
          (res : Ended ℤ O × R × W)
          → res.0 ≢ err (pos 0)
          → ((e₁ : ℤ) (w₂ : W)
              → e₁ ≢ pos 0
              → (retry_from chain clone core n e₁ r w₂).0 ≢ err (pos 0))
          → (elim res.0 as (λ _. Ended ℤ O × R × W) [
            | ok v ↦ (ok v, res.1, res.2)
            | err e₁ ↦ retry_from chain clone core n e₁ r res.2
            | panicked ↦ (panicked, r, res.2)
          ]).0
            ≢ err (pos 0)
      after (ok v, r', w₂) nz ih h = cc
      after (err e₁, r', w₂) nz ih h = ih e₁ w₂ (λ z. nz (ap err z)) h
      after (panicked, r', w₂) nz ih h = cc

  -- `exec_retry` returns `Err(0)`, the code that means "continue", exactly when it is asked for no
  -- attempt at all.
  pub exec_retry-eq-err-zero_iff :
      (n : ℕ) (r : R) (w : W) → ((exec_retry chain clone core n r w).0 ≡ err (pos 0)) ↔ (n ≡ 0)
  unfolding exec_retry retry_from
  exec_retry-eq-err-zero_iff zero r w = (λ _. refl, λ _. refl)
  exec_retry-eq-err-zero_iff (suc n) r w = (
    λ h. absurd (retry_from-ne-err-zero (suc n) (pos 0) r w (λ e. absurd (omega arith)) h),
    λ h. absurd (omega arith),
  )
