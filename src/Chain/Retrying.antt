-- ===== src/Chain/Retrying.antt =====
-- `exec_retry` meets the specification of a retry loop.
use proc_mw.Common.{ℕ, zero, suc, ◌+◌, ◌≡◌, refl, Option, none, some, arith, subst}
use proc_mw.Int.{ℤ}
use proc_mw.Effect.{Ended, ok, err, panicked}
use proc_mw.Dispatch.{MwError, halted, Host}
use proc_mw.Chain.{Chain, Core, exec, retry_from, exec_retry}
use proc_mw.Retry.{Fails, start, again, Retried, succeeded, crashed, exhausted}

module _ {W : Type 0} (host : Host W) (chain : Chain W) (core : Core W) (input : ℤ) where
  abbrev pub attempt : W → Ended MwError ℤ × W
  attempt = exec host chain core input

  retry_from-Retried :
      (total n k : ℕ) (last : Option MwError) (w w₁ : W)
      → total ≡ k + n
      → Fails attempt w k last w₁
      → Retried attempt halted total w (retry_from host chain core input n last w₁)
  unfolding retry_from
  retry_from-Retried total zero k none w w₁ e f =
      exhausted (subst (λ (j : ℕ). Fails attempt w j none w₁) (omega arith) f)
  retry_from-Retried total zero k (some e₀) w w₁ e f =
      exhausted (subst (λ (j : ℕ). Fails attempt w j (some e₀) w₁) (omega arith) f)
  retry_from-Retried total (suc n) k last w w₁ e f =
      after (attempt w₁) refl
        (λ e₁ w₂. retry_from-Retried total n (suc k) (some e₁) w w₂ (omega arith))
    where
      after :
          (r : Ended MwError ℤ × W)
          → attempt w₁ ≡ r
          → ((e₁ : MwError) (w₂ : W)
              → Fails attempt w (suc k) (some e₁) w₂
              → Retried attempt halted total w (retry_from host chain core input n (some e₁) w₂))
          → Retried attempt halted total w (elim r.0 [
            | ok v ↦ (ok v, r.1)
            | err e₁ ↦ retry_from host chain core input n (some e₁) r.1
            | panicked ↦ (panicked, r.1)
          ])
      after (ok v, w₂) p ih = succeeded f (omega arith) p
      after (err e₁, w₂) p ih = ih e₁ w₂ (again f p)
      after (panicked, w₂) p ih = crashed f (omega arith) p

  -- `exec_retry` runs the whole chain again after each error, on the state that the attempt before
  -- has left, and at most `attempts` times: it returns the first success, with fewer than `attempts`
  -- errors before it; or a panic of an attempt; or, when all attempts failed, the error of the last
  -- one (`Halted` if there was no attempt).
  pub exec_retry-Retried :
      (attempts : ℕ) (w : W)
      → Retried attempt halted attempts w (exec_retry host chain core input attempts w)
  unfolding exec_retry
  exec_retry-Retried attempts w =
      retry_from-Retried attempts attempts 0 none w w (omega arith) start
