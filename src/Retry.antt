-- ===== src/Retry.antt =====
-- What a retry loop promises, stated without the loop: `run` is one attempt, which ends and leaves
-- the shared state changed.
use proc_mw.Common.{ℕ, suc, ◌≡◌, ◌<◌, Option, none, some}
use proc_mw.Effect.{Ended, ok, err, panicked}

-- `last_err.unwrap_or(default)`
abbrev pub error_or : {E : Type 0} → E → Option E → E
error_or default none = default
error_or default (some e) = e

module _ {W E A : Type 0} (run : W → Ended E A × W) where
  -- `k` attempts in a row that all fail: the error of the last one, and the state after it.
  pub data Fails (w : W) : ℕ → Option E → W → Type 0 where
    start : Fails w 0 none w
    again :
        {k : ℕ} {last : Option E} {w₁ w₂ : W} {e : E}
        → Fails w k last w₁
        → run w₁ ≡ (err e, w₂)
        → Fails w (suc k) (some e) w₂

  -- The outcome of at most `n` attempts. `default` is the error of no attempt.
  pub data Retried (default : E) (n : ℕ) (w : W) : Ended E A × W → Type 0 where
    succeeded :
        {k : ℕ} {last : Option E} {w₁ w₂ : W} {a : A}
        → Fails w k last w₁
        → k < n
        → run w₁ ≡ (ok a, w₂)
        → Retried default n w (ok a, w₂)
    crashed :
        {k : ℕ} {last : Option E} {w₁ w₂ : W}
        → Fails w k last w₁
        → k < n
        → run w₁ ≡ (panicked, w₂)
        → Retried default n w (panicked, w₂)
    exhausted :
        {last : Option E} {w₁ : W}
        → Fails w n last w₁
        → Retried default n w (err (error_or default last), w₁)
