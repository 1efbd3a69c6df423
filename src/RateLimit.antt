-- ===== src/RateLimit.antt =====
-- src/rate_limit.rs, and `OpaqueRateLimiter` of src/opaque_gov.rs, which is the same over any
-- request: a quota per window, in a state behind a lock. Times are in nanoseconds.
pub mod Bounds
mod Tests
use proc_mw.Common.{ℕ, ◌+◌, ◌-◌, ⊤, Bool, true, false, ltb, leb, if◌then◌else◌}
use proc_mw.Int.{ℤ}
use proc_mw.Effect.{Ended, ok, err, panicked, Hook, Act}
use proc_mw.Cell.{Cell}
use proc_mw.Dispatch.{Ctx, Flow, continue, MwError, rejected, Mw, Host}
use proc_mw.Opaque.{OpaqueMw, opaque_continue, opaque_reject}

-- `RateState`, and whether its lock is poisoned: a thread panicked while it held the lock.
pub record RateState : Type 0 where
  pub window_start : ℕ
  pub count : ℕ
  pub poisoned : Bool

pub record RateLimiter : Type 0 where
  pub limit : ℕ
  pub window : ℕ

-- `new` and `reset` start a window.
abbrev pub fresh : ℕ → RateState
fresh now = record { window_start = now; count = 0; poisoned = false }

-- The part of `enter` behind the lock, at the time `now`: whether the request may pass. A time
-- before the start of the window counts as no time since then.
unfoldable pub roll : RateLimiter → ℕ → RateState → RateState
roll l now st =
    if ltb l.window (now - st.window_start) then record st { window_start = now; count = 0 } else st

unfoldable pub admit : RateLimiter → ℕ → RateState → Bool × RateState
unfolding roll
admit l now st =
    let st' = roll l now st in
    if leb l.limit st'.count then (false, st') else (true, record st' { count = st'.count + 1 })

module _ {W : Type 0} (host : Host W) (cell : Cell W RateState) (l : RateLimiter) where
  -- `reset`: the lock is taken with `unwrap`, which panics if it is poisoned.
  unfoldable pub reset : {R : Type 0} → Hook W R ⊤
  reset r w =
      if (cell.get w).poisoned
      then (panicked, r, w)
      else let (now, w') = host.now w in (ok tt, r, cell.set (fresh now) w')

  -- `enter` of `Mw for RateLimiter`
  unfoldable pub enter_limited : Act W Ctx MwError Flow
  enter_limited c w =
      if (cell.get w).poisoned
      then (err (rejected "state poisoned"), c, w)
      else let (now, w') = host.now w in
        let (passes, st) = admit l now (cell.get w') in
        (if passes then ok continue else err (rejected "rate limited"), c, cell.set st w')

  abbrev pub rate_limiter : Mw W
  rate_limiter = record { enter = enter_limited; exit = λ c w. (ok tt, c, w) }

  -- `enter` of `OpaqueMw for OpaqueRateLimiter`
  unfoldable pub enter_opaque_limited : {R : Type 0} → Hook W R ℤ
  enter_opaque_limited r w =
      if (cell.get w).poisoned
      then (ok opaque_reject, r, w)
      else let (now, w') = host.now w in
        let (passes, st) = admit l now (cell.get w') in
        (ok (if passes then opaque_continue else opaque_reject), r, cell.set st w')

  abbrev pub opaque_rate_limiter : {R : Type 0} → OpaqueMw W R
  opaque_rate_limiter = record { enter = enter_opaque_limited; exit = λ r w. (ok tt, r, w) }
