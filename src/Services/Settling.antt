-- ===== src/Services/Settling.antt =====
-- What the breaker of s03_retry_policy.rs makes of the end of a call's attempts.
use proc_mw.Common.{
  ℕ, ◌+◌, ◌^◌, ◌≤◌, ◌<◌, ◌≡◌, refl, sym, subst, ⊤, ◌⊎◌, inl, inr, true, false, Bool-cases, some,
  ltb, leb, if◌then◌else◌, arith,
}
use proc_mw.Int.{ℤ}
use proc_mw.Effect.{Ended, ok, err, panicked}
use proc_mw.Cell.{Cell}
use proc_mw.Dispatch.{Host}
use proc_mw.Breaker.{CircuitState, CircuitBreaker, count_failure, after_failure}
use proc_mw.Services.{MwSvcError, chain_failed}
use proc_mw.Services.Retry.{succeed, fail_counted, fail_opening}

module _ {W : Type 0} (host : Host W) (cell : Cell W CircuitState) where
  -- One failure more, as a `u32` that wraps around
  abbrev pub next_count : W → ℕ
  next_count w = if ltb ((cell.get w).failures + 1) (2 ^ 32) then (cell.get w).failures + 1 else 0

  -- Whether the count may be raised without a panic
  abbrev pub Fits : W → Type 0
  Fits w = ((cell.get w).failures + 1 < 2 ^ 32) ⊎ (host.overflow_checks ≡ false)

  abbrev pub with_count : W → CircuitState
  with_count w = record (cell.get w) { failures = next_count w }

  count-Fits :
      (w : W) → Fits w → count_failure host.overflow_checks (cell.get w) ≡ (ok tt, with_count w)
  unfolding count_failure
  count-Fits w h = ground (arith, h)

  count_overflows :
      (w : W)
      → host.overflow_checks ≡ true
      → ltb ((cell.get w).failures + 1) (2 ^ 32) ≡ false
      → count_failure host.overflow_checks (cell.get w)
        ≡ (panicked, record (cell.get w) { poisoned = true })
  unfolding count_failure
  count_overflows w c f = ground arith

  Fits-cases :
      (w : W)
      → Fits w
        ⊎ ((host.overflow_checks ≡ true) × (ltb ((cell.get w).failures + 1) (2 ^ 32) ≡ false))
  Fits-cases w = elim (Bool-cases (ltb ((cell.get w).failures + 1) (2 ^ 32))) [
    | inl f ↦ inl (inl (ground arith))
    | inr f ↦ elim (Bool-cases host.overflow_checks) [ inl c ↦ inr (c, f) | inr c ↦ inl (inr c) ]
  ]

module _ {W : Type 0} (host : Host W) (cell : Cell W CircuitState) (b : CircuitBreaker) where
  after_failure_closed :
      (w : W)
      → Fits host cell w
      → leb b.threshold (next_count host cell w) ≡ false
      → after_failure host cell b w ≡ (ok tt, cell.set (with_count host cell w) w)
  unfolding after_failure
  after_failure_closed w h l =
      rw (count-Fits host cell w h, after_failure) (rw (count-Fits host cell w h, l) refl)

  abbrev opened : W → ℕ × W → Ended ⊥ ⊤ × W
  opened w (t, w') =
      (ok tt, cell.set (record (with_count host cell w) { open_until = some (t + b.cooldown) }) w')

  after_failure_opens :
      (w : W)
      → Fits host cell w
      → leb b.threshold (next_count host cell w) ≡ true
      → after_failure host cell b w ≡ opened w (host.now (cell.set (with_count host cell w) w))
  unfolding after_failure
  after_failure_opens w h l =
      rw (count-Fits host cell w h, after_failure) (rw (count-Fits host cell w h, l) refl)

  after_failure_overflows :
      (w : W)
      → host.overflow_checks ≡ true
      → ltb ((cell.get w).failures + 1) (2 ^ 32) ≡ false
      → after_failure host cell b w
        ≡ (panicked, cell.set (record (cell.get w) { poisoned = true }) w)
  unfolding after_failure
  after_failure_overflows w c f =
      rw (count_overflows host cell w c f, after_failure)
        (rw (count_overflows host cell w c f) refl)

module _ {W Resp E : Type 0} (host : Host W) (cell : Cell W CircuitState) (b : CircuitBreaker) where
  -- The state after the loop has ended in the state `w`, by the end of the loop and what the call returns:
  -- a value sets the failures to 0; a refusal and the end of all attempts count one failure; and only the
  -- latter opens the breaker, if the threshold is reached, until the cooldown after the time read then. A panic
  -- passes, a poisoned lock panics, and a count that does not fit panics and poisons the lock.
  pub data Settles (w : W)
      : Ended (MwSvcError E) (Resp ⊎ ℤ) → Ended (MwSvcError E) Resp → W → Type 0 where
    answered :
        {v : Resp}
        → (cell.get w).poisoned ≡ false
        → Settles w (ok (inl v)) (ok v) (cell.set (record (cell.get w) { failures = 0 }) w)
    refused :
        {code : ℤ}
        → (cell.get w).poisoned ≡ false
        → Fits host cell w
        → Settles w (ok (inr code)) (err (chain_failed code)) (cell.set (with_count host cell w) w)
    stays_closed :
        {e : MwSvcError E}
        → (cell.get w).poisoned ≡ false
        → Fits host cell w
        → next_count host cell w < b.threshold
        → Settles w (err e) (err e) (cell.set (with_count host cell w) w)
    opens :
        {e : MwSvcError E} {t : ℕ} {w' : W}
        → (cell.get w).poisoned ≡ false
        → Fits host cell w
        → b.threshold ≤ next_count host cell w
        → host.now (cell.set (with_count host cell w) w) ≡ (t, w')
        → Settles w
            (err e)
            (err e)
            (cell.set (record (with_count host cell w) { open_until = some (t + b.cooldown) }) w')
    unwound : Settles w panicked panicked w
    locked :
        {o : Ended (MwSvcError E) (Resp ⊎ ℤ)}
        → (cell.get w).poisoned ≡ true
        → Settles w o panicked w
    refusal_overflows :
        {code : ℤ}
        → (cell.get w).poisoned ≡ false
        → host.overflow_checks ≡ true
        → 2 ^ 32 ≤ (cell.get w).failures + 1
        → Settles w (ok (inr code)) panicked (cell.set (record (cell.get w) { poisoned = true }) w)
    error_overflows :
        {e : MwSvcError E}
        → (cell.get w).poisoned ≡ false
        → host.overflow_checks ≡ true
        → 2 ^ 32 ≤ (cell.get w).failures + 1
        → Settles w (err e) panicked (cell.set (record (cell.get w) { poisoned = true }) w)

  settled_as :
      {w w' : W} {o : Ended (MwSvcError E) (Resp ⊎ ℤ)} {r : Ended (MwSvcError E) Resp}
      (x : Ended (MwSvcError E) Resp × W)
      → x ≡ (r, w')
      → Settles w o r w'
      → Settles w o x.0 x.1
  settled_as {w} {w'} {o} {r} x e s =
      subst (λ (y : Ended (MwSvcError E) Resp × W). Settles w o y.0 y.1) (sym e) s

  pub succeed-Settles :
      (v : Resp) (w : W) → let (r, w') = succeed host cell b v w in Settles w (ok (inl v)) r w'
  unfolding succeed
  succeed-Settles v w = elim (Bool-cases (cell.get w).poisoned) [
    | inl p ↦ settled_as (succeed host cell b v w) (ground arith) (locked p)
    | inr p ↦ settled_as (succeed host cell b v w) (ground arith) (answered p)
  ]

  pub fail_counted-Settles :
      (code : ℤ) (w : W)
      → let (r, w') = fail_counted host cell b {A = Resp} (chain_failed code) w in
        Settles w (ok (inr code)) r w'
  unfolding fail_counted
  fail_counted-Settles code w =
      let x = fail_counted host cell b {A = Resp} (chain_failed code) w in
      elim (Bool-cases (cell.get w).poisoned) [
        | inl p ↦ settled_as x (ground arith) (locked p)
        | inr p ↦ elim (Fits-cases host cell w) [
          | inl h ↦ settled_as x (rw (count-Fits host cell w h, p) refl) (refused p h)
          | inr (c, f) ↦
              settled_as x (rw (count_overflows host cell w c f, p) refl)
                (refusal_overflows p c (ground arith))
        ]
      ]

  pub fail_opening-Settles :
      (e : MwSvcError E) (w : W)
      → let (r, w') = fail_opening host cell b {A = Resp} e w in Settles w (err e) r w'
  unfolding fail_opening
  fail_opening-Settles e w =
      let x = fail_opening host cell b {A = Resp} e w in
      elim (Bool-cases (cell.get w).poisoned) [
        | inl p ↦ settled_as x (ground arith) (locked p)
        | inr p ↦ elim (Fits-cases host cell w) [
          | inl h ↦ elim (Bool-cases (leb b.threshold (next_count host cell w))) [
            | inl l ↦
                settled_as x (rw (after_failure_opens host cell b w h l, p) refl)
                  (opens p h (ground arith) refl)
            | inr l ↦
                settled_as x (rw (after_failure_closed host cell b w h l, p) refl)
                  (stays_closed p h (ground arith))
          ]
          | inr (c, f) ↦
              settled_as x (rw (after_failure_overflows host cell b w c f, p) refl)
                (error_overflows p c (ground arith))
        ]
      ]
