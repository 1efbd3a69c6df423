-- ===== src/Services/Outage.antt =====
-- Rows of failures of s04_circuit_fallback.rs: when its breaker opens, and what it answers then.
use proc_mw.Common.{
  ℕ, ◌+◌, ◌^◌, ◌<◌, ◌≡◌, refl, ap, sym, ◌∙◌, false, none, some, List, [], ◌∷◌, length, ⊤, inl, inr,
  Bool-cases, if◌then◌else◌, leb, arith,
}
use proc_mw.Int.{ℤ}
use proc_mw.Effect.{Ended, ok, err, panicked}
use proc_mw.Cell.{Cell}
use proc_mw.Dispatch.{Host}
use proc_mw.Opaque.{OpaqueChain, exec}
use proc_mw.Breaker.{
  CircuitState, CircuitBreaker, closed, open_at, before_call, enter_call, after_failure, settle,
}
use proc_mw.Breaker.Opening.{failed, enter_call_closed, settle-failed}
use proc_mw.Services.{MwSvcError, chain_failed, inner_failed}
use proc_mw.Services.Retry.{
  succeed, fail_opening, then_fail, after_inner, after_chain, guarded, set_fallback,
  call_or_fallback,
}
use proc_mw.Strings.{Text}

module _ {W Req E : Type 0} (host : Host W) (cell : Cell W CircuitState) (b : CircuitBreaker)
    (inner : Req → W → Ended E Text × W) (chain : OpaqueChain W Req) (fallback : Cell W Text) where
  -- The chain and the inner service, without the breaker
  abbrev pub served : Ended E Text × W → Ended (MwSvcError E) Text × W
  served (ok v, w) = (ok v, w)
  served (err e, w) = (err (inner_failed e), w)
  served (panicked, w) = (panicked, w)

  abbrev pub passed : Ended ℤ (Unit {0}) × Req × W → Ended (MwSvcError E) Text × W
  passed (ok _, req, w) = served (inner req w)
  passed (err code, req, w) = (err (chain_failed code), w)
  passed (panicked, req, w) = (panicked, w)

  abbrev pub unguarded : Req → W → Ended (MwSvcError E) Text × W
  unguarded req w = passed (exec chain (λ r v. (ok tt, r, v)) req w)

  abbrev pub settled : Ended (MwSvcError E) Text × W → Ended (MwSvcError E) Text × W
  settled (r, w) = settle host cell b r w

  fail_opening-settle :
      (e : MwSvcError E) (w : W)
      → fail_opening host cell b {A = Text} e w ≡ settle host cell b (err e) w
  unfolding settle fail_opening
  fail_opening-settle e w = elim (Bool-cases (cell.get w).poisoned) [
    | inl p ↦ rw p refl
    | inr p ↦ rw p (by_count (after_failure host cell b w))
  ]
    where
      by_count :
          (o : Ended ⊥ ⊤ × W)
          → then_fail host cell b {A = Text} e o
            ≡ elim o.0 [ ok _ ↦ (err e, o.1) | err x ↦ absurd x | panicked ↦ (panicked, o.1) ]
      by_count (ok u, w') = refl
      by_count (err x, w') = absurd x
      by_count (panicked, w') = refl

  settled-served :
      (o : Ended E Text × W)
      → after_inner host cell b inner chain (λ e. fail_opening host cell b (inner_failed e)) o
        ≡ settled (served o)
  unfolding settle succeed
  settled-served (ok v, w) = refl
  settled-served (err e, w) = fail_opening-settle (inner_failed e) w
  settled-served (panicked, w) = refl

  settled-passed :
      (o : Ended ℤ (Unit {0}) × Req × W)
      → after_chain host cell b inner chain
          (λ code. fail_opening host cell b (chain_failed code))
          (λ e. fail_opening host cell b (inner_failed e))
          o
        ≡ settled (passed o)
  unfolding settle
  settled-passed (ok u, req, w) = settled-served (inner req w)
  settled-passed (err code, req, w) = fail_opening-settle (chain_failed code) w
  settled-passed (panicked, req, w) = refl

  -- A call that the breaker lets through
  pub call_or_fallback-settled :
      (req : Req) (w : W)
      → (cell.get w).poisoned ≡ false
      → (cell.get w).open_until ≡ none
      → call_or_fallback host cell b inner chain fallback req w ≡ settled (unguarded req w)
  unfolding call_or_fallback guarded
  call_or_fallback-settled req w p o =
      rw (p, enter_call_closed host cell b w o)
        (settled-passed (exec chain (λ r v. (ok tt, r, v)) req w))

  -- Every request fails, by the chain or by the inner service, and neither writes the breaker's state.
  abbrev pub AlwaysFails : Type 0
  AlwaysFails =
      (req : Req) (w : W)
      → (e : MwSvcError E) × (w' : W) × (unguarded req w ≡ (err e, w')) × (cell.get w' ≡ cell.get w)

  -- Calls one after the other
  unfoldable pub calls : List Req → W → W
  calls [] w = w
  calls (req ∷ reqs) w = calls reqs (call_or_fallback host cell b inner chain fallback req w).1

  -- The time that the breaker reads after a failure that is the `k + 1`th, with the failure counted
  abbrev pub time_after : ℕ → Req → W → ℕ
  time_after k req w = (host.now (cell.set (failed (k + 1)) (unguarded req w).1)).0

  call-failed :
      (req : Req) (k : ℕ) (w : W)
      → AlwaysFails
      → k + 1 < 2 ^ 32
      → cell.get w ≡ failed k
      → cell.get (call_or_fallback host cell b inner chain fallback req w).1 ≡ (
          if leb b.threshold (k + 1)
          then open_at (time_after k req w) b.cooldown (failed (k + 1))
          else failed (k + 1))
  call-failed req k w fails small c =
      let (e, w', fails_e, same) = fails req w in
      ap (λ (o : Ended (MwSvcError E) Text × W). cell.get o.1)
        (call_or_fallback-settled req w (ap (λ (s : CircuitState). s.poisoned) c)
            (ap (λ (s : CircuitState). s.open_until) c)
          ∙ ap settled fails_e)
      ∙ settle-failed host cell b Text e k w' small (same ∙ c)
      ∙ ap
          (λ (o : Ended (MwSvcError E) Text × W).
            if leb b.threshold (k + 1)
            then open_at (host.now (cell.set (failed (k + 1)) o.1)).0 b.cooldown (failed (k + 1))
            else failed (k + 1))
          (sym fails_e)

  calls_closed :
      (reqs : List Req) (k : ℕ) (w : W)
      → AlwaysFails
      → k + length reqs < b.threshold
      → b.threshold < 2 ^ 32
      → cell.get w ≡ failed k
      → cell.get (calls reqs w) ≡ failed (k + length reqs)
  unfolding calls
  calls_closed [] k w fails below small c = c ∙ ap failed (omega arith)
  calls_closed (req ∷ reqs) k w fails below small c =
      let s = call-failed req k w fails (omega arith) c in
      calls_closed reqs (k + 1) (call_or_fallback host cell b inner chain fallback req w).1 fails
        (omega arith) small (s ∙ ground arith)
      ∙ ap failed (omega arith)

  -- The lock of the fallback is not part of the breaker's state nor of the clock.
  pub record Apart : Type 0 where
    pub get-set_fallback : (s : Text) (w : W) → cell.get (fallback.set s w) ≡ cell.get w
    pub fallback-now : (w : W) → fallback.get (host.now w).1 ≡ fallback.get w
    pub fallback-set : (st : CircuitState) (w : W) → fallback.get (cell.set st w) ≡ fallback.get w

  enter_call_open :
      (w : W) (until : ℕ)
      → (cell.get w).open_until ≡ some until
      → (host.now w).0 < until
      → enter_call host cell b w ≡ (false, cell.set (cell.get w) (host.now w).1)
  unfolding enter_call before_call
  enter_call_open w until o early = ground arith

  -- While the breaker is open, a call is answered with the fallback that has been set last.
  pub open-set_fallback :
      (s : Text) (req : Req) (w : W) (until : ℕ)
      → Apart
      → (cell.get w).poisoned ≡ false
      → (cell.get w).open_until ≡ some until
      → (host.now (set_fallback host cell b fallback s w)).0 < until
      → (call_or_fallback host cell b inner chain fallback req
          (set_fallback host cell b fallback s w)).0
        ≡ ok s
  unfolding call_or_fallback guarded set_fallback
  open-set_fallback s req w until apart p o early =
      let same = apart.get-set_fallback s w in
      rw
        (
          ap (λ (u : CircuitState). u.poisoned) same ∙ p,
          enter_call_open (fallback.set s w) until
              (ap (λ (u : CircuitState). u.open_until) same ∙ o) early,
        )
        (ap (λ (v : Text). ok v)
          (apart.fallback-set (cell.get (fallback.set s w)) (host.now (fallback.set s w)).1
            ∙ apart.fallback-now (fallback.set s w)
            ∙ fallback.get-set s w))

  -- Let every request fail, by the chain or by the inner service, without writing the breaker's state; let the
  -- threshold be a `u32` other than 0, and the fallback apart from the breaker's state and the clock. Then a
  -- closed breaker with no failure is open after a row of calls of the threshold's number, until the cooldown
  -- after the time that the clock shows in the last of them, behind its chain and inner service and with its
  -- failure counted; and whatever is set as the fallback then, the calls before the end of that cooldown
  -- answer with it.
  pub outage :
      (reqs : List Req) (req : Req) (w : W)
      → AlwaysFails
      → Apart
      → length reqs + 1 ≡ b.threshold
      → b.threshold < 2 ^ 32
      → cell.get w ≡ closed
      → let w₁ = calls reqs w in
        let w' = (call_or_fallback host cell b inner chain fallback req w₁).1 in
        let until = time_after (length reqs) req w₁ + b.cooldown in
        (cell.get w' ≡ record { failures = b.threshold; open_until = some until; poisoned = false })
        × ((s : Text) (next : Req)
            → (host.now (set_fallback host cell b fallback s w')).0 < until
            → (call_or_fallback host cell b inner chain fallback next
                (set_fallback host cell b fallback s w')).0
              ≡ ok s)
  outage reqs req w fails apart row small c =
      let w₁ = calls reqs w in
      let before : cell.get w₁ ≡ failed (length reqs) =
        calls_closed reqs 0 w fails (omega arith) small c ∙ ap failed (omega arith) in
      let w' = (call_or_fallback host cell b inner chain fallback req w₁).1 in
      let t = time_after (length reqs) req w₁ in
      let opened : cell.get w' ≡ open_at t b.cooldown (failed b.threshold) =
        call-failed req (length reqs) w₁ fails (omega arith) before ∙ ground arith in
      (
        opened,
        λ text next.
            open-set_fallback text next w' (t + b.cooldown) apart
              (ap (λ (u : CircuitState). u.poisoned) opened)
              (ap (λ (u : CircuitState). u.open_until) opened),
      )
