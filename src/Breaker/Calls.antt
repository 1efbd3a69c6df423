-- ===== src/Breaker/Calls.antt =====
-- One call through the breaker: what it does in each state, and the invariant that calls keep.
use Prim.Native.Nat.{max}
use proc_mw.Common.{
  ℕ, ◌+◌, ◌^◌, ◌≤◌, ◌<◌, ◌≡◌, refl, ◌≢◌, ◌⊎◌, inl, inr, true, false, none, some, leb, if◌then◌else◌,
  arith, Bool-cases, ap, ◌∙◌,
}
use proc_mw.Int.{ℤ}
use proc_mw.Effect.{Ended, ok, err, panicked}
use proc_mw.Cell.{Cell}
use proc_mw.Dispatch.{MwError, rejected, Host}
use proc_mw.Chain
use proc_mw.Chain.{Chain, Core}
use proc_mw.Breaker.{
  CircuitState, CircuitBreaker, closed, before_call, count_failure, open_at, enter_call,
  after_failure, settle, call,
}

-- What calls one after the other keep: the lock is not poisoned, the failures do not exceed the
-- threshold (or one, if that is 0), and while the breaker is not open they stay below it.
pub record IsValid (b : CircuitBreaker) (st : CircuitState) : Type 0 where
  pub unpoisoned : st.poisoned ≡ false
  pub bounded : st.failures ≤ max 1 b.threshold
  pub below : st.open_until ≡ none → (st.failures ≡ 0) ⊎ (st.failures < b.threshold)

module _ {W : Type 0} (host : Host W) (cell : Cell W CircuitState) (b : CircuitBreaker) where
  -- What a failure leaves: one failure more, and the breaker open if this reaches the threshold.
  pub after_failure_lem :
      (w : W)
      → (cell.get w).failures + 1 < 2 ^ 32
      → let s = cell.get w in
        let s' = record s { failures = s.failures + 1 } in
        let (r, w') = after_failure host cell b w in
        (r ≡ ok tt)
        × (cell.get w' ≡ (
            if leb b.threshold s'.failures
            then open_at (host.now (cell.set s' w)).0 b.cooldown s'
            else s'))
  unfolding after_failure count_failure
  after_failure_lem w small = grind (arith, cell.get-set)

  settle-IsValid :
      {E A : Type 0} (r : Ended E A) (w : W)
      → b.threshold < 2 ^ 32
      → IsValid b (cell.get w)
      → (cell.get w).open_until ≡ none
      → IsValid b (cell.get (settle host cell b r w).1) × ((settle host cell b r w).0 ≡ r)
  unfolding settle
  settle-IsValid (ok v) w small h o = grind (arith, cell.get-set)
  settle-IsValid (err e) w small h o =
      let (fine, s) = after_failure_lem w (ground (arith, h.below o)) in grind arith
  settle-IsValid panicked w small h o = (h, refl)

  enter_call-IsValid :
      (w : W)
      → IsValid b (cell.get w)
      → let (runs, w₁) = enter_call host cell b w in
        IsValid b (cell.get w₁) × (runs ≡ true → (cell.get w₁).open_until ≡ none)
  unfolding enter_call before_call
  enter_call-IsValid w h = grind (arith, cell.get-set)

  -- What the end of a call makes of a breaker that is closed with no failure.
  abbrev pub AfterProbe : {E A : Type 0} → Ended E A → CircuitState → Type 0
  AfterProbe (ok _) s = s ≡ closed
  AfterProbe (err _) s =
      (t : ℕ) × (s ≡ (
        if leb b.threshold 1
        then record { failures = 1; open_until = some (t + b.cooldown); poisoned = false }
        else record { failures = 1; open_until = none; poisoned = false }))
  AfterProbe panicked s = s ≡ closed

  settle-AfterProbe :
      {E A : Type 0} (r : Ended E A) (w : W)
      → cell.get w ≡ closed
      → ((settle host cell b r w).0 ≡ r) × AfterProbe r (cell.get (settle host cell b r w).1)
  unfolding settle
  settle-AfterProbe (ok v) w c = grind (arith, cell.get-set)
  settle-AfterProbe (err e) w c =
      let (fine, s) = after_failure_lem w (ground arith) in
      (grind arith, ((host.now (cell.set (record closed { failures = 1 }) w)).0, grind arith))
  settle-AfterProbe panicked w c = (refl, c)

  -- The state in which the chain is executed once the time of an open breaker is over.
  abbrev pub probing : W → W
  probing w = cell.set (record (cell.get w) { failures = 0; open_until = none }) (host.now w).1

  pub enter_call_expired :
      (w : W) (until : ℕ)
      → (cell.get w).open_until ≡ some until
      → until ≤ (host.now w).0
      → enter_call host cell b w ≡ (true, probing w)
  unfolding enter_call before_call
  enter_call_expired w until o late = ground arith

  panics :
      (r : Ended MwError ℤ) (w : W)
      → (settle host cell b r w).0 ≡ r
      → ((settle host cell b r w).0 ≢ panicked) ⊎ (r ≡ panicked)
  panics (ok v) w e = inl (λ p. cc)
  panics (err x) w e = inl (λ p. cc)
  panics panicked w e = inr refl

  module _ (chain : Chain W) (core : Core W) where
    -- The chain and its core do not write the breaker's state.
    abbrev pub ChainApart : Type 0
    ChainApart = (input : ℤ) (w : W) → cell.get (Chain.exec host chain core input w).1 ≡ cell.get w

    -- Let the threshold be a `u32`, and let the chain and its core not write the breaker's state.
    -- Then a call keeps the invariant, and it panics only if the execution of the chain does: in
    -- particular the failure count, a `u32`, does not overflow.
    pub call-IsValid :
        (input : ℤ) (w : W)
        → b.threshold < 2 ^ 32
        → ChainApart
        → IsValid b (cell.get w)
        → let (r, w') = call host cell b chain core input w in
          IsValid b (cell.get w')
          × ((r ≢ panicked)
              ⊎ ((Chain.exec host chain core input (enter_call host cell b w).1).0 ≡ panicked))
    unfolding call
    call-IsValid input w small apart h =
        let (entered, none_open) = enter_call-IsValid w h in
        let (r, w₂) = Chain.exec host chain core input (enter_call host cell b w).1 in
        let same = apart input (enter_call host cell b w).1 in
        elim (Bool-cases (enter_call host cell b w).0) [
          | inl runs ↦
              let (valid, kept) =
                settle-IsValid r w₂ small (rw same entered)
                  (ap (λ (s : CircuitState). s.open_until) same ∙ none_open runs) in
              rw (h.unpoisoned, runs) (valid, panics r w₂ kept)
          | inr refused ↦ rw (h.unpoisoned, refused) (entered, inl (λ p. cc))
        ]

    -- While the breaker is open, its lock not poisoned, the chain is not executed: the request is
    -- refused at once, and the breaker stays open until the same time.
    pub call_open :
        (input : ℤ) (w : W) {until : ℕ}
        → (cell.get w).poisoned ≡ false
        → (cell.get w).open_until ≡ some until
        → (host.now w).0 < until
        → call host cell b chain core input w
          ≡ (err (rejected "circuit open"), cell.set (cell.get w) (host.now w).1)
    unfolding call enter_call before_call
    call_open input w p o early = ground arith

    -- Let the chain and its core not write the breaker's state, whose lock is not poisoned. Then
    -- the call after the time of an open breaker is over executes the chain, and returns its
    -- result. A success closes the breaker, and so does a panic. A failure counts as the first of a
    -- new row of failures: it opens the breaker again only if the threshold is 1 or 0, and with a
    -- greater threshold leaves it closed.
    pub call_half_open :
        (input : ℤ) (w : W) {until : ℕ}
        → ChainApart
        → (cell.get w).poisoned ≡ false
        → (cell.get w).open_until ≡ some until
        → until ≤ (host.now w).0
        → let (r, w₂) = Chain.exec host chain core input (probing w) in
          let (r', w') = call host cell b chain core input w in
          (r' ≡ r) × AfterProbe r (cell.get w')
    unfolding call
    call_half_open input w {until} apart p o late =
        let (r, w₂) = Chain.exec host chain core input (probing w) in
        rw (p, enter_call_expired w until o late)
          (settle-AfterProbe r w₂ (apart input (probing w) ∙ cell.get-set _ _ ∙ ground arith))
