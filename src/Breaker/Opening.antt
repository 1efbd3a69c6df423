-- ===== src/Breaker/Opening.antt =====
-- Rows of failures: when the breaker opens, and that it lets several requests probe.
use proc_mw.Common.{
  ℕ, ◌+◌, ◌^◌, ◌≤◌, ◌<◌, ◌≡◌, refl, ap, ◌∙◌, Bool, true, false, none, some, List, [], ◌∷◌, length,
  leb, if◌then◌else◌, arith,
}
use proc_mw.Int.{ℤ}
use proc_mw.Effect.{err}
use proc_mw.Cell.{Cell}
use proc_mw.Dispatch.{MwError, Host}
use proc_mw.Chain
use proc_mw.Chain.{Chain, Core}
use proc_mw.Breaker.{CircuitState, CircuitBreaker, closed, open_at, enter_call, settle, call}
use proc_mw.Breaker.Calls.{after_failure_lem, ChainApart, probing, enter_call_expired}

-- A closed breaker with this many failures.
abbrev pub failed : ℕ → CircuitState
failed k = record { failures = k; open_until = none; poisoned = false }

module _ {W : Type 0} (host : Host W) (cell : Cell W CircuitState) (b : CircuitBreaker) where
  pub enter_call_closed :
      (w : W) → (cell.get w).open_until ≡ none → enter_call host cell b w ≡ (true, w)
  unfolding enter_call
  enter_call_closed w o = ground arith

  pub settle-failed :
      {E : Type 0} (A : Type 0) (e : E) (k : ℕ) (w : W)
      → k + 1 < 2 ^ 32
      → cell.get w ≡ failed k
      → cell.get (settle host cell b {A = A} (err e) w).1 ≡ (
          if leb b.threshold (k + 1)
          then open_at (host.now (cell.set (failed (k + 1)) w)).0 b.cooldown (failed (k + 1))
          else failed (k + 1))
  unfolding settle
  settle-failed A e k w small c =
      let (fine, s) = after_failure_lem host cell b w (ground arith) in
      rw (ap (λ (u : CircuitState). u.poisoned) c, fine) (s ∙ rw c)

module _ {W : Type 0} (host : Host W) (cell : Cell W CircuitState) (b : CircuitBreaker)
    (chain : Chain W) (core : Core W) where
  -- Calls one after the other.
  unfoldable pub calls : List ℤ → W → W
  calls [] w = w
  calls (input ∷ inputs) w = calls inputs (call host cell b chain core input w).1

  -- Every execution of the chain returns an error.
  abbrev pub AlwaysFails : Type 0
  AlwaysFails =
      (input : ℤ) (w : W) → (e : MwError) × ((Chain.exec host chain core input w).0 ≡ err e)

  call-failed :
      (input : ℤ) (k : ℕ) (w : W)
      → ChainApart host cell b chain core
      → AlwaysFails
      → k + 1 < 2 ^ 32
      → cell.get w ≡ failed k
      → (t : ℕ) × (cell.get (call host cell b chain core input w).1 ≡ (
          if leb b.threshold (k + 1)
          then open_at t b.cooldown (failed (k + 1))
          else failed (k + 1)))
  unfolding call
  call-failed input k w apart fails small c =
      let (e, failed_e) = fails input w in
      let w₁ = (Chain.exec host chain core input w).1 in
      (
        (host.now (cell.set (failed (k + 1)) w₁)).0,
        rw
            (
              ap (λ (s : CircuitState). s.poisoned) c,
              enter_call_closed host cell b w (ap (λ (s : CircuitState). s.open_until) c),
              failed_e,
            )
            (settle-failed host cell b ℤ e k w₁ small (apart input w ∙ c)),
      )

  -- The requests before the last one of a row leave the breaker closed, and count as failures.
  calls_closed :
      (inputs : List ℤ) (k : ℕ) (w : W)
      → ChainApart host cell b chain core
      → AlwaysFails
      → k + length inputs < b.threshold
      → b.threshold < 2 ^ 32
      → cell.get w ≡ failed k
      → cell.get (calls inputs w) ≡ failed (k + length inputs)
  unfolding calls
  calls_closed [] k w apart fails below small c = c ∙ ground arith
  calls_closed (input ∷ inputs) k w apart fails below small c =
      let (t, s) = call-failed input k w apart fails (omega arith) c in
      let c' : cell.get (call host cell b chain core input w).1 ≡ failed (k + 1) =
        s ∙ ground arith in
      calls_closed inputs (k + 1) (call host cell b chain core input w).1 apart fails (omega arith)
        small c'
      ∙ ap failed (omega arith)

  -- Let every execution of the chain return an error and not write the breaker's state, and let the
  -- threshold be a `u32` other than 0. Then a closed breaker with no failure is closed, with the
  -- failures counted, after each row of requests that is one shorter than the threshold, and the
  -- next request opens it: until the cooldown after a time that is read then.
  pub opens_at_threshold :
      (inputs : List ℤ) (input : ℤ) (w : W)
      → ChainApart host cell b chain core
      → AlwaysFails
      → length inputs + 1 ≡ b.threshold
      → b.threshold < 2 ^ 32
      → cell.get w ≡ closed
      → (cell.get (calls inputs w) ≡ failed (length inputs))
        × ((t : ℕ) × (cell.get (call host cell b chain core input (calls inputs w)).1
              ≡ open_at t b.cooldown (failed b.threshold)))
  opens_at_threshold inputs input w apart fails row small c =
      let before : cell.get (calls inputs w) ≡ failed (length inputs) =
        calls_closed inputs 0 w apart fails (omega arith) small c ∙ ap failed (omega arith) in
      let (t, s) =
        call-failed input (length inputs) (calls inputs w) apart fails (omega arith) before in
      (before, (t, s ∙ ground arith))

-- Once the time of an open breaker is over and the first block of `call` has let a request through
-- as a probe, that block lets the next request through as well, before the first has come back: the
-- breaker is closed meanwhile.
pub probe_is_not_alone :
    {W : Type 0} (host : Host W) (cell : Cell W CircuitState) (b : CircuitBreaker) (w : W)
    (until : ℕ)
    → (cell.get w).open_until ≡ some until
    → until ≤ (host.now w).0
    → let (first, w₁) = enter_call host cell b w in
      let (second, w₂) = enter_call host cell b w₁ in (first ≡ true) × (second ≡ true) × (w₂ ≡ w₁)
probe_is_not_alone {W} host cell b w until o late =
    let shut =
      cell.get-set (record (cell.get w) { failures = 0; open_until = none }) (host.now w).1 in
    let again =
      enter_call_closed host cell b (probing host cell b w)
        (ap (λ (s : CircuitState). s.open_until) shut) in
    rw (enter_call_expired host cell b w until o late)
      (refl, ap (λ (r : Bool × W). r.0) again, ap (λ (r : Bool × W). r.1) again)
