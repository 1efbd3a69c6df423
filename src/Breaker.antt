-- ===== src/Breaker.antt =====
-- src/circuit_breaker.rs: a breaker around a chain, which refuses requests for a while after a row
-- of failures. `call` takes the lock before the execution of the chain and again after it, and not
-- during it. Times are in nanoseconds; the failure count is a `u32`.
pub mod Opening
pub mod Calls
mod Tests
use proc_mw.Common.{
  ℕ, ◌+◌, ◌%◌, ◌^◌, ⊤, Bool, true, false, Option, none, some, ltb, leb, if◌then◌else◌,
}
use proc_mw.Int.{ℤ}
use proc_mw.Effect.{Ended, ok, err, panicked, Act, Hook}
use proc_mw.Cell.{Cell}
use proc_mw.Dispatch.{MwError, rejected, Host}
use proc_mw.Chain
use proc_mw.Chain.{Chain, Core}
use proc_mw.Opaque
use proc_mw.Opaque.{OpaqueChain, opaque_reject}

-- `CircuitState`, and whether its lock is poisoned.
pub record CircuitState : Type 0 where
  pub failures : ℕ
  pub open_until : Option ℕ
  pub poisoned : Bool

pub record CircuitBreaker : Type 0 where
  pub threshold : ℕ
  pub cooldown : ℕ

-- `new`; `reset` also comes to it
abbrev pub closed : CircuitState
closed = record { failures = 0; open_until = none; poisoned = false }

-- The first block of `call`, given the time where it is read: whether the chain is executed.
unfoldable pub before_call : ℕ → CircuitState → Bool × CircuitState
before_call now st = elim st.open_until [
  | none ↦ (true, st)
  | some until ↦
      if ltb now until then (false, st) else (true, record st { open_until = none; failures = 0 })
]

abbrev pub on_success : CircuitState → CircuitState
on_success st = record st { failures = 0 }

-- `failures += 1`: with overflow checks it panics, under the lock, at the end of the `u32`s.
unfoldable pub count_failure : Bool → CircuitState → Ended ⊥ ⊤ × CircuitState
count_failure checked st =
    if ltb (st.failures + 1) (2 ^ 32)
    then (ok tt, record st { failures = st.failures + 1 })
    else if checked
    then (panicked, record st { poisoned = true })
    else (ok tt, record st { failures = 0 })

abbrev pub open_at : ℕ → ℕ → CircuitState → CircuitState
open_at now cooldown st = record st { open_until = some (now + cooldown) }

module _ {W : Type 0} (host : Host W) (cell : Cell W CircuitState) (b : CircuitBreaker) where
  -- The first block: the clock is read only if the breaker is open.
  unfoldable pub enter_call : W → Bool × W
  enter_call w = elim (cell.get w).open_until [
    | none ↦ (true, w)
    | some _ ↦
        let (now, w') = host.now w in
        let (runs, st) = before_call now (cell.get w) in (runs, cell.set st w')
  ]

  -- The block after a failure: the clock is read only if the threshold is reached.
  unfoldable pub after_failure : W → Ended ⊥ ⊤ × W
  after_failure w =
      let (counted, st) = count_failure host.overflow_checks (cell.get w) in
      elim counted [
        | ok _ ↦
            if leb b.threshold st.failures
            then (let (now, w') = host.now (cell.set st w) in
                (ok tt, cell.set (open_at now b.cooldown st) w'))
            else (ok tt, cell.set st w)
        | err e ↦ absurd e
        | panicked ↦ (panicked, cell.set st w)
      ]

  -- The end of `call`: what the second lock does with the result of the chain.
  unfoldable pub settle : {E A : Type 0} → Ended E A → W → Ended E A × W
  settle (ok v) w =
      if (cell.get w).poisoned then (panicked, w) else (ok v, cell.set (on_success (cell.get w)) w)
  settle (err e) w =
      if (cell.get w).poisoned
      then (panicked, w)
      else let (counted, w') = after_failure w in
        elim counted [ ok _ ↦ (err e, w') | err x ↦ absurd x | panicked ↦ (panicked, w') ]
  settle panicked w = (panicked, w)

  unfoldable pub call : Chain W → Core W → ℤ → W → Ended MwError ℤ × W
  call chain core input w =
      if (cell.get w).poisoned
      then (panicked, w)
      else let (runs, w₁) = enter_call w in
        if runs
        then (let (r, w₂) = Chain.exec host chain core input w₁ in settle r w₂)
        else (err (rejected "circuit open"), w₁)

  unfoldable pub call_opaque : {R O : Type 0} → OpaqueChain W R → Hook W R O → Act W R ℤ O
  call_opaque chain core req w =
      if (cell.get w).poisoned
      then (panicked, req, w)
      else let (runs, w₁) = enter_call w in
        if runs
        then (let (r, req', w₂) = Opaque.exec chain core req w₁ in
            let (r', w₃) = settle r w₂ in (r', req', w₃))
        else (err opaque_reject, req, w₁)

  unfoldable pub reset : W → Ended ⊥ ⊤ × W
  reset w = if (cell.get w).poisoned then (panicked, w) else (ok tt, cell.set closed w)
