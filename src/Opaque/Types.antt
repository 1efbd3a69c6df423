-- ===== src/Opaque/Types.antt =====
-- The types of src/opaque.rs, over a request type `R`.
use proc_mw.Common.{ℕ, ⊤, Option, List}
use proc_mw.Int.{ℤ, pos}
use proc_mw.Effect.{Hook}

abbrev pub opaque_continue : ℤ
opaque_continue = pos 0

abbrev pub opaque_break : ℤ
opaque_break = pos 1

abbrev pub opaque_reject : ℤ
opaque_reject = pos 2

-- `trait OpaqueMw`, as the behaviour of one object behind an `Arc`.
pub record OpaqueMw (W R : Type 0) : Type 0 where
  pub enter : Hook W R ℤ
  pub exit : Hook W R ⊤

pub data OpaqueBuiltin : Type 0 where
  continue break reject : OpaqueBuiltin

-- `enter` of `OpaqueBuiltin`
abbrev pub code_of : OpaqueBuiltin → ℤ
code_of continue = opaque_continue
code_of break = opaque_break
code_of reject = opaque_reject

-- A pair of foreign functions and the handle that keeps their library loaded. By its contract a
-- plugin does not panic.
pub record ThinNode (W R : Type 0) : Type 0 where
  pub enter : R → W → ℤ × R × W
  pub exit : Option (R → W → R × W)
  pub keepalive : ℕ

pub data OpaqueNode (W R : Type 0) : Type 0 where
  thin : ThinNode W R → OpaqueNode W R
  stateful : OpaqueMw W R → OpaqueNode W R

pub record OpaqueChain (W R : Type 0) : Type 0 where
  pub nodes : List (OpaqueNode W R)

-- `trait HasDeadline` and `trait HasTrace`
pub record HasDeadline (R : Type 0) : Type 0 where
  pub deadline_ms : R → ℕ

pub record HasTrace (R : Type 0) : Type 0 where
  pub trace_id : R → ℕ
  pub set_trace_id : ℕ → R → R

-- The `Result` that a fallible core returns.
pub data Verdict (O E : Type 0) : Type 0 where
  ok : O → Verdict O E
  err : E → Verdict O E

pub data FallibleError (E : Type 0) : Type 0 where
  chain_failed : ℤ → FallibleError E
  core_failed : E → FallibleError E
