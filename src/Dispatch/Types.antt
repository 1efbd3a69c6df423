-- ===== src/Dispatch/Types.antt =====
-- The types of src/dispatch.rs.
use proc_mw.Common.{ℕ, ⊤, Bool, Option, none, some, String}
use proc_mw.Int.{ℤ, pos}
use proc_mw.Effect.{Act, Hook}

-- An `Instant` is a number of nanoseconds from some start.
pub record Ctx : Type 0 where
  pub input : ℤ
  pub output : ℤ
  pub deadline : Option ℕ
  pub trace_id : Option ℕ

-- `Ctx::new`, `Ctx::with_deadline` and `Ctx::with_trace`
abbrev pub new_ctx : ℤ → Ctx
new_ctx input = record { input = input; output = pos 0; deadline = none; trace_id = none }

abbrev pub ctx_with_deadline : ℤ → ℕ → Ctx
ctx_with_deadline input deadline = record {
  input = input;
  output = pos 0;
  deadline = some deadline;
  trace_id = none;
}

abbrev pub ctx_with_trace : ℤ → ℕ → Ctx
ctx_with_trace input trace_id = record {
  input = input;
  output = pos 0;
  deadline = none;
  trace_id = some trace_id;
}

pub data Flow : Type 0 where
  continue break : Flow

pub data MwError : Type 0 where
  halted : MwError
  rejected : String → MwError
  timeout : MwError

-- `impl Display for MwError`
pub display : MwError → String
display halted = "chain halted"
display (rejected why) = Prim.Native.String.◌++◌ "rejected: " why
display timeout = "deadline exceeded"

-- What the program asks of its build and of its platform: whether overflow checks are compiled in,
-- and `Instant::now`, which may read another time at the next call.
pub record Host (W : Type 0) : Type 0 where
  pub overflow_checks : Bool
  pub now : W → ℕ × W

-- `trait Mw`, as the behaviour of one object behind an `Arc`.
pub record Mw (W : Type 0) : Type 0 where
  pub enter : Act W Ctx MwError Flow
  pub exit : Hook W Ctx ⊤

pub data Builtin : Type 0 where
  add cap : ℤ → Builtin
  reject_negative deadline_check : Builtin
  trace_init : ℕ → Builtin

-- A plugin's functions work on the two numbers in place, and return a code. By its contract a
-- plugin does not panic (a panic would end the process). `keepalive` names the library it is in.
pub record ExternNode (W : Type 0) : Type 0 where
  pub enter : ℤ → ℤ → W → ℤ × ℤ × ℤ × W
  pub exit : Option (ℤ → W → ℤ × W)
  pub keepalive : ℕ

pub data Node (W : Type 0) : Type 0 where
  builtin : Builtin → Node W
  fn_ptr : Act W Ctx MwError Flow → Node W
  extern : ExternNode W → Node W
  dyn : Mw W → Node W
