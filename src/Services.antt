-- ===== src/Services.antt =====
-- The services of labs/scales/medium/src/bin. Those with a state of their own around a chain are the shedding of
-- load of s05_load_shed.rs, the limit of concurrency of s02_concurrency_limit.rs, and the breakers of
-- s03_retry_policy.rs and s04_circuit_fallback.rs; Services/Plain has the others.
pub mod LoadShed
pub mod Shedding
pub mod Plain
pub mod Passing
pub mod Retry
pub mod Settling
pub mod Retrying
pub mod Refusals
pub mod Outage
pub mod Limiter
pub mod Slots
mod Tests
mod RetryTests
mod PlainTests
use proc_mw.Common.{ℕ, Option}
use proc_mw.Int.{ℤ}
use proc_mw.Effect.{Ended}

-- `MwSvcError`
pub data MwSvcError (E : Type 0) : Type 0 where
  chain_failed : ℤ → MwSvcError E
  inner_failed : E → MwSvcError E

-- tower's `Service`, as the service makes use of it: a call makes a future, and a poll of the future
-- gives a result, or a panic, or nothing yet.
pub record Service (V Req Fut Resp E : Type 0) : Type 0 where
  pub call : Req → V → Fut × V
  pub poll : Fut → V → Option (Ended E Resp) × Fut × V
