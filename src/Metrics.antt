-- ===== src/Metrics.antt =====
-- src/metrics.rs, and `OpaqueMetrics` of src/opaque_gov.rs, which is the same over any request:
-- two atomic counters of type `usize`, here of 64 bits.
pub mod Accounting
pub mod Race
mod Tests
use proc_mw.Common.{ℕ, ◌+◌, ◌-◌, ◌%◌, ◌^◌, ⊤, Bool, Option, none, some, leb, if◌then◌else◌}
use proc_mw.Effect.{ok, Hook, Act}
use proc_mw.Cell.{Cell, modify}
use proc_mw.Dispatch.{Ctx, Flow, continue, MwError, Mw}
use proc_mw.Opaque.{OpaqueMw, opaque_continue}

pub record Counts : Type 0 where
  pub calls : ℕ
  pub successes : ℕ

abbrev pub usize : ℕ → ℕ
usize n = n % 2 ^ 64

-- `Metrics::new` and `reset`
abbrev pub zero_counts : Counts
zero_counts = record { calls = 0; successes = 0 }

-- `fetch_add(1)`, which wraps around
abbrev pub count_call : Counts → Counts
count_call s = record s { calls = usize (s.calls + 1) }

abbrev pub count_success : Counts → Counts
count_success s = record s { successes = usize (s.successes + 1) }

-- `errors`: the two loads are one after the other, and other threads may count between them, so that
-- `s` is what the first one reads and `s'` what the second one does. The subtraction panics on underflow
-- where overflow checks are compiled in, and wraps otherwise.
unfoldable pub errors : Bool → Counts → Counts → Option ℕ
errors checked s s' =
    if leb s'.successes s.calls
    then some (s.calls - s'.successes)
    else if checked
    then none
    else some (usize (s.calls + 2 ^ 64 - s'.successes))

module _ {W : Type 0} (cell : Cell W Counts) where
  unfoldable pub reset : W → W
  reset w = cell.set zero_counts w

  -- `impl Mw for Metrics`
  abbrev pub metrics : Mw W
  metrics = record {
    enter = λ c w. (ok continue, c, modify cell count_call w);
    exit = λ c w. (ok tt, c, modify cell count_success w);
  }

  -- `impl OpaqueMw for OpaqueMetrics`
  abbrev pub opaque_metrics : {R : Type 0} → OpaqueMw W R
  opaque_metrics = record {
    enter = λ r w. (ok opaque_continue, r, modify cell count_call w);
    exit = λ r w. (ok tt, r, modify cell count_success w);
  }
