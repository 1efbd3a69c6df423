-- ===== src/Metrics/Tests.antt =====
-- The theorems on the counters of src/metrics.rs at concrete requests.
use proc_mw.Common.{◌≡◌, ◌-◌, ◌^◌, refl, true, false, none, some, List, [], ◌∷◌, arith}
use proc_mw.Effect.{ok}
use proc_mw.Dispatch.{
  Host, Node, builtin, reject_negative, Ctx, enter, enter_builtin, exit, exit_all, enter_all,
  chain_exec_ctx, chain_exec,
}
use proc_mw.Metrics.{Counts, zero_counts, errors, reset}
use proc_mw.Metrics.Accounting.{serve}
use proc_mw.Metrics.Race.{Traffic, Reach, idle, here, one_more, errors_between_loads}
use proc_mw.Chain.{Core}

-- A clock that stands still, in a program whose shared state is the counters alone.
abbrev host : Host Counts
host = record { overflow_checks = true; now = λ w. (0, w) }

abbrev guard : List (Node Counts)
guard = builtin reject_negative ∷ []

abbrev core : Core Counts
core c w = (ok c.input, c, w)

run : Unit {0}
unfolding reset serve chain_exec chain_exec_ctx enter_all exit_all enter exit enter_builtin
run = tt

apart : (c : Ctx) (w : Counts) → (chain_exec_ctx host guard core c w).2 ≡ w
unfolding run
apart c w = ground arith

abbrev two_begun : Traffic
two_begun = record { counts = record { calls = 2; successes = 0 }; in_flight = 2; begun = 2 }

abbrev one_done : Traffic
one_done = record { counts = record { calls = 2; successes = 1 }; in_flight = 1; begun = 2 }

abbrev one_done_one_more : Traffic
one_done_one_more = record {
  counts = record { calls = 3; successes = 1 };
  in_flight = 2;
  begun = 3;
}

errors_between_loads_example :
    Reach idle (one_more idle)
    × (errors true zero_counts (record { calls = 1; successes = 1 }) ≡ none)
    × (errors false zero_counts (record { calls = 1; successes = 1 }) ≡ some (2 ^ 64 - 1))
errors_between_loads_example = errors_between_loads idle here refl (omega arith)
