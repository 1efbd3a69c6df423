-- ===== src/Async/Erased/ParallelTests.antt =====
-- Runs of `exec_parallel` of src/async_opaque.rs, and its theorem at two threads.
use proc_mw.Common.{
  ℕ, ◌+◌, ◌*◌, ◌≡◌, refl, Bool, true, false, none, some, List, [], ◌∷◌, ◌==◌, if◌then◌else◌,
}
use proc_mw.Int.{pos}
use proc_mw.Effect.{ok, panicked, Hook}
use proc_mw.Cell.{whole}
use proc_mw.Metrics.{Counts, zero_counts, opaque_metrics}
use proc_mw.Schedule.{step_at, run_schedule}
use proc_mw.Opaque
use proc_mw.Opaque.{OpaqueNode, Verdict, stateful}
use proc_mw.Opaque.Parallel
use proc_mw.Async.{ready, pending}
use proc_mw.Async.Erased.{
  OpaqueAsyncMw, OpaqueAsyncNode, OpaqueAsyncChain, async, sync, new_chain, first_poll, stage, exit,
}
use proc_mw.Async.Erased.Parallel.{step, exec_parallel}
use proc_mw.Async.Erased.InStep.{exec_parallel-eq-sync}

abbrev metrics : OpaqueNode Counts ℕ
metrics = stateful (opaque_metrics whole)

-- A node that waits once, and then adds 1 to the request
abbrev slow : OpaqueAsyncMw Counts ℕ Bool
slow = record {
  call = λ r w. (ok false, r, w);
  poll = λ p r w. elim p [ true ↦ (ready (ok (pos 0)), r + 1, w) | false ↦ (pending true, r, w) ];
  exit = λ r w. (ok tt, r, w);
}

abbrev nodes : List (OpaqueAsyncNode Counts ℕ Bool)
nodes = sync metrics ∷ async slow ∷ []

abbrev doubling : Hook Counts ℕ ℕ
doubling r w = (if r == 8 then panicked else ok (r * 2), r, w)

abbrev alternating : List ℕ
alternating = 0 ∷ 1 ∷ 1 ∷ 0 ∷ 0 ∷ 1 ∷ 1 ∷ 0 ∷ 0 ∷ 0 ∷ 0 ∷ 1 ∷ []

-- The second request panics behind the wait; with fewer turns there is no result.
parallel_run :
    (exec_parallel (new_chain nodes) doubling (4 ∷ 7 ∷ []) alternating zero_counts
      ≡ some (Verdict.ok 10 ∷ Verdict.err (pos 2) ∷ [], record { calls = 2; successes = 1 }))
    × (exec_parallel (new_chain nodes) doubling (4 ∷ []) (0 ∷ 0 ∷ []) zero_counts ≡ none)
unfolding exec_parallel run_schedule step_at step stage first_poll exit Opaque.enter Opaque.exit
    Opaque.check_code
parallel_run = (refl, refl)

abbrev counting : OpaqueAsyncChain Counts ℕ Bool
counting = new_chain (sync metrics ∷ [])

exec_parallel-eq-sync_example :
    exec_parallel counting doubling (4 ∷ 7 ∷ []) alternating zero_counts
    ≡ Parallel.exec_parallel
        (Opaque.new_chain (metrics ∷ []))
        doubling
        (4 ∷ 7 ∷ [])
        alternating
        zero_counts
exec_parallel-eq-sync_example =
    exec_parallel-eq-sync Bool (Opaque.new_chain (metrics ∷ [])) doubling (4 ∷ 7 ∷ []) alternating
      zero_counts
