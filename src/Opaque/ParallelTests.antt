-- ===== src/Opaque/ParallelTests.antt =====
-- Runs of `exec_parallel` of src/opaque.rs, and its theorem at two threads.
use proc_mw.Common.{
  ℕ, zero, suc, ◌+◌, ◌*◌, ◌<◌, ◌≡◌, refl, none, some, List, [], ◌∷◌, length, map, arith, ◌==◌,
  if◌then◌else◌,
}
use proc_mw.Int.{pos}
use proc_mw.Effect.{ok, panicked, Hook}
use proc_mw.Cell.{whole}
use proc_mw.Metrics.{Counts, zero_counts, opaque_metrics}
use proc_mw.Schedule.{turns, step_at, run_schedule}
use proc_mw.Opaque.{
  OpaqueChain, OpaqueNode, Verdict, stateful, new_chain, enter, exit, check_code, exec_catch,
}
use proc_mw.Opaque.Parallel.{step, join, exec_parallel}
use proc_mw.Opaque.Independence.{AllLocal, exec_parallel-eq-exec_catch}

-- A chain that counts in the shared state and refuses the request 9, around a core that panics on 7.
abbrev guard : OpaqueNode Counts ℕ
guard = stateful (record {
  enter = λ r w. (ok (if r == 9 then pos 3 else pos 0), r, w);
  exit = λ r w. (ok tt, r, w);
})

abbrev counting : OpaqueChain Counts ℕ
counting = new_chain (stateful (opaque_metrics whole) ∷ guard ∷ [])

abbrev doubling : Hook Counts ℕ ℕ
doubling r w = (if r == 7 then panicked else ok (r * 2), r, w)

abbrev alternating : List ℕ
alternating = 0 ∷ 1 ∷ 2 ∷ 1 ∷ 0 ∷ 2 ∷ 2 ∷ 0 ∷ 1 ∷ 1 ∷ 0 ∷ 0 ∷ 0 ∷ 1 ∷ 2 ∷ 2 ∷ 2 ∷ 1 ∷ []

parallel_results :
    (exec_parallel counting doubling (4 ∷ 7 ∷ 9 ∷ []) alternating zero_counts
      ≡ some (
        Verdict.ok 8 ∷ Verdict.err (pos 2) ∷ Verdict.err (pos 3) ∷ [],
        record { calls = 3; successes = 1 },
      ))
    × (exec_parallel counting doubling (4 ∷ []) (0 ∷ []) zero_counts ≡ none)
unfolding exec_parallel run_schedule step_at step enter exit check_code
parallel_results = (refl, refl)

counting-AllLocal : AllLocal counting.nodes
unfolding enter exit
counting-AllLocal = (
  ((λ r v w. (refl, refl)), (λ r v w. (refl, refl))),
  (((λ r v w. (refl, refl)), (λ r v w. (refl, refl))), tt),
)

enough : (i : ℕ) → i < 3 → 2 * length counting.nodes + 1 < turns alternating i
enough zero lt = omega arith
enough (suc zero) lt = omega arith
enough (suc (suc zero)) lt = omega arith
enough (suc (suc (suc i))) lt = absurd (omega arith)

exec_parallel-eq-exec_catch_example :
    (w' : Counts) × (exec_parallel counting doubling (4 ∷ 7 ∷ 9 ∷ []) alternating zero_counts
      ≡ some (map (λ r. join (exec_catch counting doubling r zero_counts).0) (4 ∷ 7 ∷ 9 ∷ []), w'))
exec_parallel-eq-exec_catch_example =
    exec_parallel-eq-exec_catch counting doubling (4 ∷ 7 ∷ 9 ∷ []) alternating zero_counts
      zero_counts counting-AllLocal (λ r v w. (refl, refl)) enough
