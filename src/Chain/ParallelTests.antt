-- ===== src/Chain/ParallelTests.antt =====
-- Runs of `exec_parallel` of src/chain.rs, and its theorem at two threads.
use proc_mw.Common.{
  ℕ, zero, suc, ◌<◌, ◌≡◌, refl, true, Bool-cases, inl, inr, none, some, List, [], ◌∷◌, length, map,
  arith, if◌then◌else◌,
}
use proc_mw.Int.{pos, negsuc, ltb_ℤ, ◌+ℤ◌}
use proc_mw.Effect.{ok, err, panicked}
use proc_mw.Cell.{whole}
use proc_mw.Metrics.{Counts, zero_counts, metrics}
use proc_mw.Dispatch.{
  halted, rejected, Host, builtin, dyn, cap, enter, enter_builtin, exit, exit_builtin, exit_all,
  enter_all, chain_exec_ctx, chain_exec,
}
use proc_mw.Chain.{Chain, Core, new_chain, exec}
use proc_mw.Schedule.{turns, step_at, run_schedule}
use proc_mw.Chain.Parallel.{step, steps, join_all, exec_parallel}
use proc_mw.Chain.Independence.{AllLocal, exec_parallel-eq-join_all}

-- A chain that counts its requests in the shared state and caps its input, in two threads whose turns alternate.
abbrev counting : Chain Counts
counting = new_chain (dyn (metrics whole) ∷ builtin (cap (pos 50)) ∷ [])

abbrev counting_host : Host Counts
counting_host = record { overflow_checks = true; now = λ w. (0, w) }

abbrev doubling : Core Counts
doubling c w = (if ltb_ℤ c.input (pos 0) then panicked else ok (c.input +ℤ c.input), c, w)

abbrev alternating : List ℕ
alternating = 0 ∷ 1 ∷ 0 ∷ 1 ∷ 0 ∷ 1 ∷ 0 ∷ 1 ∷ 0 ∷ 1 ∷ 1 ∷ 0 ∷ []

parallel_run : Unit {0}
unfolding exec_parallel run_schedule step_at step steps join_all exec chain_exec chain_exec_ctx
    enter_all exit_all enter exit enter_builtin exit_builtin ◌+ℤ◌
parallel_run = tt

parallel_results :
    (exec_parallel counting_host counting doubling (pos 4 ∷ pos 6 ∷ []) alternating zero_counts
      ≡ some (ok (pos 8 ∷ pos 12 ∷ []), record { calls = 2; successes = 2 }))
    × (exec_parallel counting_host counting doubling (pos 4 ∷ negsuc 5 ∷ []) alternating zero_counts
        ≡ some (err (rejected "worker panicked"), record { calls = 2; successes = 1 }))
    × (exec_parallel counting_host counting doubling (pos 4 ∷ []) (0 ∷ []) zero_counts ≡ none)
unfolding parallel_run
parallel_results = (refl, refl, refl)

-- A panic of a thread that is not joined, since a thread before it has failed, leaves `exec_parallel`.
unjoined_panics : join_all (ok (pos 1) ∷ err halted ∷ panicked ∷ []) ≡ panicked
unfolding parallel_run
unjoined_panics = refl

counting-AllLocal : AllLocal (steps counting_host counting doubling)
unfolding parallel_run
counting-AllLocal = (
  (λ c v w. (refl, refl)),
  (
    (λ c v w. (refl, refl)),
    (
      (λ c v w. elim (Bool-cases (ltb_ℤ c.input (pos 0))) [
        | inl e ↦ rw e (refl, refl)
        | inr e ↦ rw e (refl, refl)
      ]),
      ((λ c v w. (refl, refl)), ((λ c v w. (refl, refl)), tt)),
    ),
  ),
)

enough_counting :
    (i : ℕ) → i < 2 → length (steps counting_host counting doubling) < turns alternating i
unfolding parallel_run
enough_counting zero lt = omega arith
enough_counting (suc zero) lt = omega arith
enough_counting (suc (suc i)) lt = absurd (omega arith)

exec_parallel-eq-join_all_example :
    (w' : Counts) × (exec_parallel counting_host counting doubling
        (pos 4 ∷ pos 6 ∷ [])
        alternating
        zero_counts
      ≡ some (
        join_all (
            map
              (λ input. (exec counting_host counting doubling input zero_counts).0)
              (pos 4 ∷ pos 6 ∷ [])),
        w',
      ))
exec_parallel-eq-join_all_example =
    exec_parallel-eq-join_all counting_host counting doubling (pos 4 ∷ pos 6 ∷ []) alternating
      zero_counts zero_counts counting-AllLocal enough_counting
