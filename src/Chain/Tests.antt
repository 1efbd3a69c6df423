-- ===== src/Chain/Tests.antt =====
-- Runs of the chains of src/chain.rs, and its theorems at concrete chains and requests.
use proc_mw.Common.{ℕ, ◌+◌, ◌≡◌, refl, true, [], ◌∷◌, ltb, if◌then◌else◌}
use proc_mw.Int.{ℤ, pos, ◌+ℤ◌, add_i32, wrap}
use proc_mw.Effect.{ok, err, panicked}
use proc_mw.Dispatch.{
  halted, rejected, Host, Node, builtin, add, cap, reject_negative, enter, enter_builtin, exit,
  exit_all, enter_all, chain_exec_ctx, chain_exec,
}
use proc_mw.Chain.{
  Chain, Core, new_chain, remove, set_node, exec, exec_or, exec_catch, retry_from, exec_retry,
}
use proc_mw.Chain.Retrying.{attempt, exec_retry-Retried}
use proc_mw.Retry.{Retried}

abbrev host : Host ℕ
host = record { overflow_checks = true; now = λ w. (w, w + 1) }

abbrev plus : ℤ → Node ℕ
plus k = builtin (add k)

abbrev guarded : Chain ℕ
guarded = new_chain (plus (pos 5) ∷ builtin reject_negative ∷ builtin (cap (pos 50)) ∷ [])

-- A core that fails until the shared state has reached 2.
abbrev flaky : Core ℕ
flaky c w = if ltb w 2 then (err (rejected "downstream"), c, w + 1) else (ok c.input, c, w + 1)

abbrev explosive : Core ℕ
explosive c w = (panicked, c, w + 1)

run : Unit {0}
unfolding exec exec_or exec_catch retry_from exec_retry remove set_node chain_exec chain_exec_ctx
    enter_all exit_all enter exit enter_builtin add_i32 ◌+ℤ◌ wrap
run = tt

results :
    (exec_retry host guarded flaky (pos 1) 2 0 ≡ (err (rejected "downstream"), 2))
    × (exec_retry host guarded flaky (pos 1) 3 0 ≡ (ok (pos 6), 3))
    × (exec_retry host guarded flaky (pos 1) 0 0 ≡ (err halted, 0))
    × (exec_catch host guarded explosive (pos 1) 0 ≡ (err (rejected "core panicked"), 1))
    × (exec_or host guarded explosive (pos 1) (λ x w. (ok x, w)) 0 ≡ (panicked, 1))
unfolding run
results = (refl, refl, refl, refl, refl)

exec_retry-Retried_example :
    Retried
      (attempt host guarded flaky (pos 1))
      halted
      3
      0
      (exec_retry host guarded flaky (pos 1) 3 0)
exec_retry-Retried_example = exec_retry-Retried host guarded flaky (pos 1) 3 0
