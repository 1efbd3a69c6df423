-- ===== src/Async/Erased/Tests.antt =====
-- The theorems on the chains of src/async_opaque.rs at concrete chains, over a request of one number.
-- The shared state is the time, in nanoseconds, and a task that waits is woken after one.
use proc_mw.Common.{ℕ, suc, ◌+◌, ◌≤◌, ◌≡◌, refl, ◌⊎◌, Bool, true, false, some, [], ◌∷◌, arith}
use proc_mw.Int.{ℤ, pos}
use proc_mw.Effect.{Ended, ok, err, panicked, Hook}
use proc_mw.Dispatch.{Host}
use proc_mw.Opaque
use proc_mw.Opaque.{OpaqueNode, stateful, OpaqueMw, HasDeadline, HasTrace, Verdict}
use proc_mw.Async.{ready, pending, Poller, block_on}
use proc_mw.Async.Race.{
  TimeoutError, timeout, unstarted, or_timer, new_timer, poll_timer, with_timeout,
}
use proc_mw.Async.Race.Deadline.{IsClock}
use proc_mw.Async.Race.Kept.{Passes}
use proc_mw.Async.Erased.Timely.{NodePasses, NodesPass}
use proc_mw.Async.Erased.{
  OpaqueAsyncMw, sync, async, OpaqueAsyncChain, new_chain, first_poll, exec, exec_fallible, exec_or,
  exec_catch, exec_with_trace, exec_with_deadline, exec_retry, exec_timeout_rollback,
  exec_retry_timeout,
}
use proc_mw.Async.Erased.Agreement.{exec-eq-sync}
use proc_mw.Async.Erased.Modes.{modes_agree}
use proc_mw.Async.Erased.Patience.{exec_timeout_rollback_lem, exec_retry_timeout_ends}

abbrev host : Host ℕ
host = record { overflow_checks = true; now = λ w. (w, w) }

host-IsClock : IsClock host suc (λ w. w)
host-IsClock = record { shows = λ w. refl; reads = λ w. omega arith; waits = λ w. omega arith }

-- A node that waits once, and then adds 1 to the request; on the way out it adds 10.
abbrev slow : OpaqueAsyncMw ℕ ℕ Bool
slow = record {
  call = λ r w. (ok false, r, w);
  poll = λ p r w. elim p [ true ↦ (ready (ok (pos 0)), r + 1, w) | false ↦ (pending true, r, w) ];
  exit = λ r w. (ok tt, r + 10, w);
}

-- The same without `await`, where the wait is a call that takes a nanosecond.
abbrev blocking : OpaqueMw ℕ ℕ
blocking = record { enter = λ r w. (ok (pos 0), r + 1, suc w); exit = λ r w. (ok tt, r + 10, w) }

abbrev pass : OpaqueNode ℕ ℕ
pass = stateful (record { enter = λ r w. (ok (pos 0), r, w); exit = λ r w. (ok tt, r, w) })

abbrev core : Hook ℕ ℕ ℕ
core r w = (ok r, r + 100, w)

abbrev deciding : Hook ℕ ℕ (Verdict ℕ Bool)
deciding r w = (ok (Verdict.err true), r, w)

abbrev ignored_trace : HasTrace ℕ
ignored_trace = record { trace_id = λ r. r; set_trace_id = λ t r. t }

abbrev own_deadline : HasDeadline ℕ
own_deadline = record { deadline_ms = λ r. r }

exec-eq-sync_example :
    exec suc 3 (new_chain (async slow ∷ sync pass ∷ [])) core 5 0
    ≡ some (Opaque.exec (Opaque.new_chain (stateful blocking ∷ pass ∷ [])) core 5 0)
unfolding first_poll block_on
exec-eq-sync_example =
    exec-eq-sync suc 1 3 (async slow ∷ sync pass ∷ []) (stateful blocking ∷ pass ∷ []) core 5 0
      (((λ r w. refl), refl), (refl, tt)) (omega arith)

abbrev chain : OpaqueAsyncChain ℕ ℕ Bool
chain = new_chain (async slow ∷ [])

abbrev plain : Opaque.OpaqueChain ℕ ℕ
plain = Opaque.new_chain (stateful blocking ∷ [])

modes_agree_example :
    (exec_fallible suc 2 chain deciding 5 0 ≡ some (Opaque.exec_fallible plain deciding 5 0))
    × (exec_or suc 2 chain core core 5 0 ≡ some (Opaque.exec_or plain core core 5 0))
    × (exec_catch suc 2 chain core 5 0 ≡ some (Opaque.exec_catch plain core 5 0))
    × (exec_with_trace suc 2 chain ignored_trace core 7 5 0
        ≡ some (Opaque.exec_with_trace plain ignored_trace core 7 5 0))
    × (exec_with_deadline suc 2 chain (λ w. (some w, w)) own_deadline core 5 0
        ≡ some (Opaque.exec_with_deadline plain (λ w. (some w, w)) own_deadline core 5 0))
    × (exec_retry suc 2 chain (λ r. r) core 3 5 0
        ≡ some (Opaque.exec_retry plain (λ r. r) core 3 5 0))
unfolding first_poll block_on
modes_agree_example =
    modes_agree suc 1 2 (async slow ∷ []) (stateful blocking ∷ []) deciding core core ignored_trace
      7 (λ w. (some w, w)) own_deadline (λ r. r) 3 5 0 (((λ r w. refl), refl), tt) (omega arith)

-- A future that is never ready.
abbrev never : Poller ℕ ℕ Bool ℤ ℕ
never p s w = (pending p, s, w)

times_out :
    block_on suc (with_timeout host 5 never) 6 (unstarted true) 0 0 ≡ some (err timeout, 0, 5)
unfolding block_on with_timeout or_timer new_timer poll_timer
times_out = refl

-- A chain with a node whose future is never ready.
abbrev stuck : OpaqueAsyncChain ℕ ℕ Bool
stuck = new_chain (
    async slow
    ∷ async (record {
      call = λ r w. (ok true, r, w);
      poll = λ p r w. (pending p, r, w);
      exit = λ r w. (ok tt, r, w);
    })
    ∷ [])

core-Passes : Passes (λ t. t) core
core-Passes r w = omega arith

slow_polls : (p : Bool) (r w : ℕ) → w ≤ (slow.poll p r w).2
slow_polls true r w = omega arith
slow_polls false r w = omega arith

slow-passes : NodePasses (λ t. t) (async slow)
slow-passes = ((λ r w. omega arith), slow_polls, (λ r w. omega arith))

stuck-NodesPass : NodesPass (λ t. t) stuck.nodes
stuck-NodesPass =
    (slow-passes, (((λ r w. omega arith), (λ p r w. omega arith), (λ r w. omega arith)), tt))

exec_timeout_rollback_lem_example :
    (res : Ended (TimeoutError ℤ) ℕ × ℕ × ℕ) × (exec_timeout_rollback suc 9 stuck host
        (λ r. r + 1000)
        core
        8
        5
        0
      ≡ some res)
    × (((v : ℕ) × (res.0 ≡ ok v)) ⊎ (res.0 ≡ panicked) ⊎ (res.1 ≡ 1005))
exec_timeout_rollback_lem_example =
    exec_timeout_rollback_lem suc 9 stuck host (λ w. w) core (λ r. r + 1000) 8 5 0 host-IsClock
      stuck-NodesPass core-Passes (omega arith)

exec_retry_timeout_ends_example :
    (res : Ended (TimeoutError ℤ) ℕ × ℕ × ℕ) × (exec_retry_timeout suc 9 stuck host
        (λ r. r)
        core
        3
        8
        5
        0
      ≡ some res)
exec_retry_timeout_ends_example =
    exec_retry_timeout_ends suc 9 stuck host (λ w. w) core (λ r. r) 3 8 5 0 host-IsClock
      stuck-NodesPass core-Passes (omega arith)
