-- ===== src/Async/Erased/Parallel.antt =====
-- `exec_parallel` of src/async_opaque.rs: a thread for each request, which polls the future of `exec` on its
-- own. A thread's steps are the polls of one node's future, the core, the exit hooks, and the end; the threads'
-- steps are interleaved in the order of a schedule. A step for a thread that waits is a poll after its wake-up.
use proc_mw.Common.{ℕ, ⊤, Option, none, some, List, [], ◌∷◌, map, reverse}
use proc_mw.Int.{ℤ}
use proc_mw.Effect.{Ended, ok, err, panicked, Hook, run_hook}
use proc_mw.Schedule.{run_schedule}
use proc_mw.Opaque.{Verdict}
use proc_mw.Opaque.Parallel.{join}
use proc_mw.Async.{Poll, ready, pending}
use proc_mw.Async.Erased.{OpaqueAsyncNode, OpaqueAsyncChain, stage, exit}

-- A thread: its request with the nodes that are left to enter, or with a future that is pending, its node, and
-- the nodes left behind it; or with the core's result and the nodes left to exit; or what it has ended with.
pub data Thread (W R P O : Type 0) : Type 0 where
  entering : R → List (OpaqueAsyncNode W R P) → Thread W R P O
  waiting : P → OpaqueAsyncNode W R P → R → List (OpaqueAsyncNode W R P) → Thread W R P O
  exiting : R → O → List (OpaqueAsyncNode W R P) → Thread W R P O
  finished : Ended ℤ O → Thread W R P O

module _ {W R P O : Type 0} where
  abbrev pub entered :
      OpaqueAsyncNode W R P → List (OpaqueAsyncNode W R P) → Poll P ℤ ⊤ × R × W → Thread W R P O × W
  entered n ns (ready (ok _), r, w) = (entering r ns, w)
  entered n ns (ready (err e), r, w) = (finished (err e), w)
  entered n ns (ready panicked, r, w) = (finished panicked, w)
  entered n ns (pending p, r, w) = (waiting p n r ns, w)

  abbrev pub computed : List (OpaqueAsyncNode W R P) → Ended ℤ O × R × W → Thread W R P O × W
  computed ns (ok o, r, w) = (exiting r o ns, w)
  computed ns (err e, r, w) = (finished (err e), w)
  computed ns (panicked, r, w) = (finished panicked, w)

  abbrev pub exited : O → List (OpaqueAsyncNode W R P) → Ended ℤ ⊤ × R × W → Thread W R P O × W
  exited o ns (ok _, r, w) = (exiting r o ns, w)
  exited o ns (err e, r, w) = (finished (err e), w)
  exited o ns (panicked, r, w) = (finished panicked, w)

  unfoldable pub step :
      OpaqueAsyncChain W R P → Hook W R O → Thread W R P O → W → Thread W R P O × W
  unfolding stage
  step chain core (entering r (n ∷ ns)) w = entered n ns ((stage n).begin r w)
  step chain core (entering r []) w = computed (reverse chain.nodes) (run_hook core r w)
  step chain core (waiting p n r ns) w = entered n ns ((stage n).resume p r w)
  step chain core (exiting r o (n ∷ ns)) w = exited o ns (run_hook (exit n) r w)
  step chain core (exiting r o []) w = (finished (ok o), w)
  step chain core (finished x) w = (finished x, w)

  -- The joins in the order of the requests, when all threads have finished
  abbrev pub join_all : List (Thread W R P O) → Option (List (Verdict O ℤ))
  join_all [] = some []
  join_all (finished x ∷ ts) = elim (join_all ts) [ none ↦ none | some rs ↦ some (join x ∷ rs) ]
  join_all (_ ∷ ts) = none

  -- With a schedule: nothing, if not all threads have finished after it.
  unfoldable pub exec_parallel :
      OpaqueAsyncChain W R P → Hook W R O → List R → List ℕ → W → Option (List (Verdict O ℤ) × W)
  unfolding step
  exec_parallel chain core reqs schedule w =
      let (ts, w') =
        run_schedule (step chain core) schedule (map (λ r. entering r chain.nodes) reqs) w in
      elim (join_all ts) [ none ↦ none | some rs ↦ some (rs, w') ]
