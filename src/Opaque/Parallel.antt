-- ===== src/Opaque/Parallel.antt =====
-- `exec_parallel` of src/opaque.rs: a thread for each request, over the same chain. A thread's steps are
-- the hooks, the core, and the end; the threads' steps are interleaved in the order of a schedule.
use proc_mw.Common.{ℕ, ⊤, Option, none, some, List, [], ◌∷◌, map, reverse}
use proc_mw.Int.{ℤ}
use proc_mw.Effect.{Ended, ok, err, panicked, Hook, run_hook, ◌>>=◌}
use proc_mw.Schedule.{run_schedule}
use proc_mw.Opaque.{OpaqueNode, OpaqueChain, Verdict, opaque_reject, enter, exit, check_code}

-- A thread: its request with the nodes that are left to enter, or with the core's result and the nodes
-- that are left to exit; or what it has ended with.
pub data Thread (W R O : Type 0) : Type 0 where
  entering : R → List (OpaqueNode W R) → Thread W R O
  exiting : R → O → List (OpaqueNode W R) → Thread W R O
  finished : Ended ℤ O → Thread W R O

-- `h.join().unwrap_or(Err(OPAQUE_REJECT))`
abbrev pub join : {O : Type 0} → Ended ℤ O → Verdict O ℤ
join (ok o) = Verdict.ok o
join (err code) = Verdict.err code
join panicked = Verdict.err opaque_reject

module _ {W R O : Type 0} where
  abbrev pub entered : List (OpaqueNode W R) → Ended ℤ ⊤ × R × W → Thread W R O × W
  entered ns (ok _, r, w) = (entering r ns, w)
  entered ns (err e, r, w) = (finished (err e), w)
  entered ns (panicked, r, w) = (finished panicked, w)

  abbrev pub computed : List (OpaqueNode W R) → Ended ℤ O × R × W → Thread W R O × W
  computed ns (ok o, r, w) = (exiting r o ns, w)
  computed ns (err e, r, w) = (finished (err e), w)
  computed ns (panicked, r, w) = (finished panicked, w)

  abbrev pub exited : O → List (OpaqueNode W R) → Ended ℤ ⊤ × R × W → Thread W R O × W
  exited o ns (ok _, r, w) = (exiting r o ns, w)
  exited o ns (err e, r, w) = (finished (err e), w)
  exited o ns (panicked, r, w) = (finished panicked, w)

  unfoldable pub step : OpaqueChain W R → Hook W R O → Thread W R O → W → Thread W R O × W
  step chain core (entering r (n ∷ ns)) w = entered ns ((run_hook (enter n) >>= check_code) r w)
  step chain core (entering r []) w = computed (reverse chain.nodes) (run_hook core r w)
  step chain core (exiting r o (n ∷ ns)) w = exited o ns (run_hook (exit n) r w)
  step chain core (exiting r o []) w = (finished (ok o), w)
  step chain core (finished x) w = (finished x, w)

  -- The joins in the order of the requests, when all threads have finished
  abbrev pub join_all : List (Thread W R O) → Option (List (Verdict O ℤ))
  join_all [] = some []
  join_all (finished x ∷ ts) = elim (join_all ts) [ none ↦ none | some rs ↦ some (join x ∷ rs) ]
  join_all (_ ∷ ts) = none

  -- With a schedule: nothing, if not all threads have finished after it.
  unfoldable pub exec_parallel :
      OpaqueChain W R → Hook W R O → List R → List ℕ → W → Option (List (Verdict O ℤ) × W)
  unfolding step
  exec_parallel chain core reqs schedule w =
      let (ts, w') =
        run_schedule (step chain core) schedule (map (λ r. entering r chain.nodes) reqs) w in
      elim (join_all ts) [ none ↦ none | some rs ↦ some (rs, w') ]
