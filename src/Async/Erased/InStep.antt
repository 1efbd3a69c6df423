-- ===== src/Async/Erased/InStep.antt =====
-- Threads of an asynchronous chain of synchronous nodes go in step with those of the type-erased chain.
use proc_mw.Common.{
  ℕ, ◌≡◌, refl, ap, sym, ◌∙◌, ⊤, Option, none, some, List, [], ◌∷◌, map, reverse, map-reverse,
}
use proc_mw.Int.{ℤ}
use proc_mw.Effect.{Ended, ok, err, panicked, Hook, run_hook, raise_none, then_run}
use proc_mw.Schedule.{run_schedule, run_schedule-simulates}
use proc_mw.Opaque.{OpaqueNode, OpaqueChain, Verdict, check_code, enter}
use proc_mw.Opaque.Parallel
use proc_mw.Async.{ready}
use proc_mw.Async.Erased.{OpaqueAsyncNode, OpaqueAsyncChain, sync, new_chain, checked, stage, exit}
use proc_mw.Async.Erased.Parallel.{
  Thread, entering, exiting, finished, entered, computed, exited, step, join_all, exec_parallel,
}

abbrev all_sync : {W R P : Type 0} → List (OpaqueNode W R) → List (OpaqueAsyncNode W R P)
all_sync ns = map sync ns

module _ {W R P O : Type 0} where
  -- The thread of the asynchronous chain for one of the other chain
  abbrev lift : Parallel.Thread W R O → Thread W R P O
  lift (Parallel.entering r ns) = entering r (all_sync ns)
  lift (Parallel.exiting r o ns) = exiting r o (all_sync ns)
  lift (Parallel.finished x) = finished x

  abbrev lifted : Parallel.Thread W R O × W → Thread W R P O × W
  lifted (t, w) = (lift t, w)

  entered-code :
      (n : OpaqueNode W R) (ns : List (OpaqueNode W R)) (x : Ended ℤ ⊤ × R × W)
      → entered (sync n) (all_sync ns) (ready x.0, x.1, x.2) ≡ lifted (Parallel.entered ns x)
  entered-code n ns (ok u, r, w) = refl
  entered-code n ns (err e, r, w) = refl
  entered-code n ns (panicked, r, w) = refl

  entered-lift :
      (n : OpaqueNode W R) (ns : List (OpaqueNode W R)) (x : Ended ⊥ ℤ × R × W)
      → entered (sync n) (all_sync ns) (checked (ready x.0, x.1, x.2))
        ≡ lifted (Parallel.entered ns (then_run check_code (raise_none x)))
  entered-lift n ns (ok code, r, w) = entered-code n ns (check_code code r w)
  entered-lift n ns (err e, r, w) = absurd e
  entered-lift n ns (panicked, r, w) = refl

  computed-lift :
      (ns : List (OpaqueNode W R)) (x : Ended ℤ O × R × W)
      → computed (all_sync ns) x ≡ lifted (Parallel.computed ns x)
  computed-lift ns (ok o, r, w) = refl
  computed-lift ns (err e, r, w) = refl
  computed-lift ns (panicked, r, w) = refl

  exited-lift :
      (o : O) (ns : List (OpaqueNode W R)) (x : Ended ℤ ⊤ × R × W)
      → exited o (all_sync ns) x ≡ lifted (Parallel.exited o ns x)
  exited-lift o ns (ok u, r, w) = refl
  exited-lift o ns (err e, r, w) = refl
  exited-lift o ns (panicked, r, w) = refl

module _ {W R O : Type 0} (P : Type 0) where
  join_all-lift :
      (ts : List (Parallel.Thread W R O)) → join_all (map (lift {P = P}) ts) ≡ Parallel.join_all ts
  join_all-lift [] = refl
  join_all-lift (Parallel.entering r ns ∷ ts) = refl
  join_all-lift (Parallel.exiting r o ns ∷ ts) = refl
  join_all-lift (Parallel.finished x ∷ ts) = rw (join_all-lift ts) refl

  module _ (chain : OpaqueChain W R) (core : Hook W R O) where
    abbrev async_chain : OpaqueAsyncChain W R P
    async_chain = new_chain (all_sync chain.nodes)

    step-lift :
        (t : Parallel.Thread W R O) (w : W)
        → step async_chain core (lift t) w ≡ lifted (Parallel.step chain core t w)
    unfolding step Parallel.step stage exit
    step-lift (Parallel.entering r (n ∷ ns)) w = entered-lift n ns (enter n r w)
    step-lift (Parallel.entering r []) w =
        ap (λ (ns : List (OpaqueAsyncNode W R P)). computed ns (run_hook core r w))
          (sym (map-reverse sync chain.nodes))
        ∙ computed-lift (reverse chain.nodes) (run_hook core r w)
    step-lift (Parallel.exiting r o (n ∷ ns)) w =
        exited-lift o ns (run_hook (proc_mw.Opaque.exit n) r w)
    step-lift (Parallel.exiting r o []) w = refl
    step-lift (Parallel.finished x) w = refl

    lift-spawn :
        (reqs : List R)
        → map {B = Thread W R P O} (λ r. entering r (all_sync chain.nodes)) reqs
          ≡ map lift (map (λ r. Parallel.entering r chain.nodes) reqs)
    lift-spawn [] = refl
    lift-spawn (r ∷ reqs) =
        ap (λ (ts : List (Thread W R P O)). entering r (all_sync chain.nodes) ∷ ts)
          (lift-spawn reqs)

    -- Whatever its nodes and the core share, and whatever the schedule is, an asynchronous chain of
    -- synchronous nodes does in parallel what the type-erased chain of these nodes does.
    pub exec_parallel-eq-sync :
        (reqs : List R) (schedule : List ℕ) (w : W)
        → exec_parallel async_chain core reqs schedule w
          ≡ Parallel.exec_parallel chain core reqs schedule w
    unfolding exec_parallel Parallel.exec_parallel
    exec_parallel-eq-sync reqs schedule w =
        let run = run_schedule (step async_chain core) schedule in
        let threads : List (Parallel.Thread W R O) =
          map (λ r. Parallel.entering r chain.nodes) reqs in
        let (ts, w') = run_schedule (Parallel.step chain core) schedule threads w in
        ap joined (
          ap (λ (us : List (Thread W R P O)). run us w) (lift-spawn reqs)
          ∙ run_schedule-simulates (Parallel.step chain core) (step async_chain core) lift step-lift
              schedule threads w)
        ∙ ap (λ (o : Option (List (Verdict O ℤ))). elim o [ none ↦ none | some rs ↦ some (rs, w') ])
            (join_all-lift ts)
      where
        joined : List (Thread W R P O) × W → Option (List (Verdict O ℤ) × W)
        joined (us, v) = elim (join_all us) [ none ↦ none | some rs ↦ some (rs, v) ]
