-- ===== src/Async/Erased/Patience.antt =====
-- Executions with a timeout end.
use proc_mw.Common.{ℕ, zero, suc, ◌<◌, ◌≡◌, refl, ◌⊎◌, inl, inr, Option, some}
use proc_mw.Int.{ℤ, pos}
use proc_mw.Effect.{Ended, ok, err, panicked, Hook}
use proc_mw.Dispatch.{Host}
use proc_mw.Async.{unpolled}
use proc_mw.Async.Race.{TimeoutError, chain}
use proc_mw.Async.Race.Deadline.{IsClock, with_timeout_ends}
use proc_mw.Async.Race.Kept.{Passes, ProgressPasses}
use proc_mw.Async.Erased.Timely.{NodesPass, exec_future-KeepsTime}
use proc_mw.Async.Erased.{
  OpaqueAsyncChain, exec_future, exec_timeout, exec_timeout_rollback, retry_timeout_from,
  exec_retry_timeout,
}

module _ {W R P O : Type 0} (idle : W → W) (fuel : ℕ) (c : OpaqueAsyncChain W R P) (host : Host W)
    (time : W → ℕ) (core : Hook W R O) where
  abbrev Outcome : Type 0
  Outcome = Ended (TimeoutError ℤ) O × R × W

  exec_timeout_ends :
      (dur : ℕ) (r : R) (w : W)
      → IsClock host idle time
      → NodesPass time c.nodes
      → Passes time core
      → dur < fuel
      → (res : Outcome) × (exec_timeout idle fuel c host core dur r w ≡ some res)
  unfolding exec_timeout
  exec_timeout_ends dur r w clock nodes passes lt =
      with_timeout_ends host idle time dur (ProgressPasses time) (exec_future c core) fuel unpolled
        r w clock (exec_future-KeepsTime time c core nodes passes) tt lt

  -- With a clock that the nodes and the core do not set back, and that moves on while the task waits,
  -- `exec_timeout_rollback` ends after at most `dur` + 1 polls, also if a node's future is never ready. If it
  -- ends with an error, a code of the chain or a timeout, the request is the clone that was made at the start.
  pub exec_timeout_rollback_lem :
      (clone : R → R) (dur : ℕ) (r : R) (w : W)
      → IsClock host idle time
      → NodesPass time c.nodes
      → Passes time core
      → dur < fuel
      → (res : Outcome) × (exec_timeout_rollback idle fuel c host clone core dur r w ≡ some res)
        × (((v : O) × (res.0 ≡ ok v)) ⊎ (res.0 ≡ panicked) ⊎ (res.1 ≡ clone r))
  unfolding exec_timeout_rollback
  exec_timeout_rollback_lem clone dur r w clock nodes passes lt =
      let (res, e) = exec_timeout_ends dur r w clock nodes passes lt in rw e (after res)
    where
      after :
          (x : Outcome)
          → (res : Outcome) × ((elim x.0 as (λ _. Option Outcome) [
            | ok v ↦ some (ok v, x.1, x.2)
            | err e ↦ some (err e, clone r, x.2)
            | panicked ↦ some (panicked, x.1, x.2)
          ])
              ≡ some res)
            × (((v : O) × (res.0 ≡ ok v)) ⊎ (res.0 ≡ panicked) ⊎ (res.1 ≡ clone r))
      after (ok v, r', w') = ((ok v, r', w'), refl, inl (v, refl))
      after (err e, r', w') = ((err e, clone r, w'), refl, inr (inr refl))
      after (panicked, r', w') = ((panicked, r', w'), refl, inr (inl refl))

  retry_timeout_from_ends :
      (clone : R → R) (per_attempt n : ℕ) (last : TimeoutError ℤ) (r : R) (w : W)
      → IsClock host idle time
      → NodesPass time c.nodes
      → Passes time core
      → per_attempt < fuel
      → (res : Outcome) × (retry_timeout_from idle fuel c host clone core per_attempt n last r w
          ≡ some res)
  unfolding retry_timeout_from
  retry_timeout_from_ends clone per_attempt zero last r w clock nodes passes lt =
      ((err last, r, w), refl)
  retry_timeout_from_ends clone per_attempt (suc n) last r w clock nodes passes lt =
      let (res, e) = exec_timeout_ends per_attempt (clone r) w clock nodes passes lt in
      rw e (
        after res
          (λ x w'. retry_timeout_from_ends clone per_attempt n x r w' clock nodes passes lt))
    where
      after :
          (x : Outcome)
          → ((y : TimeoutError ℤ) (w' : W)
              → (res : Outcome) × (retry_timeout_from idle fuel c host clone core per_attempt n y r
                    w'
                  ≡ some res))
          → (res : Outcome) × ((elim x.0 as (λ _. Option Outcome) [
            | ok v ↦ some (ok v, x.1, x.2)
            | err y ↦ retry_timeout_from idle fuel c host clone core per_attempt n y r x.2
            | panicked ↦ some (panicked, r, x.2)
          ])
              ≡ some res)
      after (ok v, r', w') ih = ((ok v, r', w'), refl)
      after (err y, r', w') ih = ih y w'
      after (panicked, r', w') ih = ((panicked, r, w'), refl)

  -- With a clock that the nodes and the core do not set back, and that moves on while the task waits,
  -- `exec_retry_timeout` ends, also if a node's future is never ready: each of its attempts takes at
  -- most `per_attempt` + 1 polls.
  pub exec_retry_timeout_ends :
      (clone : R → R) (n per_attempt : ℕ) (r : R) (w : W)
      → IsClock host idle time
      → NodesPass time c.nodes
      → Passes time core
      → per_attempt < fuel
      → (res : Outcome) × (exec_retry_timeout idle fuel c host clone core n per_attempt r w
          ≡ some res)
  unfolding exec_retry_timeout
  exec_retry_timeout_ends clone n per_attempt r w clock nodes passes lt =
      retry_timeout_from_ends clone per_attempt n (chain (pos 0)) r w clock nodes passes lt
