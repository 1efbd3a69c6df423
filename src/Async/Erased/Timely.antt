-- ===== src/Async/Erased/Timely.antt =====
-- A chain does not set the clock back, if its nodes and the core do not.
use mathlib.Core.List.{reverse_aux}
use proc_mw.Common.{ℕ, zero, suc, ◌≤◌, ⊤, List, [], ◌∷◌, reverse, arith}
use proc_mw.Int.{ℤ, pos, negsuc}
use proc_mw.Effect.{Ended, ok, err, panicked, Act, Hook, pure, ◌>>=◌, ◌>>◌, run_hook}
use proc_mw.Async.{Poll, ready, pending}
use proc_mw.Async.Race.Deadline.{KeepsTime}
use proc_mw.Async.Race.Kept.{
  Passes, StagePasses, AllPass, ProgressPasses, loop_then-KeepsTime, bind-Passes, run_hook-Passes,
}
use proc_mw.Opaque
use proc_mw.Opaque.{check_code}
use proc_mw.Async.Erased.{
  OpaqueAsyncMw, OpaqueAsyncNode, sync, async, OpaqueAsyncChain, checked, first_poll, stage, stages,
  exit, exit_all, core_and_exits, exec_future,
}

module _ {W R : Type 0} (time : W → ℕ) where
  check_code-Passes : (code : ℤ) → Passes time (check_code {W = W} {R = R} code)
  unfolding check_code
  check_code-Passes (pos zero) r w = omega arith
  check_code-Passes (pos (suc n)) r w = omega arith
  check_code-Passes (negsuc n) r w = omega arith

module _ {W R P : Type 0} (time : W → ℕ) where
  -- No hook of the node, and no poll of its future, sets the clock back.
  abbrev pub NodePasses : OpaqueAsyncNode W R P → Type 0
  NodePasses (sync sn) = Passes time (Opaque.enter sn) × Passes time (Opaque.exit sn)
  NodePasses (async mw) =
      Passes time mw.call
      × ((p : P) (r : R) (w : W) → time w ≤ time (mw.poll p r w).2)
      × Passes time mw.exit

  abbrev pub NodesPass : List (OpaqueAsyncNode W R P) → Type 0
  NodesPass [] = ⊤
  NodesPass (n ∷ ns) = NodePasses n × NodesPass ns

  checked-passes : (t : ℕ) (x : Poll P ⊥ ℤ × R × W) → t ≤ time x.2 → t ≤ time (checked x).2
  checked-passes t (ready (ok code), r, w) le = omega (arith, check_code-Passes time code r w)
  checked-passes t (ready (err e), r, w) le = absurd e
  checked-passes t (ready panicked, r, w) le = le
  checked-passes t (pending p, r, w) le = le

  first_poll-passes :
      (mw : OpaqueAsyncMw W R P) (r : R) (w : W)
      → NodePasses (async mw)
      → time w ≤ time (first_poll mw r w).2
  unfolding first_poll
  first_poll-passes mw r w (h, k, _) = after (mw.call r w) (h r w)
    where
      after :
          (x : Ended ⊥ P × R × W)
          → time w ≤ time x.2
          → time w
            ≤ time
                (elim x.0 as (λ _. Poll P ⊥ ℤ × R × W) [
                  | ok p ↦ mw.poll p x.1 x.2
                  | err e ↦ absurd e
                  | panicked ↦ (ready panicked, x.1, x.2)
                ]).2
      after (ok p, r', w') le = omega (arith, k p r' w')
      after (err e, r', w') le = absurd e
      after (panicked, r', w') le = le

  stage-passes : (n : OpaqueAsyncNode W R P) → NodePasses n → StagePasses time (stage n)
  unfolding stage
  stage-passes (sync sn) h = (
    (λ r w.
        (let (e, r', w') = Opaque.enter sn r w in
          checked-passes (time w) (ready e, r', w') (h.0 r w))),
    λ p r w. omega arith,
  )
  stage-passes (async mw) h = (
    (λ r w. checked-passes (time w) (first_poll mw r w) (first_poll-passes mw r w h)),
    λ p r w. checked-passes (time w) (mw.poll p r w) (h.1 p r w),
  )

  stages-AllPass : (ns : List (OpaqueAsyncNode W R P)) → NodesPass ns → AllPass time (stages ns)
  stages-AllPass [] h = tt
  stages-AllPass (n ∷ ns) (h, hs) = (stage-passes n h, stages-AllPass ns hs)

  reverse_aux-NodesPass :
      (xs ys : List (OpaqueAsyncNode W R P))
      → NodesPass xs
      → NodesPass ys
      → NodesPass (reverse_aux xs ys)
  reverse_aux-NodesPass [] ys h k = k
  reverse_aux-NodesPass (x ∷ xs) ys (h, hs) k = reverse_aux-NodesPass xs (x ∷ ys) hs (h, k)

  exit-Passes : (n : OpaqueAsyncNode W R P) → NodePasses n → Passes time (exit n)
  unfolding exit
  exit-Passes (sync sn) h = h.1
  exit-Passes (async mw) h = h.2

  exit_all-Passes : (ns : List (OpaqueAsyncNode W R P)) → NodesPass ns → Passes time (exit_all ns)
  unfolding exit_all
  exit_all-Passes [] h = λ r w. omega arith
  exit_all-Passes (n ∷ ns) (h, hs) =
      bind-Passes time (run_hook (exit n)) (λ _. exit_all ns)
        (run_hook-Passes time ℤ (exit n) (exit-Passes n h)) (λ _. exit_all-Passes ns hs)

  pub exec_future-KeepsTime :
      {O : Type 0} (c : OpaqueAsyncChain W R P) (core : Hook W R O)
      → NodesPass c.nodes
      → Passes time core
      → KeepsTime time (ProgressPasses time) (exec_future c core)
  unfolding exec_future core_and_exits
  exec_future-KeepsTime {O} c core h k =
      let out : O → Act W R ℤ O = λ o. exit_all (reverse c.nodes) >> pure o in
      loop_then-KeepsTime time (stages c.nodes) (run_hook core >>= out) (stages-AllPass c.nodes h) (
        bind-Passes time (run_hook core) out (run_hook-Passes time ℤ core k) (λ o.
          bind-Passes time (exit_all (reverse c.nodes)) (λ _. pure o)
            (exit_all-Passes (reverse c.nodes) (reverse_aux-NodesPass c.nodes [] h tt))
            (λ _ r w. omega arith)))
