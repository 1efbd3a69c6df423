-- ===== src/Async/Typed.antt =====
-- src/async_mw.rs: the asynchronous typed chain, and the middleware that it comes with. An operation is
-- what its future comes to if it is polled up to `fuel` times for each execution that it awaits;
-- nothing, if one of them has not ended by then.
pub mod Agreement
pub mod Panics
mod Tests
use proc_mw.Common.{
  ℕ, zero, suc, ⊤, Bool, true, false, Option, none, some, List, [], ◌∷◌, reverse, if◌then◌else◌,
}
use proc_mw.Int.{ℤ, pos, ltb_ℤ, add_i32}
use proc_mw.Effect.{Ended, ok, err, panicked, Act, ◌>>=◌, ◌>>◌}
use proc_mw.Cell.{Cell, modify}
use proc_mw.Dispatch.{
  Ctx, new_ctx, Flow, continue, MwError, halted, rejected, Host, set_output, get_output,
}
use proc_mw.Metrics.{Counts, count_call, count_success}
use proc_mw.Async.{Poll, ready, pending, Poller, Progress, unpolled, loop_then, block_on}
use proc_mw.Async.Middleware.{
  AsyncMw, stage, catching_stage, each, exit_all, catch_core, without_ctx,
}
use proc_mw.Async.Race.{TimeoutError, Racing, unstarted, with_timeout}

-- `AsyncMetrics`, whose call counts before the future is there
abbrev pub async_metrics : {W P : Type 0} → P → Cell W Counts → AsyncMw W Ctx P
async_metrics p cell = record {
  call = λ c w. (ok p, c, modify cell count_call w);
  poll = λ _ c w. (ready (ok continue), c, w);
  exit = λ c w. (ok tt, c, modify cell count_success w);
}

-- `YieldOnce`: whether it has been polled before
abbrev pub yield_once : {W S E : Type 0} → Poller W S Bool E ⊤
yield_once true s w = (ready (ok tt), s, w)
yield_once false s w = (pending true, s, w)

module _ {W : Type 0} (host : Host W) where
  unfoldable pub add_input : ℤ → Ctx → W → Poll Bool MwError Flow × Ctx × W
  add_input n c w = elim (add_i32 host.overflow_checks c.input n) [
    | none ↦ (ready panicked, c, w)
    | some v ↦ (ready (ok continue), record c { input = v }, w)
  ]

  -- `AsyncAdd`
  abbrev pub poll_add : ℤ → Poller W Ctx Bool MwError Flow
  poll_add n true c w = add_input n c w
  poll_add n false c w = (pending true, c, w)

  abbrev pub async_add : ℤ → AsyncMw W Ctx Bool
  async_add n = record {
    call = λ c w. (ok false, c, w);
    poll = poll_add n;
    exit = λ c w. (ok tt, c, w);
  }

abbrev pub async_reject_negative : {W P : Type 0} → P → AsyncMw W Ctx P
async_reject_negative p = record {
  call = λ c w. (ok p, c, w);
  poll = λ _ c w. (
    ready (if ltb_ℤ c.input (pos 0) then err (rejected "async negative") else ok continue),
    c,
    w,
  );
  exit = λ c w. (ok tt, c, w);
}

pub record AsyncChain (W P : Type 0) : Type 0 where
  pub mws : List (AsyncMw W Ctx P)

abbrev pub new_chain : {W P : Type 0} → List (AsyncMw W Ctx P) → AsyncChain W P
new_chain mws = record { mws = mws }

module _ {W P : Type 0} where
  -- What follows the loop of `exec`, and of `exec_catch`.
  unfoldable pub core_and_exits : List (AsyncMw W Ctx P) → Act W Ctx MwError ℤ → Act W Ctx MwError ℤ
  core_and_exits mws core = do v ← core; set_output v; exit_all (reverse mws); get_output

  unfoldable pub exec_future :
      AsyncChain W P → Act W Ctx MwError ℤ → Poller W Ctx (Progress W Ctx P MwError) MwError ℤ
  unfolding core_and_exits
  exec_future c core = loop_then (each stage c.mws) (core_and_exits c.mws core)

  unfoldable pub catch_future :
      AsyncChain W P → Act W Ctx MwError ℤ → Poller W Ctx (Progress W Ctx P MwError) MwError ℤ
  unfolding core_and_exits
  catch_future c core =
      loop_then (each catching_stage c.mws) (core_and_exits c.mws (λ s w. catch_core (core s w)))

module _ {W P : Type 0} (idle : W → W) (fuel : ℕ) (c : AsyncChain W P)
    (core : Act W Ctx MwError ℤ) where
  unfoldable pub exec : ℤ → W → Option (Ended MwError ℤ × W)
  exec input w = without_ctx (block_on idle (exec_future c core) fuel unpolled (new_ctx input) w)

  unfoldable pub exec_timeout : Host W → ℤ → ℕ → W → Option (Ended (TimeoutError MwError) ℤ × W)
  exec_timeout host input dur w = without_ctx (
      block_on idle (with_timeout host dur (exec_future c core)) fuel (unstarted unpolled)
        (new_ctx input) w)

  -- The loop of `exec_retry`, with the attempts that are left and the last error.
  unfoldable pub retry_from : ℤ → ℕ → Option MwError → W → Option (Ended MwError ℤ × W)
  retry_from input zero none w = some (err halted, w)
  retry_from input zero (some e) w = some (err e, w)
  retry_from input (suc n) last w = elim (exec input w) [
    | none ↦ none
    | some (r, w') ↦ elim r [
      | ok v ↦ some (ok v, w')
      | err e ↦ retry_from input n (some e) w'
      | panicked ↦ some (panicked, w')
    ]
  ]

  unfoldable pub exec_retry : ℤ → ℕ → W → Option (Ended MwError ℤ × W)
  unfolding retry_from
  exec_retry input attempts w = retry_from input attempts none w

  unfoldable pub exec_catch : ℤ → W → Option (Ended MwError ℤ × W)
  exec_catch input w =
      without_ctx (block_on idle (catch_future c core) fuel unpolled (new_ctx input) w)
