-- ===== src/Async/Generic.antt =====
-- src/async_generic.rs: the asynchronous chain over any input and output type, with the context of
-- src/generic.rs.
use proc_mw.Common.{ℕ, zero, suc, Option, none, some, List, reverse}
use proc_mw.Effect.{Ended, ok, err, panicked, Act, ◌>>=◌, ◌>>◌}
use proc_mw.Dispatch.{MwError, halted}
use proc_mw.Generic.{GenericCtx, new_ctx, set_output, take_output}
use proc_mw.Async.{Poller, Progress, unpolled, loop_then, block_on}
use proc_mw.Async.Middleware.{
  AsyncMw, stage, catching_stage, each, exit_all, catch_core, without_ctx,
}

pub record AsyncChain (W P R O : Type 0) : Type 0 where
  pub mws : List (AsyncMw W (GenericCtx R O) P)

module _ {W P R O : Type 0} where
  unfoldable pub core_and_exits :
      List (AsyncMw W (GenericCtx R O) P)
      → Act W (GenericCtx R O) MwError O
      → Act W (GenericCtx R O) MwError O
  core_and_exits mws core = do v ← core; set_output v; exit_all (reverse mws); take_output

  unfoldable pub exec_future :
      AsyncChain W P R O
      → Act W (GenericCtx R O) MwError O
      → Poller W (GenericCtx R O) (Progress W (GenericCtx R O) P MwError) MwError O
  unfolding core_and_exits
  exec_future c core = loop_then (each stage c.mws) (core_and_exits c.mws core)

  unfoldable pub catch_future :
      AsyncChain W P R O
      → Act W (GenericCtx R O) MwError O
      → Poller W (GenericCtx R O) (Progress W (GenericCtx R O) P MwError) MwError O
  unfolding core_and_exits
  catch_future c core =
      loop_then (each catching_stage c.mws) (core_and_exits c.mws (λ s w. catch_core (core s w)))

module _ {W P R O : Type 0} (idle : W → W) (fuel : ℕ) (c : AsyncChain W P R O)
    (core : Act W (GenericCtx R O) MwError O) where
  unfoldable pub exec : R → W → Option (Ended MwError O × W)
  exec input w = without_ctx (block_on idle (exec_future c core) fuel unpolled (new_ctx input) w)

  unfoldable pub retry_from : (R → R) → R → ℕ → Option MwError → W → Option (Ended MwError O × W)
  retry_from clone input zero none w = some (err halted, w)
  retry_from clone input zero (some e) w = some (err e, w)
  retry_from clone input (suc n) last w = elim (exec (clone input) w) [
    | none ↦ none
    | some (r, w') ↦ elim r [
      | ok v ↦ some (ok v, w')
      | err e ↦ retry_from clone input n (some e) w'
      | panicked ↦ some (panicked, w')
    ]
  ]

  unfoldable pub exec_retry : (R → R) → R → ℕ → W → Option (Ended MwError O × W)
  unfolding retry_from
  exec_retry clone input attempts w = retry_from clone input attempts none w

  unfoldable pub exec_catch : R → W → Option (Ended MwError O × W)
  exec_catch input w =
      without_ctx (block_on idle (catch_future c core) fuel unpolled (new_ctx input) w)
