-- ===== src/Chain/Recovery.antt =====
-- What `exec_or` and `exec_catch` make of the errors and panics of a chain.
use proc_mw.Common.{◌≡◌, ap, List, ◌∷◌, ◌++◌, arith, ◌≢◌, ◌⊎◌}
use proc_mw.Int.{ℤ}
use proc_mw.Effect.{Ended, ok, err, panicked, ◌>>=◌}
use proc_mw.Dispatch.{
  Ctx, new_ctx, MwError, rejected, Host, Node, go_on, enter, enter_all, chain_exec,
}
use proc_mw.Dispatch.Errors.{chain_exec_ctx_stops}
use proc_mw.Chain.{Chain, Core, new_chain, exec, exec_or, exec_catch}

module _ {W : Type 0} (host : Host W) where
  exec_stops :
      (before after : List (Node W)) (n : Node W) (core : Core W) (input : ℤ) (e : MwError) (w : W)
      {c₁ c₂ : Ctx} {w₁ w₂ : W}
      → enter_all host before (new_ctx input) w ≡ (ok tt, c₁, w₁)
      → (enter host n >>= go_on) c₁ w₁ ≡ (err e, c₂, w₂)
      → exec host (new_chain (before ++ n ∷ after)) core input w ≡ (err e, w₂)
  unfolding exec chain_exec
  exec_stops before after n core input e w p q =
      ap (λ (r : Ended MwError ℤ × Ctx × W). (r.0, r.2))
        (chain_exec_ctx_stops host before after n core e (new_ctx input) w p q)

  -- A request that a node stops is answered by the fallback, applied to the original input and to
  -- the shared state that the node left; the core is not run and no exit hook is.
  pub exec_or_stops :
      (before after : List (Node W)) (n : Node W) (core : Core W) (input : ℤ)
      (fallback : ℤ → W → Ended ⊥ ℤ × W) (e : MwError) (w : W) {c₁ c₂ : Ctx} {w₁ w₂ : W}
      → enter_all host before (new_ctx input) w ≡ (ok tt, c₁, w₁)
      → (enter host n >>= go_on) c₁ w₁ ≡ (err e, c₂, w₂)
      → exec_or host (new_chain (before ++ n ∷ after)) core input fallback w ≡ fallback input w₂
  unfolding exec_or
  exec_or_stops before after n core input fallback e w p q =
      ground (arith, exec_stops before after n core input e w p q)

  -- `exec_catch` never panics; its results are those of `exec`, a panic of which becomes its error;
  -- and it leaves the shared state that `exec` leaves, also after a panic.
  pub exec_catch_lem :
      (chain : Chain W) (core : Core W) (input : ℤ) (w : W)
      → let (r, w₁) = exec host chain core input w in
        let (r', w₂) = exec_catch host chain core input w in
        (w₂ ≡ w₁)
        × (r' ≢ panicked)
        × ((r' ≡ r) ⊎ (r ≡ panicked) × (r' ≡ err (rejected "core panicked")))
  unfolding exec_catch
  exec_catch_lem chain core input w = ground arith
