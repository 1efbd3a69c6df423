-- ===== src/Precompiled.antt =====
-- src/precompiled.rs: the function that the macro `compose_chain` writes for a list of middleware,
-- which is a chain of `Mw`s without a list to walk at run time. Its exit hooks run in the order of
-- the list.
pub mod Agreement
mod Tests
use proc_mw.Common.{⊤, List, [], ◌∷◌}
use proc_mw.Int.{ℤ}
use proc_mw.Effect.{Ended, Act, pure, ◌>>=◌, ◌>>◌, run_hook}
use proc_mw.Dispatch.{Ctx, new_ctx, MwError, Mw, go_on, set_output, get_output}

module _ {W : Type 0} where
  -- the repetition of the first `match`
  unfoldable pub enter_each : List (Mw W) → Act W Ctx MwError ⊤
  enter_each [] = pure tt
  enter_each (m ∷ ms) = do flow ← m.enter; go_on flow; enter_each ms

  -- the repetition of the call of `exit`
  unfoldable pub exit_each : List (Mw W) → Act W Ctx MwError ⊤
  exit_each [] = pure tt
  exit_each (m ∷ ms) = do run_hook m.exit; exit_each ms

  unfoldable pub compose_ctx : List (Mw W) → Act W Ctx MwError ℤ → Act W Ctx MwError ℤ
  compose_ctx mws core = do enter_each mws; v ← core; set_output v; exit_each mws; get_output

  unfoldable pub compose_chain : List (Mw W) → Act W Ctx MwError ℤ → ℤ → W → Ended MwError ℤ × W
  compose_chain mws core x w = let (r, _, w') = compose_ctx mws core (new_ctx x) w in (r, w')
