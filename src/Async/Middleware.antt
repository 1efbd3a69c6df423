-- ===== src/Async/Middleware.antt =====
-- The trait `AsyncMw` of src/async_mw.rs, which src/async_generic.rs has over another context, and the
-- round of the loop that awaits it. `S` is the context.
use proc_mw.Common.{⊤, Option, none, some, List, [], ◌∷◌}
use proc_mw.Effect.{Ended, ok, err, panicked, Act, Hook, pure, ◌>>◌, run_hook}
use proc_mw.Dispatch.{Flow, MwError, rejected, go_on}
use proc_mw.Async.{Poll, ready, pending, Poller, Stage}

-- What `call` does before it returns its future, the future, and `exit`.
pub record AsyncMw (W S P : Type 0) : Type 0 where
  pub call : Hook W S P
  pub poll : Poller W S P MwError Flow
  pub exit : Hook W S ⊤

module _ {W S P : Type 0} where
  -- `?` behind `.await`, and the return on `Flow::Break`
  abbrev pub passed : Poll P MwError Flow × S × W → Poll P MwError ⊤ × S × W
  passed (ready (ok flow), s, w) = let (e, s', w') = go_on flow s w in (ready e, s', w')
  passed (ready (err e), s, w) = (ready (err e), s, w)
  passed (ready panicked, s, w) = (ready panicked, s, w)
  passed (pending p, s, w) = (pending p, s, w)

  -- The call, and the first poll of what it returns.
  unfoldable pub call_then :
      (P → S → W → Poll P MwError Flow × S × W)
      → AsyncMw W S P
      → S
      → W
      → Poll P MwError Flow × S × W
  call_then poll m s w =
      let (e, s', w') = m.call s w in
      elim e [ ok p ↦ poll p s' w' | err x ↦ absurd x | panicked ↦ (ready panicked, s', w') ]

  -- one round of the loop of `exec`
  unfoldable pub stage : AsyncMw W S P → Stage W S P MwError
  unfolding call_then
  stage m = record {
    begin = λ s w. passed (call_then m.poll m s w);
    resume = λ p s w. passed (m.poll p s w);
  }

  -- `catch_unwind` around the future, which is there only when the call has returned
  abbrev pub caught : Poll P MwError Flow × S × W → Poll P MwError Flow × S × W
  caught (ready panicked, s, w) = (ready (err (rejected "middleware panicked")), s, w)
  caught x = x

  -- one round of the loop of `exec_catch`
  unfoldable pub catching_stage : AsyncMw W S P → Stage W S P MwError
  unfolding call_then
  catching_stage m = record {
    begin = λ s w. passed (call_then (λ p s' w'. caught (m.poll p s' w')) m s w);
    resume = λ p s w. passed (caught (m.poll p s w));
  }

  abbrev pub each :
      (AsyncMw W S P → Stage W S P MwError) → List (AsyncMw W S P) → List (Stage W S P MwError)
  each f [] = []
  each f (m ∷ ms) = f m ∷ each f ms

  unfoldable pub exit_all : List (AsyncMw W S P) → Act W S MwError ⊤
  exit_all [] = pure tt
  exit_all (m ∷ ms) = do run_hook m.exit; exit_all ms

-- `catch_unwind` around the core
abbrev pub catch_core : {W S A : Type 0} → Ended MwError A × S × W → Ended MwError A × S × W
catch_core (panicked, s, w) = (err (rejected "core panicked"), s, w)
catch_core x = x

-- The context ends with the operation.
abbrev pub without_ctx : {W S E A : Type 0} → Option (Ended E A × S × W) → Option (Ended E A × W)
without_ctx none = none
without_ctx (some (e, s, w)) = some (e, w)
