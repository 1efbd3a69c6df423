-- ===== src/Async/Typed/Panics.antt =====
-- Which panics `exec_catch` catches.
use proc_mw.Common.{ℕ, suc, ◌≡◌, refl, ap, ◌∙◌, Option, some, List, ◌∷◌}
use proc_mw.Int.{ℤ}
use proc_mw.Effect.{Ended, ok, err, panicked, Act}
use proc_mw.Async.{Poll, ready, block_on, go_on_polling, advance, begin_each, finish_by, loop_then}
use proc_mw.Async.Middleware.{
  each, catch_core, AsyncMw, passed, caught, call_then, catching_stage, without_ctx,
}
use proc_mw.Dispatch.{Ctx, new_ctx, Flow, MwError, rejected}
use proc_mw.Async.Typed.{core_and_exits, new_chain, catch_future, exec_catch}

module _ {W S P : Type 0} (poll : P → S → W → Poll P MwError Flow × S × W) (m : AsyncMw W S P)
    (s : S) (w : W) where
  first_poll : Ended ⊥ P × S × W → Poll P MwError Flow × S × W
  first_poll x = elim x.0 [
    | ok p ↦ poll p x.1 x.2
    | err e ↦ absurd e
    | panicked ↦ (ready panicked, x.1, x.2)
  ]

  call_then-first_poll : call_then poll m s w ≡ first_poll (m.call s w)
  unfolding call_then first_poll
  call_then-first_poll = refl

module _ {W P : Type 0} (idle : W → W) (n : ℕ) (m : AsyncMw W Ctx P) (ms : List (AsyncMw W Ctx P))
    (core : Act W Ctx MwError ℤ) (input : ℤ) (w : W) where
  abbrev catching : P → Ctx → W → Poll P MwError Flow × Ctx × W
  catching p c v = caught (m.poll p c v)

  first : Poll P MwError Flow × Ctx × W → Option (Ended MwError ℤ × W)
  first x = without_ctx (
      go_on_polling idle (catch_future (new_chain (m ∷ ms)) core) n (
        finish_by (core_and_exits (m ∷ ms) (λ s v. catch_core (core s v))) (
          advance (begin_each (each catching_stage ms)) (catching_stage m) (each catching_stage ms)
            (passed x))))

  exec_catch-cons :
      exec_catch idle (suc n) (new_chain (m ∷ ms)) core input w
      ≡ first (call_then catching m (new_ctx input) w)
  unfolding first exec_catch block_on catch_future loop_then begin_each catching_stage
  exec_catch-cons = refl

  -- `exec_catch` ends with an error if the future of the first middleware panics in its first poll.
  pub exec_catch_catches :
      {p : P} {c c' : Ctx} {w₁ w₂ : W}
      → m.call (new_ctx input) w ≡ (ok p, c, w₁)
      → m.poll p c w₁ ≡ (ready panicked, c', w₂)
      → exec_catch idle (suc n) (new_chain (m ∷ ms)) core input w
        ≡ some (err (rejected "middleware panicked"), w₂)
  unfolding first first_poll
  exec_catch_catches h q =
      exec_catch-cons
      ∙ ap first (
          call_then-first_poll catching m (new_ctx input) w
          ∙ ap (first_poll catching m (new_ctx input) w) h
          ∙ ap caught q)

  -- `exec_catch` ends with a panic if the call of the first middleware panics, before it has
  -- returned a future.
  pub exec_catch_misses :
      {c : Ctx} {w₁ : W}
      → m.call (new_ctx input) w ≡ (panicked, c, w₁)
      → exec_catch idle (suc n) (new_chain (m ∷ ms)) core input w ≡ some (panicked, w₁)
  unfolding first first_poll
  exec_catch_misses h =
      exec_catch-cons
      ∙ ap first (
          call_then-first_poll catching m (new_ctx input) w
          ∙ ap (first_poll catching m (new_ctx input) w) h)
