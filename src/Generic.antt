-- ===== src/Generic.antt =====
-- src/generic.rs: a chain of plain functions over a context with any input type `R` and output type
-- `O`. On the way out the same functions run again, and their results are ignored.
pub mod Results
mod Tests
use proc_mw.Common.{ℕ, ⊤, Option, none, some, List, [], ◌∷◌, reverse}
use proc_mw.Effect.{Ended, ok, err, panicked, Act, Hook, pure, fail, panic, ◌>>=◌, ◌>>◌, run_hook}
use proc_mw.Dispatch.{Flow, MwError, rejected, go_on}

pub record GenericCtx (R O : Type 0) : Type 0 where
  pub input : R
  pub output : Option O
  pub deadline : Option ℕ

abbrev pub new_ctx : {R O : Type 0} → R → GenericCtx R O
new_ctx input = record { input = input; output = none; deadline = none }

abbrev pub FnMw : Type 0 → Type 0 → Type 0 → Type 0
FnMw W R O = Act W (GenericCtx R O) MwError Flow

-- `let _ = m(&mut ctx)`
abbrev pub ignored : {E A : Type 0} → Ended E A → Ended ⊥ ⊤
ignored (ok _) = ok tt
ignored (err _) = ok tt
ignored panicked = panicked

module _ {W R O : Type 0} where
  unfoldable pub again : FnMw W R O → Hook W (GenericCtx R O) ⊤
  again m c w = let (r, c', w') = m c w in (ignored r, c', w')

  unfoldable pub enter_all : List (FnMw W R O) → Act W (GenericCtx R O) MwError ⊤
  enter_all [] = pure tt
  enter_all (m ∷ ms) = do flow ← m; go_on flow; enter_all ms

  unfoldable pub exit_all : List (FnMw W R O) → Act W (GenericCtx R O) MwError ⊤
  exit_all [] = pure tt
  exit_all (m ∷ ms) = do run_hook (again m); exit_all ms

  abbrev pub set_output : O → Act W (GenericCtx R O) MwError ⊤
  set_output v c w = (ok tt, record c { output = some v }, w)

  -- `take().expect(..)`
  abbrev pub take_output : Act W (GenericCtx R O) MwError O
  take_output c w = elim c.output [
    | none ↦ (panicked, record c { output = none }, w)
    | some v ↦ (ok v, record c { output = none }, w)
  ]

  unfoldable pub exec_ctx :
      List (FnMw W R O) → Act W (GenericCtx R O) MwError O → Act W (GenericCtx R O) MwError O
  exec_ctx nodes core = do
    enter_all nodes
    v ← core
    set_output v
    exit_all (reverse nodes)
    take_output

  unfoldable pub exec :
      List (FnMw W R O) → Act W (GenericCtx R O) MwError O → R → W → Ended MwError O × W
  exec nodes core input w = let (r, _, w') = exec_ctx nodes core (new_ctx input) w in (r, w')

  unfoldable pub exec_catch :
      List (FnMw W R O) → Act W (GenericCtx R O) MwError O → R → W → Ended MwError O × W
  exec_catch nodes core input w =
      let (r, w') = exec nodes core input w in
      elim r [ panicked ↦ (err (rejected "core panicked"), w') | r' ↦ (r', w') ]
