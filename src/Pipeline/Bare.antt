-- ===== src/Pipeline/Bare.antt =====
-- The pipeline of src/lib.rs and the bare call.
use proc_mw.Common.{◌≡◌, refl, Bool, true, false, List, ◌∷◌, ◌++◌, if◌then◌else◌, []}
use proc_mw.Int.{ℤ}
use proc_mw.Effect.{Ended, ok, err, panicked}
use proc_mw.Pipeline.{
  Line, entered, exited, Profile, add_proc, add_one, log, log_exit, build_pipeline,
  through_pipeline, direct_bare,
}

-- The lines of one call, by how it ends
abbrev pub lines_of : ℤ → Ended ⊥ ℤ → List Line
lines_of x (ok y) = exited "debug" y ∷ entered "debug" x ∷ []
lines_of x (err e) = absurd e
lines_of x panicked = entered "debug" x ∷ []

-- In each build the pipeline ends as the bare call does, by the same number or by a panic on overflow. With
-- debug assertions it prints a line before and, unless there was a panic, one after; without them nothing.
pub through_pipeline-eq-direct_bare :
    (profile : Profile) (x : ℤ) (out : List Line)
    → let (r, _) = direct_bare profile x out in
      through_pipeline profile x out
      ≡ (r, (if profile.debug_assertions then lines_of x r else []) ++ out)
unfolding through_pipeline build_pipeline log add_proc direct_bare
through_pipeline-eq-direct_bare profile x out = by_build profile.debug_assertions
  where
    logged :
        (r : Ended ⊥ ℤ) → log_exit "debug" (r, entered "debug" x ∷ out) ≡ (r, lines_of x r ++ out)
    logged (ok y) = refl
    logged (err e) = absurd e
    logged panicked = refl

    by_build :
        (b : Bool)
        → (if b then log "debug" (add_proc profile) else add_proc profile).exec x out
          ≡ (add_one profile x, (if b then lines_of x (add_one profile x) else []) ++ out)
    by_build true = logged (add_one profile x)
    by_build false = refl
