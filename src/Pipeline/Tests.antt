-- ===== src/Pipeline/Tests.antt =====
-- The pipeline of src/lib.rs in two builds, at a number and at the end of the `i32`s.
use proc_mw.Common.{◌-◌, ◌^◌, ◌≡◌, refl, true, false, [], ◌∷◌}
use proc_mw.Int.{pos, negsuc, ◌+ℤ◌, add_i32, wrap}
use proc_mw.Effect.{ok, panicked}
use proc_mw.Pipeline.{
  Profile, entered, exited, add_one, add_proc, log, build_pipeline, through_pipeline,
}

abbrev debug : Profile
debug = record { debug_assertions = true; overflow_checks = true }

abbrev release : Profile
release = record { debug_assertions = false; overflow_checks = false }

runs :
    (through_pipeline debug (pos 4) []
      ≡ (ok (pos 5), exited "debug" (pos 5) ∷ entered "debug" (pos 4) ∷ []))
    × (through_pipeline debug (pos (2 ^ 31 - 1)) []
        ≡ (panicked, entered "debug" (pos (2 ^ 31 - 1)) ∷ []))
    × (through_pipeline release (pos (2 ^ 31 - 1)) [] ≡ (ok (negsuc (2 ^ 31 - 1)), []))
unfolding add_one add_proc log build_pipeline through_pipeline add_i32 wrap ◌+ℤ◌
runs = (refl, refl, refl)
