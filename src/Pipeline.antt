-- ===== src/Pipeline.antt =====
-- The first part of src/lib.rs: `Proc`, a core without middleware, the wrapper that logs it, and the pipeline
-- that a build with debug assertions wraps and any other build leaves bare. What is printed is the
-- list of lines, the last one first.
pub mod Bare
mod Tests
use proc_mw.Common.{Bool, Option, none, some, List, ◌∷◌, String, if◌then◌else◌}
use proc_mw.Int.{ℤ, pos, add_i32}
use proc_mw.Effect.{Ended, ok, err, panicked}

pub data Line : Type 0 where
  entered exited : String → ℤ → Line

-- `trait Proc`
pub record Proc : Type 0 where
  pub exec : ℤ → List Line → Ended ⊥ ℤ × List Line

-- How the program has been built
pub record Profile : Type 0 where
  pub debug_assertions : Bool
  pub overflow_checks : Bool

module _ (profile : Profile) where
  -- `x + 1` on an `i32`
  unfoldable pub add_one : ℤ → Ended ⊥ ℤ
  add_one x = elim (add_i32 profile.overflow_checks x (pos 1)) [ none ↦ panicked | some y ↦ ok y ]

  unfoldable pub add_proc : Proc
  add_proc = record { exec = λ x out. (add_one x, out) }

abbrev pub log_exit : String → Ended ⊥ ℤ × List Line → Ended ⊥ ℤ × List Line
log_exit tag (ok y, out) = (ok y, exited tag y ∷ out)
log_exit tag (err e, out) = absurd e
log_exit tag (panicked, out) = (panicked, out)

-- `Log`, around a `Proc`
unfoldable pub log : String → Proc → Proc
log tag inner = record { exec = λ x out. log_exit tag (inner.exec x (entered tag x ∷ out)) }

module _ (profile : Profile) where
  unfoldable pub build_pipeline : Proc
  unfolding add_proc log
  build_pipeline =
      if profile.debug_assertions then log "debug" (add_proc profile) else add_proc profile

  unfoldable pub through_pipeline : ℤ → List Line → Ended ⊥ ℤ × List Line
  unfolding build_pipeline
  through_pipeline x out = build_pipeline.exec x out

  unfoldable pub direct_bare : ℤ → List Line → Ended ⊥ ℤ × List Line
  unfolding add_one
  direct_bare x out = (add_one profile x, out)
