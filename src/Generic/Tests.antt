-- ===== src/Generic/Tests.antt =====
-- A run of a generic chain, and its theorem at a concrete request.
use proc_mw.Common.{ℕ, ◌+◌, ◌≡◌, refl, [], ◌∷◌, ltb, if◌then◌else◌}
use proc_mw.Effect.{ok, err, Act, ◌>>◌}
use proc_mw.Dispatch.{MwError, halted, continue, break}
use proc_mw.Generic.{GenericCtx, new_ctx, FnMw, again, enter_all, exit_all, exec_ctx, exec}
use proc_mw.Generic.Results.{AllTame, exec-eq-core}

-- It doubles the input, counts its runs, and stops inputs over 100.
abbrev doubling : FnMw ℕ ℕ ℕ
doubling c w = (
  ok (if ltb 100 c.input then break else continue),
  record c { input = c.input + c.input },
  w + 1,
)

abbrev core : Act ℕ (GenericCtx ℕ ℕ) MwError ℕ
core c w = (ok (c.input + 1), c, w)

run : Unit {0}
unfolding exec exec_ctx enter_all exit_all again
run = tt

-- Each function runs twice for a request that passes.
results :
    (exec (doubling ∷ doubling ∷ []) core 5 0 ≡ (ok 21, 4))
    × (exec (doubling ∷ doubling ∷ []) core 90 0 ≡ (err halted, 2))
unfolding run
results = (refl, refl)

tame : AllTame (doubling ∷ doubling ∷ [])
tame = ((λ c w. (λ h. cc, refl)), ((λ c w. (λ h. cc, refl)), tt))

exec-eq-core_example :
    (exec (doubling ∷ doubling ∷ []) core 5 0).0
    ≡ ((enter_all (doubling ∷ doubling ∷ []) >> core) (new_ctx 5) 0).0
exec-eq-core_example = exec-eq-core (doubling ∷ doubling ∷ []) core 5 0 tame
