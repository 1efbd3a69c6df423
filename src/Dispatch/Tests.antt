-- ===== src/Dispatch/Tests.antt =====
-- Runs of small chains, and the theorems of src/dispatch.rs at concrete requests.
use proc_mw.Common.{ℕ, ◌+◌, ◌≡◌, refl, true, false, List, [], ◌∷◌, map}
use proc_mw.Int.{ℤ, pos, negsuc, ◌+ℤ◌, wrap, add_i32}
use proc_mw.Effect.{ok, err, panicked, Act, ◌>>=◌, ◌>>◌}
use proc_mw.Onion.{onion}
use proc_mw.Dispatch.{
  Ctx, continue, break, MwError, halted, rejected, Host, Node, builtin, fn_ptr, dyn, add, cap,
  enter, enter_builtin, exit, exit_all, set_output, get_output, enter_all, chain_exec_ctx,
  chain_exec,
}
use proc_mw.Dispatch.Refines.{layer, chain_exec_ctx-eq-onion}

-- The shared state is a clock that ticks at each reading.
abbrev debug : Host ℕ
debug = record { overflow_checks = true; now = λ w. (w, w + 1) }

abbrev release : Host ℕ
release = record { overflow_checks = false; now = λ w. (w, w + 1) }

-- A node of the host that doubles the output on the way out, and counts its exits in the state.
abbrev doubler : Node ℕ
doubler = dyn (record {
  enter = λ c w. (ok continue, c, w);
  exit = λ c w. (ok tt, record c { output = c.output +ℤ c.output }, w + 100);
})

abbrev stopper : Node ℕ
stopper = fn_ptr (λ c w. (ok break, c, w + 1))

abbrev core : Act ℕ Ctx MwError ℤ
core c w = (ok (c.input +ℤ pos 1), c, w)

abbrev broken : Act ℕ Ctx MwError ℤ
broken c w = (err (rejected "downstream"), c, w + 7)

abbrev standard : List (Node ℕ)
standard = builtin (cap (pos 50)) ∷ doubler ∷ builtin (add (pos 5)) ∷ []

run : Unit {0}
unfolding chain_exec chain_exec_ctx enter_all exit_all enter exit enter_builtin add_i32 ◌+ℤ◌ wrap
run = tt

-- 10 + 5 + 1, doubled on the way out; and 50 again where the cap is exceeded.
results :
    (chain_exec debug standard core (pos 10) 0 ≡ (ok (pos 32), 100))
    × (chain_exec debug standard core (pos 30) 0 ≡ (ok (pos 50), 100))
    × (chain_exec debug (stopper ∷ standard) core (pos 30) 0 ≡ (err halted, 1))
    × (chain_exec debug standard broken (pos 30) 0 ≡ (err (rejected "downstream"), 7))
unfolding run
results = (refl, refl, refl, refl)

-- `i32::MAX + 1`
overflow :
    (chain_exec debug (builtin (add (pos 1)) ∷ []) core (pos 2_147_483_647) 0 ≡ (panicked, 0))
    × (chain_exec release (builtin (add (pos 1)) ∷ []) core (pos 2_147_483_647) 0
        ≡ (ok (negsuc 2_147_483_646), 0))
unfolding run
overflow = (refl, refl)

chain_exec_ctx-eq-onion_example :
    chain_exec_ctx debug standard core
    ≡ (onion (map (layer debug) standard) (core >>= set_output) >> get_output)
chain_exec_ctx-eq-onion_example = chain_exec_ctx-eq-onion debug standard core
