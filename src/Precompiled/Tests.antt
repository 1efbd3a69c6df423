-- ===== src/Precompiled/Tests.antt =====
-- Precompiled chains at concrete requests.
use proc_mw.Common.{ℕ, ◌+◌, ◌≡◌, refl, map, true, [], ◌∷◌}
use proc_mw.Int.{ℤ, pos, ◌+ℤ◌}
use proc_mw.Effect.{ok, Act}
use proc_mw.Dispatch.{
  Ctx, MwError, Host, Mw, dyn, continue, enter, exit, enter_all, exit_all, chain_exec_ctx,
  chain_exec,
}
use proc_mw.Precompiled.{enter_each, exit_each, compose_ctx, compose_chain}
use proc_mw.Precompiled.Agreement.{compose_chain-eq-chain_exec}

abbrev host : Host ℕ
host = record { overflow_checks = true; now = λ w. (w, w + 1) }

abbrev core : Act ℕ Ctx MwError ℤ
core c w = (ok (c.input +ℤ pos 1), c, w)

-- One counts its exits; one doubles the output, and one adds 1 to it.
abbrev counting : Mw ℕ
counting = record { enter = λ c w. (ok continue, c, w); exit = λ c w. (ok tt, c, w + 1) }

abbrev doubling : Mw ℕ
doubling = record {
  enter = λ c w. (ok continue, c, w);
  exit = λ c w. (ok tt, record c { output = c.output +ℤ c.output }, w);
}

abbrev adding : Mw ℕ
adding = record {
  enter = λ c w. (ok continue, c, w);
  exit = λ c w. (ok tt, record c { output = c.output +ℤ pos 1 }, w);
}

run : Unit {0}
unfolding ◌+ℤ◌ enter_each exit_each compose_ctx compose_chain enter exit enter_all exit_all
    chain_exec_ctx chain_exec
run = tt

-- The order of the exit hooks shows where they do not commute.
orders :
    (compose_chain (doubling ∷ adding ∷ []) core (pos 4) 0 ≡ (ok (pos 11), 0))
    × (chain_exec host (dyn doubling ∷ dyn adding ∷ []) core (pos 4) 0 ≡ (ok (pos 12), 0))
unfolding run
orders = (refl, refl)

compose_chain-eq-chain_exec_example :
    compose_chain (counting ∷ doubling ∷ []) core (pos 4) 0
    ≡ chain_exec host (map dyn (counting ∷ doubling ∷ [])) core (pos 4) 0
compose_chain-eq-chain_exec_example =
    compose_chain-eq-chain_exec host (counting ∷ doubling ∷ []) core (pos 4) 0
      ((refl, tt), (tt, tt))
