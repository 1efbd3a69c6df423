-- ===== src/Opaque/Tests.antt =====
-- Runs of the chains of src/opaque.rs over a request of one number, and its theorems at concrete
-- chains and requests.
use proc_mw.Common.{ℕ, ◌+◌, ◌≡◌, refl, some, [], ◌∷◌, map, arith, ltb, if◌then◌else◌}
use proc_mw.Int.{pos}
use proc_mw.Effect.{ok, err, Hook, run_hook}
use proc_mw.Onion.{onion}
use proc_mw.Opaque.{
  OpaqueNode, thin, stateful, continue, break, reject, OpaqueChain, opaque_reject, new_chain,
  to_node, builtin_mw, enter, exit, exit_thin, check_code, enter_all, exit_all, exec, exec_catch,
  retry_from, exec_retry,
}
use proc_mw.Opaque.Refines.{layer, exec-eq-onion}
use proc_mw.Opaque.Errors.{exec_stops}

-- A plugin that adds 1 on the way in and 10 on the way out.
abbrev bump : OpaqueNode ℕ ℕ
bump =
    thin
      (record { enter = λ r w. (pos 0, r + 1, w); exit = some (λ r w. (r + 10, w)); keepalive = 0 })

-- A node with a quota of its own, in the shared state.
abbrev twice : OpaqueNode ℕ ℕ
twice = stateful (record {
  enter = λ r w. (ok (if ltb w 2 then opaque_reject else pos 0), r, w + 1);
  exit = λ r w. (ok tt, r, w);
})

abbrev core : Hook ℕ ℕ ℕ
core r w = (ok r, r + 100, w)

abbrev chain : OpaqueChain ℕ ℕ
chain = new_chain (bump ∷ twice ∷ [])

run : Unit {0}
unfolding exec exec_catch retry_from exec_retry to_node builtin_mw enter_all exit_all enter exit
    exit_thin check_code
run = tt

results :
    (exec chain core 5 0 ≡ (err opaque_reject, 6, 1))
    × (exec chain core 5 2 ≡ (ok 6, 116, 3))
    × (exec_retry chain (λ r. r) core 2 5 0 ≡ (err opaque_reject, 5, 2))
    × (exec_retry chain (λ r. r) core 3 5 0 ≡ (ok 6, 116, 3))
    × (exec (new_chain (bump ∷ to_node break ∷ [])) core 5 0 ≡ (err (pos 1), 6, 0))
    × (exec (new_chain (bump ∷ to_node continue ∷ [])) core 5 0 ≡ (ok 6, 116, 0))
unfolding run
results = (refl, refl, refl, refl, refl, refl)

exec-eq-onion_example : exec chain core ≡ onion (map layer (bump ∷ twice ∷ [])) (run_hook core)
exec-eq-onion_example = exec-eq-onion chain core

exec_stops_example :
    exec (new_chain (bump ∷ to_node reject ∷ twice ∷ [])) core 5 0 ≡ (err opaque_reject, 6, 0)
unfolding run
exec_stops_example =
    exec_stops (bump ∷ []) (twice ∷ []) (to_node reject) core opaque_reject 5 0 refl refl
      (ground arith)
