-- ===== src/Opaque/Refines.antt =====
-- `exec` of a type-erased chain is the onion of its nodes around the core.
use proc_mw.Common.{◌≡◌, refl, sym, List, [], ◌∷◌, map, reverse, map-reverse}
use proc_mw.Int.{ℤ}
use proc_mw.Effect.{Hook, ◌>>=◌, run_hook}
use proc_mw.Effect.Laws.{bind_assoc}
use proc_mw.Onion.{Layer, onion}
use proc_mw.Onion.TwoPass.{enter_layers, exit_layers, two_pass-eq-onion}
use proc_mw.Opaque.{OpaqueNode, OpaqueChain, enter, exit, check_code, enter_all, exit_all, exec}

module _ {W R : Type 0} where
  abbrev pub layer : OpaqueNode W R → Layer W R ℤ
  layer n = record { enter = run_hook (enter n) >>= check_code; exit = run_hook (exit n) }

  enter_all-eq-enter_layers :
      (ns : List (OpaqueNode W R)) → enter_all ns ≡ enter_layers (map layer ns)
  unfolding enter_all enter_layers
  enter_all-eq-enter_layers [] = refl
  enter_all-eq-enter_layers (n ∷ ns) =
      rw (← enter_all-eq-enter_layers ns)
        (sym (bind_assoc (run_hook (enter n)) check_code (λ _. enter_all ns)))

  exit_all-eq-exit_layers : (ns : List (OpaqueNode W R)) → exit_all ns ≡ exit_layers (map layer ns)
  unfolding exit_all exit_layers
  exit_all-eq-exit_layers [] = refl
  exit_all-eq-exit_layers (n ∷ ns) = rw (exit_all-eq-exit_layers ns)

  -- The two loops of `exec` run the core inside the layers of the nodes, the first node outermost.
  pub exec-eq-onion :
      {O : Type 0} (chain : OpaqueChain W R) (core : Hook W R O)
      → exec chain core ≡ onion (map layer chain.nodes) (run_hook core)
  unfolding exec
  exec-eq-onion chain core = rw (
    ← two_pass-eq-onion (map layer chain.nodes) (run_hook core),
    enter_all-eq-enter_layers chain.nodes,
    exit_all-eq-exit_layers (reverse chain.nodes),
    map-reverse layer chain.nodes,
  )
