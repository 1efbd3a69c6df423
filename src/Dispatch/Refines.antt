-- ===== src/Dispatch/Refines.antt =====
-- `chain_exec_ctx` is the onion of its nodes around the core, and chains nest.
use mathlib.Core.List.{map-append}
use proc_mw.Common.{
  ◌∙◌, ⊤, ◌≡◌, refl, ap, sym, fun_ext, List, [], ◌∷◌, ◌++◌, map, reverse, map-reverse,
}
use proc_mw.Int.{ℤ}
use proc_mw.Effect.{Ended, ok, err, panicked, Act, then_run, ◌>>=◌, ◌>>◌, run_hook}
use proc_mw.Effect.Laws.{bind_assoc}
use proc_mw.Onion.{Layer, onion}
use proc_mw.Onion.Laws.{onion-append}
use proc_mw.Onion.TwoPass.{enter_layers, exit_layers, two_pass-eq-onion}
use proc_mw.Dispatch.{
  Ctx, MwError, Host, Node, go_on, enter, exit, exit_all, set_output, get_output, enter_all,
  chain_exec_ctx,
}

module _ {W : Type 0} where
  then_restore :
      (r : Ended MwError ⊤ × Ctx × W) → then_run set_output (then_run (λ (_ : ⊤). get_output) r) ≡ r
  then_restore (ok u, c, w) = refl
  then_restore (err e, c, w) = refl
  then_restore (panicked, c, w) = refl

  -- Storing the output that was just read changes nothing.
  restore_output : (m : Act W Ctx MwError ⊤) → (m >> get_output >>= set_output) ≡ m
  restore_output m = fun_ext λ c. fun_ext λ w. then_restore (m c w)

module _ {W : Type 0} (host : Host W) where
  abbrev pub layer : Node W → Layer W Ctx MwError
  layer n = record { enter = enter host n >>= go_on; exit = run_hook (exit n) }

  enter_all-eq-enter_layers : (ns : List (Node W)) → enter_all host ns ≡ enter_layers (map layer ns)
  unfolding enter_all enter_layers
  enter_all-eq-enter_layers [] = refl
  enter_all-eq-enter_layers (n ∷ ns) =
      rw (← enter_all-eq-enter_layers ns)
        (sym (bind_assoc (enter host n) go_on (λ _. enter_all host ns)))

  exit_all-eq-exit_layers : (ns : List (Node W)) → exit_all ns ≡ exit_layers (map layer ns)
  unfolding exit_all exit_layers
  exit_all-eq-exit_layers [] = refl
  exit_all-eq-exit_layers (n ∷ ns) = rw (exit_all-eq-exit_layers ns)

  -- The loops over the nodes of a chain run its core inside the layers of its nodes, the first node
  -- outermost; the result is what the output holds when the last layer has been left.
  pub chain_exec_ctx-eq-onion :
      (nodes : List (Node W)) (core : Act W Ctx MwError ℤ)
      → chain_exec_ctx host nodes core
        ≡ (onion (map layer nodes) (core >>= set_output) >> get_output)
  unfolding chain_exec_ctx
  chain_exec_ctx-eq-onion nodes core =
      rw
        (
          ← two_pass-eq-onion (map layer nodes) (core >>= set_output),
          enter_all-eq-enter_layers nodes,
          exit_all-eq-exit_layers (reverse nodes),
          map-reverse layer nodes,
        )
        (simp bind_assoc)

  -- Running a chain of `xs` around the execution of a chain of `ys` is running the chain of both:
  -- the execution of a chain can serve as another chain's core.
  pub chain_exec_ctx-append :
      (xs ys : List (Node W)) (core : Act W Ctx MwError ℤ)
      → chain_exec_ctx host (xs ++ ys) core ≡ chain_exec_ctx host xs (chain_exec_ctx host ys core)
  chain_exec_ctx-append xs ys core =
      rw
        (
          chain_exec_ctx-eq-onion (xs ++ ys) core,
          chain_exec_ctx-eq-onion xs (chain_exec_ctx host ys core),
          chain_exec_ctx-eq-onion ys core,
          map-append,
          onion-append,
        )
        (ap (λ (m : Act W Ctx MwError ⊤). onion (map layer xs) m >> get_output)
          (sym (restore_output _)))

-- What one node does around the core of a chain.
abbrev pub wrap_node : {W : Type 0} → Host W → Node W → Act W Ctx MwError ℤ → Act W Ctx MwError ℤ
wrap_node host n inner = do
  enter host n >>= go_on
  v ← inner
  set_output v
  run_hook (exit n)
  get_output

module _ {W : Type 0} (host : Host W) where
  pub chain_exec_ctx-cons :
      (n : Node W) (ns : List (Node W)) (core : Act W Ctx MwError ℤ)
      → chain_exec_ctx host (n ∷ ns) core ≡ wrap_node host n (chain_exec_ctx host ns core)
  chain_exec_ctx-cons n ns core = chain_exec_ctx-append host (n ∷ []) ns core ∙ one_node
    where
      one_node :
          chain_exec_ctx host (n ∷ []) (chain_exec_ctx host ns core)
          ≡ wrap_node host n (chain_exec_ctx host ns core)
      one_node = unfold chain_exec_ctx enter_all exit_all in simp bind_assoc
