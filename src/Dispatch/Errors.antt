-- ===== src/Dispatch/Errors.antt =====
-- Errors of a chain: where they come from, and what runs on the way.
use proc_mw.Common.{◌≡◌, refl, sym, ◌↔◌, List, [], ◌∷◌, ◌++◌, reverse}
use proc_mw.Int.{ℤ}
use proc_mw.Effect.{ok, err, Act, ◌>>=◌, ◌>>◌, run_hook}
use proc_mw.Effect.Laws.{bind_assoc, NeverErrs, run_hook-NeverErrs, bind-NeverErrs, bind-eq-err_iff}
use proc_mw.Dispatch.{
  Ctx, MwError, Host, Node, go_on, enter, exit, exit_all, set_output, get_output, enter_all,
  chain_exec_ctx,
}

module _ {W : Type 0} where
  pub exit_all-NeverErrs : (ns : List (Node W)) → NeverErrs (exit_all ns)
  unfolding exit_all
  exit_all-NeverErrs [] = λ c w e h. cc
  exit_all-NeverErrs (n ∷ ns) =
      bind-NeverErrs (run_hook (exit n)) (λ _. exit_all ns) (run_hook-NeverErrs (exit n))
        (λ _. exit_all-NeverErrs ns)

  -- What `chain_exec_ctx` does once the core has returned `v`.
  abbrev finish : List (Node W) → ℤ → Act W Ctx MwError ℤ
  finish nodes v = do set_output v; exit_all (reverse nodes); get_output

  finish-NeverErrs : (nodes : List (Node W)) (v : ℤ) → NeverErrs (finish nodes v)
  finish-NeverErrs nodes v =
      bind-NeverErrs (set_output v) (λ _. exit_all (reverse nodes) >> get_output) (λ c w e h. cc)
        (λ _.
          bind-NeverErrs (exit_all (reverse nodes)) (λ _. get_output)
            (exit_all-NeverErrs (reverse nodes)) (λ _ c w e h. cc))

module _ {W : Type 0} (host : Host W) where
  chain_exec_ctx_split :
      (nodes : List (Node W)) (core : Act W Ctx MwError ℤ)
      → chain_exec_ctx host nodes core ≡ (enter_all host nodes >> core >>= finish nodes)
  unfolding chain_exec_ctx
  chain_exec_ctx_split nodes core =
      sym (bind_assoc (enter_all host nodes) (λ _. core) (finish nodes))

  pub enter_all-cons :
      (n : Node W) (ns : List (Node W))
      → enter_all host (n ∷ ns) ≡ (enter host n >>= go_on >> enter_all host ns)
  unfolding enter_all
  enter_all-cons n ns = sym (bind_assoc (enter host n) go_on (λ _. enter_all host ns))

  enter_all-append :
      (xs ys : List (Node W)) → enter_all host (xs ++ ys) ≡ (enter_all host xs >> enter_all host ys)
  enter_all-append [] ys = unfold enter_all in refl
  enter_all-append (x ∷ xs) ys =
      rw (enter_all-cons x (xs ++ ys), enter_all-cons x xs, enter_all-append xs ys)
        (sym
          (bind_assoc (enter host x >>= go_on) (λ _. enter_all host xs) (λ _. enter_all host ys)))

  -- A chain returns an error exactly when entering its nodes or the core does, and it then leaves
  -- the context and all shared state as these left them: no exit hook runs on an error, and no exit
  -- hook makes one.
  pub chain_exec_ctx-eq-err_iff :
      (nodes : List (Node W)) (core : Act W Ctx MwError ℤ) (c : Ctx) (w : W) (e : MwError)
      (c' : Ctx) (w' : W)
      → (chain_exec_ctx host nodes core c w ≡ (err e, c', w'))
        ↔ ((enter_all host nodes >> core) c w ≡ (err e, c', w'))
  chain_exec_ctx-eq-err_iff nodes core c w e c' w' = rw (chain_exec_ctx_split nodes core) (
      bind-eq-err_iff (enter_all host nodes >> core) (finish nodes) (finish-NeverErrs nodes) c w e
        c' w')

  -- If the nodes of `before` let a request through and the next node stops it, by an error or by
  -- `Flow::Break` (which is the error `Halted`), then the chain returns this error with the state
  -- that the node left, whatever nodes come after it and whatever the core is.
  pub chain_exec_ctx_stops :
      (before after : List (Node W)) (n : Node W) (core : Act W Ctx MwError ℤ) (e : MwError)
      (c : Ctx) (w : W) {c₁ c₂ : Ctx} {w₁ w₂ : W}
      → enter_all host before c w ≡ (ok tt, c₁, w₁)
      → (enter host n >>= go_on) c₁ w₁ ≡ (err e, c₂, w₂)
      → chain_exec_ctx host (before ++ n ∷ after) core c w ≡ (err e, c₂, w₂)
  chain_exec_ctx_stops before after n core e c w p q =
      (chain_exec_ctx-eq-err_iff (before ++ n ∷ after) core c w e _ _).1
        (rw (enter_all-append before (n ∷ after), p, enter_all-cons n after, q))
