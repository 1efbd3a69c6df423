-- ===== src/Precompiled/Agreement.antt =====
-- When a precompiled chain is the chain of the same middleware.
use mathlib.Core.List.{reverse-cons}
use proc_mw.Common.{⊤, ◌≡◌, refl, ap, sym, ◌∙◌, List, [], ◌∷◌, ◌++◌, map, reverse, map-reverse}
use proc_mw.Int.{ℤ}
use proc_mw.Effect.{Act, ◌>>◌, run_hook}
use proc_mw.Effect.Laws.{bind_assoc, bind-pure}
use proc_mw.Dispatch.{
  Ctx, MwError, Host, Mw, dyn, enter, exit, enter_all, exit_all, chain_exec_ctx, chain_exec,
}
use proc_mw.Precompiled.{enter_each, exit_each, compose_ctx, compose_chain}

module _ {W : Type 0} where
  -- The exit hooks of two middleware may run in either order.
  abbrev pub Commute : Mw W → Mw W → Type 0
  Commute a b =
      (run_hook {E = MwError} a.exit >> run_hook b.exit) ≡ (run_hook b.exit >> run_hook a.exit)

  abbrev pub CommuteWith : Mw W → List (Mw W) → Type 0
  CommuteWith m [] = ⊤
  CommuteWith m (x ∷ xs) = Commute m x × CommuteWith m xs

  abbrev pub AllCommute : List (Mw W) → Type 0
  AllCommute [] = ⊤
  AllCommute (m ∷ ms) = CommuteWith m ms × AllCommute ms

  exit_each-append :
      (xs : List (Mw W)) (m : Mw W) → exit_each (xs ++ m ∷ []) ≡ (exit_each xs >> run_hook m.exit)
  unfolding exit_each
  exit_each-append [] m = bind-pure (run_hook m.exit)
  exit_each-append (x ∷ xs) m =
      rw (exit_each-append xs m)
        (sym (bind_assoc (run_hook x.exit) (λ _. exit_each xs) (λ _. run_hook m.exit)))

  exit_each_after :
      (m : Mw W) (ms : List (Mw W))
      → CommuteWith m ms
      → (run_hook m.exit >> exit_each ms) ≡ (exit_each ms >> run_hook m.exit)
  unfolding exit_each
  exit_each_after m [] _ = bind-pure (run_hook m.exit)
  exit_each_after m (x ∷ xs) (c, cs) =
      sym (bind_assoc (run_hook m.exit) (λ _. run_hook x.exit) (λ _. exit_each xs))
      ∙ ap (λ (a : Act W Ctx MwError ⊤). a >> exit_each xs) c
      ∙ bind_assoc (run_hook x.exit) (λ _. run_hook m.exit) (λ _. exit_each xs)
      ∙ ap (λ (a : Act W Ctx MwError ⊤). run_hook x.exit >> a) (exit_each_after m xs cs)
      ∙ sym (bind_assoc (run_hook x.exit) (λ _. exit_each xs) (λ _. run_hook m.exit))

  exit_each-reverse : (ms : List (Mw W)) → AllCommute ms → exit_each (reverse ms) ≡ exit_each ms
  unfolding exit_each
  exit_each-reverse [] _ = refl
  exit_each-reverse (m ∷ ms) (c, cs) =
      rw (reverse-cons m ms) (exit_each-append (reverse ms) m)
      ∙ ap (λ (a : Act W Ctx MwError ⊤). a >> run_hook m.exit) (exit_each-reverse ms cs)
      ∙ sym (exit_each_after m ms c)

  exit_each-eq-exit_all : (ms : List (Mw W)) → exit_each ms ≡ exit_all (map dyn ms)
  unfolding exit_each exit_all exit
  exit_each-eq-exit_all [] = refl
  exit_each-eq-exit_all (m ∷ ms) = rw (exit_each-eq-exit_all ms)

module _ {W : Type 0} (host : Host W) where
  enter_each-eq-enter_all : (ms : List (Mw W)) → enter_each ms ≡ enter_all host (map dyn ms)
  unfolding enter_each enter_all enter
  enter_each-eq-enter_all [] = refl
  enter_each-eq-enter_all (m ∷ ms) = rw (enter_each-eq-enter_all ms)

  -- If the exit hooks of the middleware may run in either order, two by two, then the precompiled
  -- function does what the chain of the same middleware does: the same result, and the same shared
  -- state after it.
  pub compose_chain-eq-chain_exec :
      (ms : List (Mw W)) (core : Act W Ctx MwError ℤ) (x : ℤ) (w : W)
      → AllCommute ms
      → compose_chain ms core x w ≡ chain_exec host (map dyn ms) core x w
  unfolding compose_chain compose_ctx chain_exec chain_exec_ctx
  compose_chain-eq-chain_exec ms core x w commute =
      let exits : exit_each ms ≡ exit_all (reverse (map dyn ms)) =
        sym (exit_each-reverse ms commute)
        ∙ exit_each-eq-exit_all (reverse ms)
        ∙ ap exit_all (map-reverse dyn ms) in
      rw (enter_each-eq-enter_all ms, exits)
