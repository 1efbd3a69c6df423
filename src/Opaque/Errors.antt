-- ===== src/Opaque/Errors.antt =====
-- Codes that a type-erased chain returns: where they come from, and what runs on the way.
use proc_mw.Common.{◌≡◌, refl, sym, ap, ◌≢◌, ◌↔◌, ⊤, List, [], ◌∷◌, ◌++◌, reverse, arith, zero, suc}
use proc_mw.Int.{ℤ, pos, negsuc}
use proc_mw.Effect.{Ended, ok, err, Hook, pure, ◌>>=◌, ◌>>◌, run_hook}
use proc_mw.Effect.Laws.{
  bind_assoc, NeverErrs, run_hook-NeverErrs, bind-NeverErrs, bind-eq-err_iff, Avoids, bind-Avoids,
}
use proc_mw.Opaque.{
  OpaqueNode, OpaqueChain, new_chain, enter, exit, check_code, enter_all, exit_all, exec,
}

module _ {W R : Type 0} where
  exit_all-NeverErrs : (ns : List (OpaqueNode W R)) → NeverErrs (exit_all ns)
  unfolding exit_all
  exit_all-NeverErrs [] = λ r w e h. cc
  exit_all-NeverErrs (n ∷ ns) =
      bind-NeverErrs (run_hook (exit n)) (λ _. exit_all ns) (run_hook-NeverErrs (exit n))
        (λ _. exit_all-NeverErrs ns)

  -- A chain returns a code exactly when entering its nodes does, and then with the request and the
  -- shared state as the nodes left them: the core and the exit hooks have not run.
  pub exec-eq-err_iff :
      {O : Type 0} (chain : OpaqueChain W R) (core : Hook W R O) (r : R) (w : W) (code : ℤ) (r' : R)
      (w' : W)
      → (exec chain core r w ≡ (err code, r', w'))
        ↔ (enter_all chain.nodes r w ≡ (err code, r', w'))
  unfolding exec
  exec-eq-err_iff {O} chain core r w code r' w' =
      bind-eq-err_iff (enter_all chain.nodes)
        (λ _. run_hook core >>= λ out. exit_all (reverse chain.nodes) >> pure out)
        (λ _.
          bind-NeverErrs (run_hook core) (λ out. exit_all (reverse chain.nodes) >> pure out)
            (run_hook-NeverErrs core)
            (λ out.
              bind-NeverErrs (exit_all (reverse chain.nodes)) (λ _. pure out)
                (exit_all-NeverErrs (reverse chain.nodes)) (λ _ s v e h. cc)))
        r w code r' w'

  pub enter_all-cons :
      (n : OpaqueNode W R) (ns : List (OpaqueNode W R))
      → enter_all (n ∷ ns) ≡ (run_hook (enter n) >>= check_code >> enter_all ns)
  unfolding enter_all
  enter_all-cons n ns = sym (bind_assoc (run_hook (enter n)) check_code (λ _. enter_all ns))

  pub enter_all-append :
      (xs ys : List (OpaqueNode W R)) → enter_all (xs ++ ys) ≡ (enter_all xs >> enter_all ys)
  enter_all-append [] ys = unfold enter_all in refl
  enter_all-append (x ∷ xs) ys =
      rw (enter_all-cons x (xs ++ ys), enter_all-cons x xs, enter_all-append xs ys)
        (sym
          (bind_assoc (run_hook (enter x) >>= check_code) (λ _. enter_all xs) (λ _. enter_all ys)))

  check_code_stops :
      (code : ℤ) (r : R) (w : W) → code ≢ pos 0 → check_code {W = W} code r w ≡ (err code, r, w)
  unfolding check_code
  check_code_stops (pos zero) r w ne = absurd (ne refl)
  check_code_stops (pos (suc n)) r w ne = refl
  check_code_stops (negsuc n) r w ne = refl

  -- If the nodes of `before` continue and the next node returns a code other than 0, the chain
  -- returns this code at once, whatever nodes come after it and whatever the core is.
  pub exec_stops :
      {O : Type 0} (before after : List (OpaqueNode W R)) (n : OpaqueNode W R) (core : Hook W R O)
      (code : ℤ) (r : R) (w : W) {r₁ r₂ : R} {w₁ w₂ : W}
      → enter_all before r w ≡ (ok tt, r₁, w₁)
      → enter n r₁ w₁ ≡ (ok code, r₂, w₂)
      → code ≢ pos 0
      → exec (new_chain (before ++ n ∷ after)) core r w ≡ (err code, r₂, w₂)
  exec_stops before after n core code r w p q ne =
      (exec-eq-err_iff (new_chain (before ++ n ∷ after)) core r w code _ _).1 (
        rw (
          enter_all-append before (n ∷ after),
          p,
          enter_all-cons n after,
          q,
          check_code_stops code _ _ ne,
        ))

  check_code-Avoids : (code : ℤ) → Avoids {W = W} {S = R} (pos 0) (check_code code)
  unfolding check_code
  check_code-Avoids (pos zero) r w h = cc
  check_code-Avoids (pos (suc n)) r w h = ground arith
  check_code-Avoids (negsuc n) r w h = cc

  enter_all-Avoids : (ns : List (OpaqueNode W R)) → Avoids (pos 0) (enter_all ns)
  enter_all-Avoids [] = unfold enter_all in λ r w h. cc
  enter_all-Avoids (n ∷ ns) = rw (enter_all-cons n ns) (
      bind-Avoids (pos 0) (run_hook (enter n) >>= check_code) (λ _. enter_all ns)
        (bind-Avoids (pos 0) (run_hook (enter n)) check_code
          (λ r w. run_hook-NeverErrs (enter n) r w (pos 0)) check_code-Avoids)
        (λ _. enter_all-Avoids ns))

  -- The code 0, which lets a request through, is never returned as an error.
  pub exec-ne-err-zero :
      {O : Type 0} (chain : OpaqueChain W R) (core : Hook W R O) (r : R) (w : W)
      → (exec chain core r w).0 ≢ err (pos 0)
  exec-ne-err-zero chain core r w h = enter_all-Avoids chain.nodes r w (
      ap (λ (o : Ended ℤ ⊤ × R × W). o.0)
        ((exec-eq-err_iff chain core r w (pos 0) _ _).0 (pair _ h)))
    where
      pair : {O : Type 0} (o : Ended ℤ O × R × W) → o.0 ≡ err (pos 0) → o ≡ (err (pos 0), o.1, o.2)
      pair {O} o e = ap (λ (x : Ended ℤ O). (x, o.1, o.2)) e
