-- ===== src/Generic/Results.antt =====
-- What a generic chain returns.
use proc_mw.Common.{⊤, ◌≡◌, refl, ap, sym, ◌∙◌, ◌≢◌, some, List, [], ◌∷◌, ◌++◌, reverse, arith}
use proc_mw.Effect.{Ended, ok, err, panicked, Act, then_run, raise_none, ◌>>=◌, ◌>>◌, run_hook}
use mathlib.Core.List.{reverse-cons}
use proc_mw.Effect.Laws.{bind_assoc}
use proc_mw.Dispatch.{MwError, Flow}
use proc_mw.Generic.{
  GenericCtx, new_ctx, FnMw, again, ignored, enter_all, exit_all, set_output, take_output, exec_ctx,
  exec,
}

module _ {W R O : Type 0} where
  -- A function that neither panics nor touches the output.
  abbrev pub IsTame : FnMw W R O → Type 0
  IsTame m = (c : GenericCtx R O) (w : W) → ((m c w).0 ≢ panicked) × ((m c w).1.output ≡ c.output)

  abbrev pub AllTame : List (FnMw W R O) → Type 0
  AllTame [] = ⊤
  AllTame (m ∷ ms) = IsTame m × AllTame ms

  AllTame-append :
      (xs : List (FnMw W R O)) (m : FnMw W R O) → AllTame xs → IsTame m → AllTame (xs ++ m ∷ [])
  AllTame-append [] m _ h = (h, tt)
  AllTame-append (x ∷ xs) m (t, ts) h = (t, AllTame-append xs m ts h)

  AllTame-reverse : (ms : List (FnMw W R O)) → AllTame ms → AllTame (reverse ms)
  AllTame-reverse [] _ = tt
  AllTame-reverse (m ∷ ms) (t, ts) =
      rw (reverse-cons m ms) (AllTame-append (reverse ms) m (AllTame-reverse ms ts) t)

  again_tame :
      (m : FnMw W R O) (c : GenericCtx R O) (w : W)
      → IsTame m
      → let (r, c', w') = run_hook {E = MwError} (again m) c w in
        (r ≡ ok tt) × (c'.output ≡ c.output)
  unfolding again
  again_tame m c w h = after (m c w) (h c w).0 (h c w).1
    where
      after :
          (r : Ended MwError Flow × GenericCtx R O × W)
          → r.0 ≢ panicked
          → r.1.output ≡ c.output
          → let (q, c', w') = raise_none {E = MwError} (ignored r.0, r.1, r.2) in
            (q ≡ ok tt) × (c'.output ≡ c.output)
      after (ok _, c', w') np o = (refl, o)
      after (err _, c', w') np o = (refl, o)
      after (panicked, c', w') np o = absurd (np refl)

  exit_all_tame :
      (ms : List (FnMw W R O)) (c : GenericCtx R O) (w : W)
      → AllTame ms
      → ((exit_all ms c w).0 ≡ ok tt) × ((exit_all ms c w).1.output ≡ c.output)
  unfolding exit_all
  exit_all_tame [] c w _ = (refl, refl)
  exit_all_tame (m ∷ ms) c w (t, ts) =
      after (run_hook (again m) c w) (again_tame m c w t) (λ c' w'. exit_all_tame ms c' w' ts)
    where
      after :
          (x : Ended MwError ⊤ × GenericCtx R O × W)
          → (x.0 ≡ ok tt) × (x.1.output ≡ c.output)
          → ((c' : GenericCtx R O) (w' : W)
              → ((exit_all ms c' w').0 ≡ ok tt) × ((exit_all ms c' w').1.output ≡ c'.output))
          → let y = then_run (λ (_ : ⊤). exit_all ms) x in (y.0 ≡ ok tt) × (y.1.output ≡ c.output)
      after (ok _, c', w') (_, same) ih = ((ih c' w').0, (ih c' w').1 ∙ same)
      after (err e, c', w') (bad, _) ih = absurd (ground arith)
      after (panicked, c', w') (bad, _) ih = absurd (ground arith)

  -- Let none of the functions panic or write the output, on any context. Then the chain returns
  -- exactly what entering the functions and running the core returns: the value of the core, the error
  -- that stopped the request, or the panic of the core. The second run of the functions changes nothing
  -- of this, and the output that `exec` expects at the end is there.
  pub exec-eq-core :
      (nodes : List (FnMw W R O)) (core : Act W (GenericCtx R O) MwError O) (input : R) (w : W)
      → AllTame nodes
      → (exec nodes core input w).0 ≡ ((enter_all nodes >> core) (new_ctx input) w).0
  unfolding exec exec_ctx
  exec-eq-core nodes core input w tame =
      ap (λ (m : Act W (GenericCtx R O) MwError O). (m (new_ctx input) w).0)
        (sym (bind_assoc (enter_all nodes) (λ _. core) finish))
      ∙ after ((enter_all nodes >> core) (new_ctx input) w)
          (λ c' w'. exit_all_tame (reverse nodes) c' w' (AllTame-reverse nodes tame))
    where
      finish : O → Act W (GenericCtx R O) MwError O
      finish v = set_output v >>= λ _. exit_all (reverse nodes) >> take_output

      taken :
          (v : O) (x : Ended MwError ⊤ × GenericCtx R O × W)
          → (x.0 ≡ ok tt) × (x.1.output ≡ some v)
          → (then_run (λ (_ : ⊤). take_output {W = W} {R = R} {O = O}) x).0 ≡ ok v
      taken v (ok _, c', w') (_, o) = ground (arith, o)
      taken v (err e, c', w') (bad, _) = absurd (ground arith)
      taken v (panicked, c', w') (bad, _) = absurd (ground arith)

      after :
          (r : Ended MwError O × GenericCtx R O × W)
          → ((c' : GenericCtx R O) (w' : W)
              → ((exit_all (reverse nodes) c' w').0 ≡ ok tt)
                × ((exit_all (reverse nodes) c' w').1.output ≡ c'.output))
          → (then_run finish r).0 ≡ r.0
      after (ok v, c', w') done =
          let c'' : GenericCtx R O = record c' { output = some v } in
          taken v (exit_all (reverse nodes) c'' w') (done c'' w')
      after (err e, c', w') done = refl
      after (panicked, c', w') done = refl
