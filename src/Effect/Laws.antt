-- ===== src/Effect/Laws.antt =====
-- Sequencing is associative, with `pure` as its unit.
use proc_mw.Common.{◌≡◌, refl, ap, fun_ext, ◌≢◌, ◌↔◌, arith}
use proc_mw.Effect.{
  Ended, ok, err, panicked, Act, Hook, pure, then_run, ◌>>=◌, raise_none, run_hook,
}

module _ {W S E A : Type 0} where
  then_run_assoc :
      {B C : Type 0} (f : A → Act W S E B) (g : B → Act W S E C) (r : Ended E A × S × W)
      → then_run g (then_run f r) ≡ then_run (λ a. f a >>= g) r
  then_run_assoc f g (ok a, s, w) = refl
  then_run_assoc f g (err e, s, w) = refl
  then_run_assoc f g (panicked, s, w) = refl

  pub bind_assoc :
      {B C : Type 0} (m : Act W S E A) (f : A → Act W S E B) (g : B → Act W S E C)
      → (m >>= f >>= g) ≡ (m >>= λ a. f a >>= g)
  bind_assoc m f g = fun_ext λ s. fun_ext λ w. then_run_assoc f g (m s w)

  then_run-pure : (r : Ended E A × S × W) → then_run pure r ≡ r
  then_run-pure (ok a, s, w) = refl
  then_run-pure (err e, s, w) = refl
  then_run-pure (panicked, s, w) = refl

  pub bind-pure : (m : Act W S E A) → (m >>= pure) ≡ m
  bind-pure m = fun_ext λ s. fun_ext λ w. then_run-pure (m s w)

-- A call that does not end by this error.
abbrev pub Avoids : {W S E A : Type 0} → E → Act W S E A → Type 0
Avoids {W} {S} e m = (s : S) (w : W) → (m s w).0 ≢ err e

-- A call that ends by a value or by a panic.
abbrev pub NeverErrs : {W S E A : Type 0} → Act W S E A → Type 0
NeverErrs {W} {S} {E} m = (s : S) (w : W) (e : E) → (m s w).0 ≢ err e

module _ {W S E A : Type 0} where
  pub run_hook-NeverErrs : (m : Hook W S A) → NeverErrs {E = E} (run_hook m)
  run_hook-NeverErrs m s w e = raised (m s w)
    where
      raised : (r : Ended ⊥ A × S × W) → (raise_none {E = E} r).0 ≢ err e
      raised (ok a, _, _) h = cc
      raised (err x, _, _) h = absurd x
      raised (panicked, _, _) h = cc

  pub bind-Avoids :
      {B : Type 0} (e : E) (m : Act W S E A) (f : A → Act W S E B)
      → Avoids e m
      → ((a : A) → Avoids e (f a))
      → Avoids e (m >>= f)
  bind-Avoids e m f hm hf s w = after (m s w) (hm s w)
    where
      after : (r : Ended E A × S × W) → r.0 ≢ err e → (then_run f r).0 ≢ err e
      after (ok a, s', w') _ k = hf a s' w' k
      after (err x, _, _) h k = h (ground arith)
      after (panicked, _, _) _ k = cc

  pub bind-NeverErrs :
      {B : Type 0} (m : Act W S E A) (f : A → Act W S E B)
      → NeverErrs m
      → ((a : A) → NeverErrs (f a))
      → NeverErrs (m >>= f)
  bind-NeverErrs m f hm hf s w e =
      bind-Avoids e m f (λ s' w'. hm s' w' e) (λ a s' w'. hf a s' w' e) s w

  -- Where what follows never errs, a sequence errs exactly when its first part does.
  pub bind-eq-err_iff :
      {B : Type 0} (m : Act W S E A) (f : A → Act W S E B)
      → ((a : A) → NeverErrs (f a))
      → (s : S) (w : W) (e : E) (s' : S) (w' : W)
      → ((m >>= f) s w ≡ (err e, s', w')) ↔ (m s w ≡ (err e, s', w'))
  bind-eq-err_iff {B} m f hf s w e s' w' = after (m s w)
    where
      after : (r : Ended E A × S × W) → (then_run f r ≡ (err e, s', w')) ↔ (r ≡ (err e, s', w'))
      after (ok a, t, v) =
          (λ h. absurd (hf a t v e (ap (λ (r : Ended E B × S × W). r.0) h)), λ h. ground arith)
      after (err x, t, v) = (λ h. ground arith, λ h. ground arith)
      after (panicked, t, v) = (λ h. ground arith, λ h. ground arith)
