-- ===== src/Effect/Local.antt =====
-- Calls whose end and whose argument do not depend on what the program shares; they may write to it.
use proc_mw.Common.{◌≡◌, refl, ap, ◌∙◌, arith}
use proc_mw.Effect.{Ended, ok, err, panicked, Act, Hook, then_run, raise_none, run_hook, ◌>>=◌}

module _ {W S : Type 0} where
  -- Two ends with the same result and the same argument
  abbrev pub Agree : {E A : Type 0} → Ended E A × S × W → Ended E A × S × W → Type 0
  Agree x y = (x.0 ≡ y.0) × (x.1 ≡ y.1)

  abbrev pub IsLocal : {E A : Type 0} → Act W S E A → Type 0
  IsLocal m = (s : S) (v w : W) → Agree (m s v) (m s w)

module _ {W S E A B : Type 0} where
  then_run-Agree :
      (f : A → Act W S E B) (x y : Ended E A × S × W)
      → ((a : A) → IsLocal (f a))
      → Agree x y
      → Agree (then_run f x) (then_run f y)
  then_run-Agree f (ok a, s, v) (ok b, t, w) h (p, q) =
      let same : a ≡ b = ground (arith, p) in
      let (r, u) = h a s v w in
      (
        r ∙ ap (λ (c : A). (f c s w).0) same ∙ ap (λ (c : S). (f b c w).0) q,
        u ∙ ap (λ (c : A). (f c s w).1) same ∙ ap (λ (c : S). (f b c w).1) q,
      )
  then_run-Agree f (err e, s, v) (err d, t, w) h (p, q) =
      let same : e ≡ d = ground (arith, p) in (ap (λ (c : E). err c) same, q)
  then_run-Agree f (panicked, s, v) (panicked, t, w) h (p, q) = (refl, q)
  then_run-Agree f (ok a, s, v) (err d, t, w) h (p, q) = absurd (ground (arith, p))
  then_run-Agree f (ok a, s, v) (panicked, t, w) h (p, q) = absurd (ground (arith, p))
  then_run-Agree f (err e, s, v) (ok b, t, w) h (p, q) = absurd (ground (arith, p))
  then_run-Agree f (err e, s, v) (panicked, t, w) h (p, q) = absurd (ground (arith, p))
  then_run-Agree f (panicked, s, v) (ok b, t, w) h (p, q) = absurd (ground (arith, p))
  then_run-Agree f (panicked, s, v) (err d, t, w) h (p, q) = absurd (ground (arith, p))

  pub bind-IsLocal :
      (m : Act W S E A) (f : A → Act W S E B)
      → IsLocal m
      → ((a : A) → IsLocal (f a))
      → IsLocal (m >>= f)
  bind-IsLocal m f h k s v w = then_run-Agree f (m s v) (m s w) k (h s v w)

module _ {W S E A : Type 0} where
  raise_none-Agree :
      (x y : Ended ⊥ A × S × W) → Agree x y → Agree (raise_none {E = E} x) (raise_none y)
  raise_none-Agree (ok a, s, v) (ok b, t, w) (p, q) =
      let same : a ≡ b = ground (arith, p) in (ap (λ (c : A). ok c) same, q)
  raise_none-Agree (panicked, s, v) (panicked, t, w) (p, q) = (refl, q)
  raise_none-Agree (ok a, s, v) (panicked, t, w) (p, q) = absurd (ground (arith, p))
  raise_none-Agree (panicked, s, v) (ok b, t, w) (p, q) = absurd (ground (arith, p))
  raise_none-Agree (err e, s, v) _ h = absurd e
  raise_none-Agree (ok a, s, v) (err e, t, w) h = absurd e
  raise_none-Agree (panicked, s, v) (err e, t, w) h = absurd e

  pub run_hook-IsLocal : (m : Hook W S A) → IsLocal m → IsLocal {E = E} (run_hook m)
  run_hook-IsLocal m h s v w = raise_none-Agree (m s v) (m s w) (h s v w)
