-- ===== src/Onion/Laws.antt =====
-- Layers compose: a chain of `xs` around a chain of `ys` is the chain of both.
use proc_mw.Common.{◌≡◌, refl, List, [], ◌∷◌, ◌++◌}
use proc_mw.Effect.{Act}
use proc_mw.Onion.{Layer, onion}

module _ {W S E A : Type 0} where
  pub onion-append :
      (xs ys : List (Layer W S E)) (core : Act W S E A)
      → onion (xs ++ ys) core ≡ onion xs (onion ys core)
  unfolding onion
  onion-append [] ys core = refl
  onion-append (x ∷ xs) ys core = rw (onion-append xs ys core)
