-- ===== src/Onion.antt =====
-- The specification that the chains share: a layer wraps what it surrounds.
pub mod Laws
pub mod TwoPass
use proc_mw.Common.{⊤, List, [], ◌∷◌}
use proc_mw.Effect.{Act, pure, ◌>>=◌, ◌>>◌}

module _ (W S E : Type 0) where
  -- `enter` returns normally when the chain is to go on.
  pub record Layer : Type 0 where
    pub enter : Act W S E ⊤
    pub exit : Act W S E ⊤

module _ {W S E : Type 0} where
  -- The first layer is the outermost: it enters first and exits last, and nothing inside it runs
  -- when it does not let the request through.
  unfoldable pub onion : {A : Type 0} → List (Layer W S E) → Act W S E A → Act W S E A
  onion [] core = core
  onion (l ∷ ls) core = do l.enter; a ← onion ls core; l.exit; pure a
