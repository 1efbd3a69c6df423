-- ===== src/Effect.antt =====
-- What a call of a Rust function does: it ends by a value, by an `Err` or by a panic, and it leaves
-- behind what its `&mut` argument holds (of type `S`) and all else that the program shares (of
-- type `W`: the state behind `Arc`s, locks and atomics, the clocks, what plugins keep).
-- A panic keeps the writes that were made before it, as unwinding does.
pub mod Laws
pub mod Local
use proc_mw.Common.{⊤, List, [], ◌∷◌}

pub data Ended (E A : Type 0) : Type 0 where
  ok : A → Ended E A
  err : E → Ended E A
  panicked : Ended E A

abbrev pub Act : Type 0 → Type 0 → Type 0 → Type 0 → Type 0
Act W S E A = S → W → Ended E A × S × W

-- A call that cannot return `Err`: an exit hook, or a function that returns no `Result`.
abbrev pub Hook : Type 0 → Type 0 → Type 0 → Type 0
Hook W S A = Act W S ⊥ A

module _ {W S E : Type 0} where
  abbrev pub pure : {A : Type 0} → A → Act W S E A
  pure a s w = (ok a, s, w)

  abbrev pub fail : {A : Type 0} → E → Act W S E A
  fail e s w = (err e, s, w)

  abbrev pub panic : {A : Type 0} → Act W S E A
  panic s w = (panicked, s, w)

  abbrev pub then_run : {A B : Type 0} → (A → Act W S E B) → Ended E A × S × W → Ended E B × S × W
  then_run f (ok a, s, w) = f a s w
  then_run f (err e, s, w) = (err e, s, w)
  then_run f (panicked, s, w) = (panicked, s, w)

  infixl 5 ◌>>=◌ ◌>>◌
  abbrev pub ◌>>=◌ : {A B : Type 0} → Act W S E A → (A → Act W S E B) → Act W S E B
  ◌>>=◌ m f s w = then_run f (m s w)

  abbrev pub ◌>>◌ : {A B : Type 0} → Act W S E A → Act W S E B → Act W S E B
  m >> k = m >>= λ _. k

  abbrev pub get : Act W S E S
  get s w = (ok s, s, w)

  abbrev pub put : S → Act W S E ⊤
  put s _ w = (ok tt, s, w)

  abbrev pub raise_none : {A : Type 0} → Ended ⊥ A × S × W → Ended E A × S × W
  raise_none (ok a, s, w) = (ok a, s, w)
  raise_none (err e, s, w) = absurd e
  raise_none (panicked, s, w) = (panicked, s, w)

  -- A hook called where errors are propagated.
  abbrev pub run_hook : {A : Type 0} → Hook W S A → Act W S E A
  run_hook m s w = raise_none (m s w)
