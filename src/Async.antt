-- ===== src/Async.antt =====
-- Futures, as src/async_mw.rs, src/async_generic.rs and src/async_opaque.rs use them: what one poll of
-- a future does, the executor that polls, and the loop with `await` in it that these files share.
-- What a future keeps from one poll to the next is of a type `P`.
pub mod Loop
pub mod Race
pub mod Middleware
pub mod Erased
pub mod Typed
pub mod Generic
use proc_mw.Common.{ℕ, zero, suc, ⊤, Option, none, some, List, [], ◌∷◌}
use proc_mw.Effect.{Ended, ok, err, panicked, Act}

pub data Poll (P E A : Type 0) : Type 0 where
  ready : Ended E A → Poll P E A
  pending : P → Poll P E A

abbrev pub Poller : Type 0 → Type 0 → Type 0 → Type 0 → Type 0 → Type 0
Poller W S P E A = P → S → W → Poll P E A × S × W

-- What comes of a poll: its result, or what is done with a future that is pending.
abbrev pub go_on_with :
    {W S P E A : Type 0}
    → (P → S → W → Option (Ended E A × S × W))
    → Poll P E A × S × W
    → Option (Ended E A × S × W)
go_on_with k (ready a, s, w) = some (a, s, w)
go_on_with k (pending p, s, w) = k p s w

-- `block_on`: a task that is pending is polled again when it has been woken. `idle` is what the rest
-- of the program does to the shared state meanwhile. There is a result after so many polls, or none.
module _ {W S P E A : Type 0} (idle : W → W) (poll : Poller W S P E A) where
  unfoldable pub block_on : ℕ → P → S → W → Option (Ended E A × S × W)
  block_on zero p s w = none
  block_on (suc n) p s w = go_on_with (λ q s' w'. block_on n q s' (idle w')) (poll p s w)

  -- The same after a poll that is done.
  abbrev pub go_on_polling : ℕ → Poll P E A × S × W → Option (Ended E A × S × W)
  go_on_polling n = go_on_with (λ q s' w'. block_on n q s' (idle w'))

-- The body of a loop `for m in .. { f(m).await }`: `begin` calls `f(m)` and polls what it returns once,
-- and `resume` polls again.
pub record Stage (W S P E : Type 0) : Type 0 where
  pub begin : S → W → Poll P E ⊤ × S × W
  pub resume : Poller W S P E ⊤

-- Where the loop waits: the future that is pending, its stage, and the stages left.
pub data Waiting (W S P E : Type 0) : Type 0 where
  waiting : P → Stage W S P E → List (Stage W S P E) → Waiting W S P E

-- Where an async function is that consists of such a loop and a rest without `await`.
pub data Progress (W S P E : Type 0) : Type 0 where
  unpolled : Progress W S P E
  polled : Waiting W S P E → Progress W S P E

module _ {W S P E : Type 0} where
  -- What a stage's poll means for the loop: go on with the stages left, stop, or wait.
  abbrev pub advance :
      (S → W → Poll (Waiting W S P E) E ⊤ × S × W)
      → Stage W S P E
      → List (Stage W S P E)
      → Poll P E ⊤ × S × W
      → Poll (Waiting W S P E) E ⊤ × S × W
  advance k st rest (ready (ok _), s, w) = k s w
  advance k st rest (ready (err e), s, w) = (ready (err e), s, w)
  advance k st rest (ready panicked, s, w) = (ready panicked, s, w)
  advance k st rest (pending p, s, w) = (pending (waiting p st rest), s, w)

  unfoldable pub begin_each : List (Stage W S P E) → S → W → Poll (Waiting W S P E) E ⊤ × S × W
  begin_each [] s w = (ready (ok tt), s, w)
  begin_each (st ∷ rest) s w = advance (begin_each rest) st rest (st.begin s w)

  unfoldable pub resume_each : Poller W S (Waiting W S P E) E ⊤
  resume_each (waiting p st rest) s w = advance (begin_each rest) st rest (st.resume p s w)

  -- The rest of the function, in the poll in which the loop ends.
  abbrev pub finish_by :
      {A : Type 0}
      → Act W S E A
      → Poll (Waiting W S P E) E ⊤ × S × W
      → Poll (Progress W S P E) E A × S × W
  finish_by rest (ready (ok _), s, w) = let (r, s', w') = rest s w in (ready r, s', w')
  finish_by rest (ready (err e), s, w) = (ready (err e), s, w)
  finish_by rest (ready panicked, s, w) = (ready panicked, s, w)
  finish_by rest (pending l, s, w) = (pending (polled l), s, w)

  unfoldable pub loop_then :
      {A : Type 0} → List (Stage W S P E) → Act W S E A → Poller W S (Progress W S P E) E A
  unfolding begin_each resume_each
  loop_then stages rest unpolled s w = finish_by rest (begin_each stages s w)
  loop_then stages rest (polled l) s w = finish_by rest (resume_each l s w)
