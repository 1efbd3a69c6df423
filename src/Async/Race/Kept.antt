-- ===== src/Async/Race/Kept.antt =====
-- An async function of a loop and a rest does not set the clock back, if its stages and the rest do not.
use proc_mw.Common.{ℕ, ◌≤◌, ⊤, List, [], ◌∷◌, arith}
use proc_mw.Effect.{Ended, ok, err, panicked, Act, Hook, then_run, raise_none, ◌>>=◌, run_hook}
use proc_mw.Async.{
  Poll, ready, pending, Stage, Waiting, waiting, Progress, unpolled, polled, advance, begin_each,
  resume_each, finish_by, loop_then,
}
use proc_mw.Async.Race.Deadline.{StillKept, KeepsTime}

module _ {W : Type 0} (time : W → ℕ) where
  -- A call does not set the clock back.
  abbrev pub Passes : {S E A : Type 0} → Act W S E A → Type 0
  Passes {S} act = (s : S) (w : W) → time w ≤ time (act s w).2

  abbrev pub StagePasses : {S P E : Type 0} → Stage W S P E → Type 0
  StagePasses {S} {P} st =
      ((s : S) (w : W) → time w ≤ time (st.begin s w).2)
      × ((p : P) (s : S) (w : W) → time w ≤ time (st.resume p s w).2)

  abbrev pub AllPass : {S P E : Type 0} → List (Stage W S P E) → Type 0
  AllPass [] = ⊤
  AllPass (st ∷ sts) = StagePasses st × AllPass sts

  module _ {S P E : Type 0} where
    abbrev WaitPasses : Waiting W S P E → Type 0
    WaitPasses (waiting p st rest) = StagePasses st × AllPass rest

    -- What the function waits for does not set the clock back.
    abbrev pub ProgressPasses : Progress W S P E → Type 0
    ProgressPasses unpolled = ⊤
    ProgressPasses (polled l) = WaitPasses l

    -- A poll at time `t` or later that does not set the clock back, and what is polled again
    abbrev IsSince : ℕ → Poll (Waiting W S P E) E ⊤ × S × W → Type 0
    IsSince t x = (t ≤ time x.2) × StillKept WaitPasses x.0

    advance-IsSince :
        (t : ℕ) (st : Stage W S P E) (sts : List (Stage W S P E)) (x : Poll P E ⊤ × S × W)
        → StagePasses st
        → AllPass sts
        → ((s : S) (w : W) → IsSince (time w) (begin_each sts s w))
        → t ≤ time x.2
        → IsSince t (advance (begin_each sts) st sts x)
    advance-IsSince t st sts (ready (ok _), s, w) h hs ih le =
        let (a, b) = ih s w in (omega arith, b)
    advance-IsSince t st sts (ready (err e), s, w) h hs ih le = (le, tt)
    advance-IsSince t st sts (ready panicked, s, w) h hs ih le = (le, tt)
    advance-IsSince t st sts (pending p, s, w) h hs ih le = (le, (h, hs))

    begin_each-IsSince :
        (sts : List (Stage W S P E)) (s : S) (w : W)
        → AllPass sts
        → IsSince (time w) (begin_each sts s w)
    unfolding begin_each
    begin_each-IsSince [] s w h = (omega arith, tt)
    begin_each-IsSince (st ∷ sts) s w (h, hs) =
        advance-IsSince (time w) st sts (st.begin s w) h hs
          (λ s' w'. begin_each-IsSince sts s' w' hs) (h.0 s w)

    resume_each-IsSince :
        (l : Waiting W S P E) (s : S) (w : W) → WaitPasses l → IsSince (time w) (resume_each l s w)
    unfolding resume_each
    resume_each-IsSince (waiting p st rest) s w (h, hs) =
        advance-IsSince (time w) st rest (st.resume p s w) h hs
          (λ s' w'. begin_each-IsSince rest s' w' hs) (h.1 p s w)

    finish_by-kept :
        {A : Type 0} (t : ℕ) (rest : Act W S E A) (x : Poll (Waiting W S P E) E ⊤ × S × W)
        → Passes rest
        → IsSince t x
        → (t ≤ time (finish_by rest x).2) × StillKept ProgressPasses (finish_by rest x).0
    finish_by-kept t rest (ready (ok _), s, w) h (le, _) = let a = h s w in (omega arith, tt)
    finish_by-kept t rest (ready (err e), s, w) h (le, _) = (le, tt)
    finish_by-kept t rest (ready panicked, s, w) h (le, _) = (le, tt)
    finish_by-kept t rest (pending l, s, w) h (le, k) = (le, k)

    pub loop_then-KeepsTime :
        {A : Type 0} (stages : List (Stage W S P E)) (rest : Act W S E A)
        → AllPass stages
        → Passes rest
        → KeepsTime time ProgressPasses (loop_then stages rest)
    unfolding loop_then
    loop_then-KeepsTime stages rest hs h unpolled s w _ =
        finish_by-kept (time w) rest (begin_each stages s w) h (begin_each-IsSince stages s w hs)
    loop_then-KeepsTime stages rest hs h (polled l) s w k =
        finish_by-kept (time w) rest (resume_each l s w) h (resume_each-IsSince l s w k)

  module _ {S E A : Type 0} where
    pub bind-Passes :
        {B : Type 0} (m : Act W S E A) (f : A → Act W S E B)
        → Passes m
        → ((a : A) → Passes (f a))
        → Passes (m >>= f)
    bind-Passes {B} m f hm hf s w = after (m s w) (hm s w)
      where
        after : (x : Ended E A × S × W) → time w ≤ time x.2 → time w ≤ time (then_run f x).2
        after (ok a, s', w') le = let b = hf a s' w' in omega arith
        after (err e, s', w') le = le
        after (panicked, s', w') le = le

  pub run_hook-Passes :
      {S A : Type 0} (E : Type 0) (m : Hook W S A) → Passes m → Passes (run_hook {S = S} {E = E} m)
  run_hook-Passes {S} {A} E m hm s w = after (m s w) (hm s w)
    where
      after :
          (x : Ended ⊥ A × S × W)
          → time w ≤ time x.2
          → time w ≤ time (raise_none {W = W} {S = S} {E = E} x).2
      after (ok a, s', w') le = le
      after (err e, s', w') le = absurd e
      after (panicked, s', w') le = le
