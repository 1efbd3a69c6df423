-- ===== src/Schedule.antt =====
-- Threads whose steps are interleaved in the order of a schedule, which names a thread for each step.
use proc_mw.Common.{ℕ, zero, suc, ◌≤◌, ◌≡◌, refl, ap, ◌∙◌, ⊤, List, [], ◌∷◌, map}

-- One turn more for the thread `i`
abbrev bump : ℕ → (ℕ → ℕ) → ℕ → ℕ
bump zero g zero = suc (g zero)
bump zero g (suc j) = g (suc j)
bump (suc i) g zero = g zero
bump (suc i) g (suc j) = bump i (λ k. g (suc k)) j

-- The turns that a schedule gives to each thread
abbrev pub turns : List ℕ → ℕ → ℕ
turns [] j = 0
turns (i ∷ is) j = bump i (turns is) j

module _ {W T : Type 0} (step : T → W → T × W) where
  -- A step of the thread of this number, if there is one.
  unfoldable pub step_at : ℕ → List T → W → List T × W
  step_at i [] w = ([], w)
  step_at zero (t ∷ ts) w = let (t', w') = step t w in (t' ∷ ts, w')
  step_at (suc i) (t ∷ ts) w = let (ts', w') = step_at i ts w in (t ∷ ts', w')

  unfoldable pub run_schedule : List ℕ → List T → W → List T × W
  unfolding step_at
  run_schedule [] ts w = (ts, w)
  run_schedule (i ∷ is) ts w = let (ts', w') = step_at i ts w in run_schedule is ts' w'

  -- A bound on the turns that a thread needs, which falls with each step.
  module _ (left : T → ℕ)
      (falls : (t : T) (w : W) (n : ℕ) → left t ≤ suc n → left (step t w).0 ≤ n) where
    abbrev pub AllLeft : (ℕ → ℕ) → List T → Type 0
    AllLeft g [] = ⊤
    AllLeft g (t ∷ ts) = (left t ≤ g zero) × AllLeft (λ k. g (suc k)) ts

    step_at-AllLeft :
        (i : ℕ) (ts : List T) (w : W) (g : ℕ → ℕ)
        → AllLeft (bump i g) ts
        → AllLeft g (step_at i ts w).0
    unfolding step_at
    step_at-AllLeft i [] w g h = tt
    step_at-AllLeft zero (t ∷ ts) w g (h, hs) = (falls t w (g zero) h, hs)
    step_at-AllLeft (suc i) (t ∷ ts) w g (h, hs) = (h, step_at-AllLeft i ts w (λ k. g (suc k)) hs)

    -- After the turns of a schedule, no thread needs a turn.
    pub run_schedule_ends :
        (is : List ℕ) (ts : List T) (w : W)
        → AllLeft (turns is) ts
        → AllLeft (turns []) (run_schedule is ts w).0
    unfolding run_schedule
    run_schedule_ends [] ts w h = h
    run_schedule_ends (i ∷ is) ts w h =
        let (ts', w') = step_at i ts w in
        run_schedule_ends is ts' w' (step_at-AllLeft i ts w (turns is) h)

  -- What every step of a thread leaves as it is, where `P` holds and goes on to hold.
  module _ {X : Type 0} (P : T → Type 0) (outcome : T → X)
      (keeps : (t : T) (w : W) → P t → P (step t w).0 × (outcome (step t w).0 ≡ outcome t)) where
    abbrev pub AllKeep : List T → Type 0
    AllKeep [] = ⊤
    AllKeep (t ∷ ts) = P t × AllKeep ts

    step_at_keeps :
        (i : ℕ) (ts : List T) (w : W)
        → AllKeep ts
        → AllKeep (step_at i ts w).0 × (map outcome (step_at i ts w).0 ≡ map outcome ts)
    unfolding step_at
    step_at_keeps i [] w h = (tt, refl)
    step_at_keeps zero (t ∷ ts) w (h, hs) =
        let (kept, same) = keeps t w h in ((kept, hs), ap (λ (r : X). r ∷ map outcome ts) same)
    step_at_keeps (suc i) (t ∷ ts) w (h, hs) =
        let (kept, same) = step_at_keeps i ts w hs in
        ((h, kept), ap (λ (rs : List X). outcome t ∷ rs) same)

    pub run_schedule_keeps :
        (is : List ℕ) (ts : List T) (w : W)
        → AllKeep ts
        → map outcome (run_schedule is ts w).0 ≡ map outcome ts
    unfolding run_schedule
    run_schedule_keeps [] ts w h = refl
    run_schedule_keeps (i ∷ is) ts w h =
        let (kept, same) = step_at_keeps i ts w h in
        let (ts', w') = step_at i ts w in run_schedule_keeps is ts' w' kept ∙ same

-- Threads whose steps are the images of other threads' steps
module _ {W T U : Type 0} (step : T → W → T × W) (step' : U → W → U × W) (f : T → U)
    (simulates : (t : T) (w : W) → step' (f t) w ≡ (f (step t w).0, (step t w).1)) where
  step_at-simulates :
      (i : ℕ) (ts : List T) (w : W)
      → step_at step' i (map f ts) w ≡ (map f (step_at step i ts w).0, (step_at step i ts w).1)
  unfolding step_at
  step_at-simulates i [] w = refl
  step_at-simulates zero (t ∷ ts) w = ap (λ (x : U × W). (x.0 ∷ map f ts, x.1)) (simulates t w)
  step_at-simulates (suc i) (t ∷ ts) w =
      ap (λ (x : List U × W). (f t ∷ x.0, x.1)) (step_at-simulates i ts w)

  pub run_schedule-simulates :
      (is : List ℕ) (ts : List T) (w : W)
      → run_schedule step' is (map f ts) w
        ≡ (map f (run_schedule step is ts w).0, (run_schedule step is ts w).1)
  unfolding run_schedule
  run_schedule-simulates [] ts w = refl
  run_schedule-simulates (i ∷ is) ts w =
      let (ts', w') = step_at step i ts w in
      ap (λ (x : List U × W). run_schedule step' is x.0 x.1) (step_at-simulates i ts w)
      ∙ run_schedule-simulates is ts' w'
