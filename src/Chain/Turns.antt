-- ===== src/Chain/Turns.antt =====
-- Threads that get enough turns finish.
use proc_mw.Common.{ℕ, zero, suc, ◌≤◌, ◌<◌, ◌≡◌, refl, ⊤, some, List, [], ◌∷◌, length, arith}
use proc_mw.Int.{ℤ}
use proc_mw.Effect.{Ended, ok, err, panicked, Act}
use proc_mw.Dispatch.{Ctx, MwError, Host}
use proc_mw.Schedule.{turns, run_schedule, AllLeft, run_schedule_ends}
use proc_mw.Chain.{Chain, Core}
use proc_mw.Chain.Parallel.{Thread, running, finished, stepped, step, results_of, steps, spawn}

module _ {W : Type 0} where
  -- The turns that a thread needs
  abbrev pub left : Thread W → ℕ
  left (running c as') = suc (length as')
  left (finished r) = 0

  left-stepped :
      (rest : List (Act W Ctx MwError ⊤)) (x : Ended MwError ⊤ × Ctx × W)
      → left (stepped rest x).0 ≤ suc (length rest)
  left-stepped rest (ok _, c, w) = omega arith
  left-stepped rest (err e, c, w) = omega arith
  left-stepped rest (panicked, c, w) = omega arith

  pub left-step : (t : Thread W) (w : W) (n : ℕ) → left t ≤ suc n → left (step t w).0 ≤ n
  unfolding step
  left-step (running c []) w n le = omega arith
  left-step (running c (a ∷ rest)) w n le = omega (arith, left-stepped rest (a c w))
  left-step (finished r) w n le = omega arith

  none_left :
      (ts : List (Thread W)) (g : ℕ → ℕ)
      → ((i : ℕ) → g i ≡ 0)
      → AllLeft step left left-step g ts
      → (rs : List (Ended MwError ℤ)) × (results_of ts ≡ some rs)
  none_left [] g z h = ([], refl)
  none_left (running c as' ∷ ts) g z (h, hs) = absurd (omega (arith, z zero))
  none_left (finished r ∷ ts) g z (h, hs) =
      let (rs, e) = none_left ts (λ k. g (suc k)) (λ i. z (suc i)) hs in (r ∷ rs, rw e refl)

  pub run_schedule_finishes :
      (is : List ℕ) (ts : List (Thread W)) (w : W)
      → AllLeft step left left-step (turns is) ts
      → (rs : List (Ended MwError ℤ)) × (results_of (run_schedule step is ts w).0 ≡ some rs)
  run_schedule_finishes is ts w h =
      none_left (run_schedule step is ts w).0 (turns []) (λ i. refl)
        (run_schedule_ends step left left-step is ts w h)

  pub spawn-AllLeft :
      (host : Host W) (c : Chain W) (core : Core W) (inputs : List ℤ) (g : ℕ → ℕ)
      → ((i : ℕ) → i < length inputs → length (steps host c core) < g i)
      → AllLeft step left left-step g (spawn host c core inputs)
  spawn-AllLeft host c core [] g h = tt
  spawn-AllLeft host c core (input ∷ inputs) g h = (
    h zero (omega arith),
    spawn-AllLeft host c core inputs (λ k. g (suc k)) (λ i lt. h (suc i) (omega arith)),
  )
