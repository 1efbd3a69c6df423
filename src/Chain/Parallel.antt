-- ===== src/Chain/Parallel.antt =====
-- `exec_parallel` of src/chain.rs: a thread for each input, over the same chain. A thread's steps are the
-- hooks, the core with the write of its result, and the end; the steps of the threads are interleaved
-- in the order of a schedule, which names a thread for each step.
use proc_mw.Common.{ℕ, ⊤, Option, none, some, List, [], ◌∷◌, ◌++◌, reverse}
use proc_mw.Int.{ℤ}
use proc_mw.Effect.{Ended, ok, err, panicked, Act, run_hook, ◌>>=◌}
use proc_mw.Dispatch.{Ctx, new_ctx, MwError, rejected, Host, Node, enter, exit, go_on, set_output}
use proc_mw.Schedule.{run_schedule}
use proc_mw.Chain.{Chain, Core}

-- A thread: its context and the steps it has left, or what it has ended with.
pub data Thread (W : Type 0) : Type 0 where
  running : Ctx → List (Act W Ctx MwError ⊤) → Thread W
  finished : Ended MwError ℤ → Thread W

module _ {W : Type 0} where
  -- What a thread is after a step, which leaves the context and the shared state behind.
  abbrev pub stepped : List (Act W Ctx MwError ⊤) → Ended MwError ⊤ × Ctx × W → Thread W × W
  stepped rest (ok _, c, w) = (running c rest, w)
  stepped rest (err e, c, w) = (finished (err e), w)
  stepped rest (panicked, c, w) = (finished panicked, w)

  unfoldable pub step : Thread W → W → Thread W × W
  step (running c []) w = (finished (ok c.output), w)
  step (running c (a ∷ rest)) w = stepped rest (a c w)
  step (finished r) w = (finished r, w)

  -- The results in the order of the inputs, when all threads have finished.
  abbrev pub results_of : List (Thread W) → Option (List (Ended MwError ℤ))
  results_of [] = some []
  results_of (running _ _ ∷ ts) = none
  results_of (finished r ∷ ts) = elim (results_of ts) [ none ↦ none | some rs ↦ some (r ∷ rs) ]

  abbrev pub enter_steps : Host W → List (Node W) → List (Act W Ctx MwError ⊤)
  enter_steps host [] = []
  enter_steps host (n ∷ ns) = (enter host n >>= go_on) ∷ enter_steps host ns

  abbrev pub exit_steps : List (Node W) → List (Act W Ctx MwError ⊤)
  exit_steps [] = []
  exit_steps (n ∷ ns) = run_hook (exit n) ∷ exit_steps ns

  unfoldable pub steps : Host W → Chain W → Core W → List (Act W Ctx MwError ⊤)
  steps host c core =
      enter_steps host c.nodes ++ (core >>= set_output) ∷ exit_steps (reverse c.nodes)

  abbrev pub spawn : Host W → Chain W → Core W → List ℤ → List (Thread W)
  spawn host c core [] = []
  spawn host c core (input ∷ inputs) =
      running (new_ctx input) (steps host c core) ∷ spawn host c core inputs

-- A thread that has panicked and is not joined makes the scope panic.
abbrev pub unjoined : MwError → List (Ended MwError ℤ) → Ended MwError (List ℤ)
unjoined e [] = err e
unjoined e (panicked ∷ rs) = panicked
unjoined e (_ ∷ rs) = unjoined e rs

abbrev pub cons_value : ℤ → Ended MwError (List ℤ) → Ended MwError (List ℤ)
cons_value v (ok vs) = ok (v ∷ vs)
cons_value v (err e) = err e
cons_value v panicked = panicked

-- The loop of the joins: it returns at the first thread that has failed.
unfoldable pub join_all : List (Ended MwError ℤ) → Ended MwError (List ℤ)
join_all [] = ok []
join_all (ok v ∷ rs) = cons_value v (join_all rs)
join_all (err e ∷ rs) = unjoined e rs
join_all (panicked ∷ rs) = unjoined (rejected "worker panicked") rs

-- With a schedule: nothing, if not all threads have finished after it.
unfoldable pub exec_parallel :
    {W : Type 0}
    → Host W
    → Chain W
    → Core W
    → List ℤ
    → List ℕ
    → W
    → Option (Ended MwError (List ℤ) × W)
unfolding step steps join_all
exec_parallel host c core inputs schedule w =
    let (ts, w') = run_schedule step schedule (spawn host c core inputs) w in
    elim (results_of ts) [ none ↦ none | some rs ↦ some (join_all rs, w') ]
