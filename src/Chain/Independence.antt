-- ===== src/Chain/Independence.antt =====
-- Threads that do not read what they share have the results of executions one after the other.
use proc_mw.Common.{
  ℕ, ◌<◌, length, ◌≡◌, refl, ap, sym, ◌∙◌, ⊤, Option, none, some, List, [], ◌∷◌, ◌++◌, map, reverse,
  arith,
}
use proc_mw.Int.{ℤ}
use proc_mw.Effect.{Ended, ok, err, panicked, Act, then_run, run_hook, ◌>>=◌, ◌>>◌}
use proc_mw.Effect.Laws.{bind_assoc}
use proc_mw.Dispatch.{
  Ctx, new_ctx, MwError, Host, Node, enter, exit, go_on, set_output, get_output, enter_all,
  exit_all, chain_exec_ctx, chain_exec,
}
use proc_mw.Dispatch.Errors.{enter_all-cons}
use proc_mw.Chain.{Chain, Core, exec}
use proc_mw.Async.Loop.{run_each}
use proc_mw.Schedule.{turns, run_schedule, AllKeep, run_schedule_keeps}
use proc_mw.Chain.Turns.{run_schedule_finishes, spawn-AllLeft}
use proc_mw.Chain.Parallel.{
  Thread, running, finished, stepped, step, results_of, enter_steps, exit_steps, steps, spawn,
  join_all, exec_parallel,
}

module _ {W : Type 0} where
  -- What the step does to the context, and how it ends, does not depend on the shared state; it may
  -- write to it.
  abbrev pub IsLocal : {A : Type 0} → Act W Ctx MwError A → Type 0
  IsLocal a = (c : Ctx) (v w : W) → ((a c v).0 ≡ (a c w).0) × ((a c v).1 ≡ (a c w).1)

  abbrev pub AllLocal : List (Act W Ctx MwError ⊤) → Type 0
  AllLocal [] = ⊤
  AllLocal (a ∷ as') = IsLocal a × AllLocal as'

  -- What a thread comes to if it runs alone from the shared state `w`.
  abbrev settle : (Ctx → W → Ended MwError ℤ) → Ended MwError ⊤ × Ctx × W → Ended MwError ℤ
  settle k (ok _, c, w) = k c w
  settle k (err e, c, w) = err e
  settle k (panicked, c, w) = panicked

  alone : List (Act W Ctx MwError ⊤) → Ctx → W → Ended MwError ℤ
  alone [] c w = ok c.output
  alone (a ∷ as') c w = settle (alone as') (a c w)

  outcome : W → Thread W → Ended MwError ℤ
  unfolding alone
  outcome w (running c as') = alone as' c w
  outcome w (finished r) = r

  settle_local :
      (k : Ctx → W → Ended MwError ℤ) (x y : Ended MwError ⊤ × Ctx × W)
      → ((c : Ctx) (v w : W) → k c v ≡ k c w)
      → x.0 ≡ y.0
      → x.1 ≡ y.1
      → settle k x ≡ settle k y
  settle_local k (ok _, c, v) (ok _, d, w) h p q = h c v w ∙ ap (λ (e : Ctx). k e w) q
  settle_local k (err e, c, v) (err f, d, w) h p q = ground (arith, p)
  settle_local k (panicked, c, v) (panicked, d, w) h p q = refl
  settle_local k (ok _, c, v) (err f, d, w) h p q = absurd (ground (arith, p))
  settle_local k (ok _, c, v) (panicked, d, w) h p q = absurd (ground (arith, p))
  settle_local k (err e, c, v) (ok _, d, w) h p q = absurd (ground (arith, p))
  settle_local k (err e, c, v) (panicked, d, w) h p q = absurd (ground (arith, p))
  settle_local k (panicked, c, v) (ok _, d, w) h p q = absurd (ground (arith, p))
  settle_local k (panicked, c, v) (err f, d, w) h p q = absurd (ground (arith, p))

  alone_local :
      (as' : List (Act W Ctx MwError ⊤)) (c : Ctx) (v w : W)
      → AllLocal as'
      → alone as' c v ≡ alone as' c w
  unfolding alone
  alone_local [] c v w h = refl
  alone_local (a ∷ as') c v w (h, hs) =
      settle_local (alone as') (a c v) (a c w) (λ d x y. alone_local as' d x y hs) (h c v w).0
        (h c v w).1

  abbrev ThreadLocal : Thread W → Type 0
  ThreadLocal (running c as') = AllLocal as'
  ThreadLocal (finished r) = ⊤

  stepped_keeps :
      (rest : List (Act W Ctx MwError ⊤)) (x : Ended MwError ⊤ × Ctx × W) (w₀ : W)
      → AllLocal rest
      → ThreadLocal (stepped rest x).0 × (outcome w₀ (stepped rest x).0 ≡ settle (alone rest) x)
  unfolding outcome
  stepped_keeps rest (ok _, c, w) w₀ h = (h, alone_local rest c w₀ w h)
  stepped_keeps rest (err e, c, w) w₀ h = (tt, refl)
  stepped_keeps rest (panicked, c, w) w₀ h = (tt, refl)

  step_keeps :
      (w₀ : W) (t : Thread W) (w : W)
      → ThreadLocal t
      → ThreadLocal (step t w).0 × (outcome w₀ (step t w).0 ≡ outcome w₀ t)
  unfolding step outcome
  step_keeps w₀ (running c []) w h = (tt, unfold alone in refl)
  step_keeps w₀ (running c (a ∷ rest)) w (h, hs) =
      let (kept, same) = stepped_keeps rest (a c w) w₀ hs in
      (kept, same ∙ (unfold alone in alone_local (a ∷ rest) c w w₀ (h, hs)))
  step_keeps w₀ (finished r) w h = (tt, refl)

  abbrev outcomes : W → List (Thread W) → List (Ended MwError ℤ)
  outcomes w = map (outcome w)

  results_of-outcomes :
      (ts : List (Thread W)) (rs : List (Ended MwError ℤ)) (w₀ : W)
      → results_of ts ≡ some rs
      → outcomes w₀ ts ≡ rs
  unfolding outcome
  results_of-outcomes [] rs w₀ e = ground (arith, e)
  results_of-outcomes (running c as' ∷ ts) rs w₀ e = absurd (ground (arith, e))
  results_of-outcomes (finished r ∷ ts) rs w₀ e =
      after (results_of ts) refl (λ qs p. results_of-outcomes ts qs w₀ p) e
    where
      after :
          (o : Option (List (Ended MwError ℤ)))
          → results_of ts ≡ o
          → ((qs : List (Ended MwError ℤ)) → results_of ts ≡ some qs → outcomes w₀ ts ≡ qs)
          → (elim o as (λ _. Option (List (Ended MwError ℤ))) [
            | none ↦ none
            | some qs ↦ some (r ∷ qs)
          ])
            ≡ some rs
          → r ∷ outcomes w₀ ts ≡ rs
      after none p ih q = absurd (ground (arith, q))
      after (some qs) p ih q =
          ap (λ (l : List (Ended MwError ℤ)). r ∷ l) (ih qs p) ∙ ground (arith, q)

  alone-run_each :
      (as' : List (Act W Ctx MwError ⊤)) (c : Ctx) (w : W)
      → alone as' c w ≡ ((run_each as' >> get_output) c w).0
  unfolding alone
  alone-run_each [] c w = refl
  alone-run_each (a ∷ as') c w =
      after (a c w) (alone-run_each as')
      ∙ ap (λ (m : Act W Ctx MwError ℤ). (m c w).0)
          (sym (bind_assoc a (λ _. run_each as') (λ _. get_output)))
    where
      after :
          (x : Ended MwError ⊤ × Ctx × W)
          → ((d : Ctx) (v : W) → alone as' d v ≡ ((run_each as' >> get_output) d v).0)
          → settle (alone as') x ≡ (then_run (λ _. run_each as' >> get_output) x).0
      after (ok _, d, v) ih = ih d v
      after (err e, d, v) ih = refl
      after (panicked, d, v) ih = refl

  run_each-append :
      (xs ys : List (Act W Ctx MwError ⊤)) → run_each (xs ++ ys) ≡ (run_each xs >> run_each ys)
  run_each-append [] ys = refl
  run_each-append (x ∷ xs) ys =
      ap (λ (m : Act W Ctx MwError ⊤). x >> m) (run_each-append xs ys)
      ∙ sym (bind_assoc x (λ _. run_each xs) (λ _. run_each ys))

  run_each-enter_steps :
      (host : Host W) (ns : List (Node W)) → run_each (enter_steps host ns) ≡ enter_all host ns
  run_each-enter_steps host [] = unfold enter_all in refl
  run_each-enter_steps host (n ∷ ns) =
      ap (λ (m : Act W Ctx MwError ⊤). (enter host n >>= go_on) >> m) (run_each-enter_steps host ns)
      ∙ sym (enter_all-cons host n ns)

  run_each-exit_steps : (ns : List (Node W)) → run_each (exit_steps ns) ≡ exit_all ns
  unfolding exit_all
  run_each-exit_steps [] = refl
  run_each-exit_steps (n ∷ ns) =
      ap (λ (m : Act W Ctx MwError ⊤). run_hook (exit n) >> m) (run_each-exit_steps ns)

module _ {W : Type 0} (host : Host W) (c : Chain W) (core : Core W) where
  run_each-steps : (run_each (steps host c core) >> get_output) ≡ chain_exec_ctx host c.nodes core
  unfolding steps chain_exec_ctx
  run_each-steps =
      let enters : Act W Ctx MwError ⊤ = enter_all host c.nodes in
      let exits : Act W Ctx MwError ⊤ = exit_all (reverse c.nodes) in
      let middle : Act W Ctx MwError ⊤ = core >>= set_output in
      let then_get : Act W Ctx MwError ⊤ → Act W Ctx MwError ℤ = λ m. m >> get_output in
      ap then_get
        (run_each-append (enter_steps host c.nodes) (middle ∷ exit_steps (reverse c.nodes)))
      ∙ ap
          (λ (m : Act W Ctx MwError ⊤).
            then_get (m >> (middle >> run_each (exit_steps (reverse c.nodes)))))
          (run_each-enter_steps host c.nodes)
      ∙ ap (λ (m : Act W Ctx MwError ⊤). then_get (enters >> (middle >> m)))
          (run_each-exit_steps (reverse c.nodes))
      ∙ bind_assoc enters (λ _. middle >> exits) (λ _. get_output)
      ∙ ap (λ (m : Act W Ctx MwError ℤ). enters >> m)
          (bind_assoc middle (λ _. exits) (λ _. get_output)
            ∙ bind_assoc core set_output (λ _. exits >> get_output))

  abbrev each_alone : W → List ℤ → List (Ended MwError ℤ)
  each_alone w₀ = map (λ input. (exec host c core input w₀).0)

  spawn-outcomes :
      (w₀ : W) (inputs : List ℤ) → outcomes w₀ (spawn host c core inputs) ≡ each_alone w₀ inputs
  unfolding outcome exec chain_exec
  spawn-outcomes w₀ [] = refl
  spawn-outcomes w₀ (input ∷ inputs) = rw (spawn-outcomes w₀ inputs) (
      ap (λ (r : Ended MwError ℤ). r ∷ each_alone w₀ inputs)
        (alone-run_each (steps host c core) (new_ctx input) w₀
          ∙ ap (λ (m : Act W Ctx MwError ℤ). (m (new_ctx input) w₀).0) run_each-steps))

  spawn-AllKeep :
      (w₀ : W) (inputs : List ℤ)
      → AllLocal (steps host c core)
      → AllKeep step ThreadLocal (outcome w₀) (step_keeps w₀) (spawn host c core inputs)
  spawn-AllKeep w₀ [] h = tt
  spawn-AllKeep w₀ (input ∷ inputs) h = (h, spawn-AllKeep w₀ inputs h)

  -- Let no step of the chain read the shared state (it may write to it), and let the schedule give each
  -- thread a turn for each of its steps and one more. Then `exec_parallel` ends, with the results of the
  -- executions of the inputs one by one, each from any shared state `w₀`, joined in the order of the
  -- inputs, whatever the order of the turns is.
  pub exec_parallel-eq-join_all :
      (inputs : List ℤ) (schedule : List ℕ) (w w₀ : W)
      → AllLocal (steps host c core)
      → ((i : ℕ) → i < length inputs → length (steps host c core) < turns schedule i)
      → (w' : W) × (exec_parallel host c core inputs schedule w
          ≡ some (join_all (map (λ input. (exec host c core input w₀).0) inputs), w'))
  unfolding exec_parallel
  exec_parallel-eq-join_all inputs schedule w w₀ h enough =
      let threads = spawn host c core inputs in
      let (rs, e) =
        run_schedule_finishes schedule threads w
          (spawn-AllLeft host c core inputs (turns schedule) enough) in
      let (ts', w') = run_schedule step schedule threads w in
      let same : rs ≡ each_alone w₀ inputs =
        sym (results_of-outcomes ts' rs w₀ e)
        ∙ run_schedule_keeps step ThreadLocal (outcome w₀) (step_keeps w₀) schedule threads w
            (spawn-AllKeep w₀ inputs h)
        ∙ spawn-outcomes w₀ inputs in
      (w', rw (exec_parallel, e) (ap (λ (l : List (Ended MwError ℤ)). some (join_all l, w')) same))
