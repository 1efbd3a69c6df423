-- ===== src/Opaque/Independence.antt =====
-- Threads that do not read what they share have the results of executions one after the other.
use mathlib.Core.List.{reverse-cons}
use proc_mw.Common.{
  ℕ, zero, suc, ◌+◌, ◌*◌, ◌≤◌, ◌<◌, ◌≡◌, refl, ap, sym, ◌∙◌, ⊤, some, List, [], ◌∷◌, ◌++◌, map,
  reverse, length, length-reverse, arith,
}
use proc_mw.Int.{ℤ, pos, negsuc}
use proc_mw.Effect.{Ended, ok, err, panicked, Act, Hook, then_run, run_hook, pure, ◌>>=◌, ◌>>◌}
use proc_mw.Effect.Laws.{bind_assoc}
use proc_mw.Effect.Local.{IsLocal, bind-IsLocal, run_hook-IsLocal}
use proc_mw.Schedule.{turns, run_schedule, AllLeft, run_schedule_ends, AllKeep, run_schedule_keeps}
use proc_mw.Opaque.{
  OpaqueNode, OpaqueChain, Verdict, opaque_reject, enter, exit, check_code, enter_all, exit_all,
  exec, exec_catch,
}
use proc_mw.Opaque.Parallel.{
  Thread, entering, exiting, finished, entered, computed, exited, step, join, join_all,
  exec_parallel,
}

module _ {W R : Type 0} where
  -- A node's hooks neither read the shared state.
  abbrev pub NodeIsLocal : OpaqueNode W R → Type 0
  NodeIsLocal n = IsLocal (enter n) × IsLocal (exit n)

  abbrev pub AllLocal : List (OpaqueNode W R) → Type 0
  AllLocal [] = ⊤
  AllLocal (n ∷ ns) = NodeIsLocal n × AllLocal ns

  AllLocal-append :
      (ns ms : List (OpaqueNode W R)) → AllLocal ns → AllLocal ms → AllLocal (ns ++ ms)
  AllLocal-append [] ms h k = k
  AllLocal-append (n ∷ ns) ms (h, hs) k = (h, AllLocal-append ns ms hs k)

  AllLocal-reverse : (ns : List (OpaqueNode W R)) → AllLocal ns → AllLocal (reverse ns)
  AllLocal-reverse [] h = tt
  AllLocal-reverse (n ∷ ns) (h, hs) =
      rw (reverse-cons n ns)
        (AllLocal-append (reverse ns) (n ∷ []) (AllLocal-reverse ns hs) (h, tt))

  check_code-IsLocal : (code : ℤ) → IsLocal (check_code {W = W} {R = R} code)
  unfolding check_code
  check_code-IsLocal (pos zero) r v w = (refl, refl)
  check_code-IsLocal (pos (suc n)) r v w = (refl, refl)
  check_code-IsLocal (negsuc n) r v w = (refl, refl)

  enter_all-IsLocal : (ns : List (OpaqueNode W R)) → AllLocal ns → IsLocal (enter_all ns)
  unfolding enter_all
  enter_all-IsLocal [] h = λ r v w. (refl, refl)
  enter_all-IsLocal (n ∷ ns) ((h, _), hs) =
      bind-IsLocal (run_hook (enter n)) (λ code. check_code code >> enter_all ns)
        (run_hook-IsLocal (enter n) h)
        (λ code.
          bind-IsLocal (check_code code) (λ _. enter_all ns) (check_code-IsLocal code)
            (λ _. enter_all-IsLocal ns hs))

  exit_all-IsLocal : (ns : List (OpaqueNode W R)) → AllLocal ns → IsLocal (exit_all ns)
  unfolding exit_all
  exit_all-IsLocal [] h = λ r v w. (refl, refl)
  exit_all-IsLocal (n ∷ ns) ((_, h), hs) =
      bind-IsLocal (run_hook (exit n)) (λ _. exit_all ns) (run_hook-IsLocal (exit n) h)
        (λ _. exit_all-IsLocal ns hs)

module _ {W R O : Type 0} (chain : OpaqueChain W R) (core : Hook W R O) where
  -- What is left to do for a thread, and what it comes to from the shared state `w`
  exits_from : O → List (OpaqueNode W R) → Act W R ℤ O
  exits_from o ns = exit_all ns >> pure o

  core_from : Act W R ℤ O
  unfolding exits_from
  core_from = run_hook core >>= λ o. exits_from o (reverse chain.nodes)

  enters_from : List (OpaqueNode W R) → Act W R ℤ O
  unfolding core_from
  enters_from ns = enter_all ns >> core_from

  outcome : W → Thread W R O → Ended ℤ O
  unfolding enters_from
  outcome w (entering r ns) = (enters_from ns r w).0
  outcome w (exiting r o ns) = (exits_from o ns r w).0
  outcome w (finished x) = x

  abbrev ThreadIsLocal : Thread W R O → Type 0
  ThreadIsLocal (entering r ns) = AllLocal ns
  ThreadIsLocal (exiting r o ns) = AllLocal ns
  ThreadIsLocal (finished x) = ⊤

  -- The turns that a thread needs
  abbrev left : Thread W R O → ℕ
  left (entering r ns) = length ns + length chain.nodes + 2
  left (exiting r o ns) = length ns + 1
  left (finished x) = 0

  module _ (nodes_local : AllLocal chain.nodes) (core_local : IsLocal core) where
    exits_from-IsLocal :
        (o : O) (ns : List (OpaqueNode W R)) → AllLocal ns → IsLocal (exits_from o ns)
    unfolding exits_from
    exits_from-IsLocal o ns h =
        bind-IsLocal (exit_all ns) (λ _. pure o) (exit_all-IsLocal ns h) (λ _ r v w. (refl, refl))

    core_from-IsLocal : IsLocal core_from
    unfolding core_from
    core_from-IsLocal =
        bind-IsLocal (run_hook core) (λ o. exits_from o (reverse chain.nodes))
          (run_hook-IsLocal core core_local)
          (λ o.
            exits_from-IsLocal o (reverse chain.nodes) (AllLocal-reverse chain.nodes nodes_local))

    enters_from-IsLocal : (ns : List (OpaqueNode W R)) → AllLocal ns → IsLocal (enters_from ns)
    unfolding enters_from
    enters_from-IsLocal ns h =
        bind-IsLocal (enter_all ns) (λ _. core_from) (enter_all-IsLocal ns h)
          (λ _. core_from-IsLocal)

    -- The outcome of a thread does not depend on the shared state.
    outcome_local : (t : Thread W R O) (v w : W) → ThreadIsLocal t → outcome v t ≡ outcome w t
    unfolding outcome
    outcome_local (entering r ns) v w h = (enters_from-IsLocal ns h r v w).0
    outcome_local (exiting r o ns) v w h = (exits_from-IsLocal o ns h r v w).0
    outcome_local (finished x) v w h = refl

    -- A step moves on to the outcome, from the shared state that it leaves.
    entered_keeps :
        (ns : List (OpaqueNode W R)) (x : Ended ℤ ⊤ × R × W)
        → AllLocal ns
        → let y = entered {O = O} ns x in
          ThreadIsLocal y.0 × (outcome y.1 y.0 ≡ (then_run (λ _. enters_from ns) x).0)
    unfolding outcome
    entered_keeps ns (ok _, r, w) h = (h, refl)
    entered_keeps ns (err e, r, w) h = (tt, refl)
    entered_keeps ns (panicked, r, w) h = (tt, refl)

    computed_keeps :
        (ns : List (OpaqueNode W R)) (x : Ended ℤ O × R × W)
        → AllLocal ns
        → let y = computed ns x in
          ThreadIsLocal y.0 × (outcome y.1 y.0 ≡ (then_run (λ o. exits_from o ns) x).0)
    unfolding outcome
    computed_keeps ns (ok o, r, w) h = (h, refl)
    computed_keeps ns (err e, r, w) h = (tt, refl)
    computed_keeps ns (panicked, r, w) h = (tt, refl)

    exited_keeps :
        (o : O) (ns : List (OpaqueNode W R)) (x : Ended ℤ ⊤ × R × W)
        → AllLocal ns
        → let y = exited o ns x in
          ThreadIsLocal y.0 × (outcome y.1 y.0 ≡ (then_run (λ _. exits_from o ns) x).0)
    unfolding outcome
    exited_keeps o ns (ok _, r, w) h = (h, refl)
    exited_keeps o ns (err e, r, w) h = (tt, refl)
    exited_keeps o ns (panicked, r, w) h = (tt, refl)

    enters_from-cons :
        (n : OpaqueNode W R) (ns : List (OpaqueNode W R))
        → ((run_hook (enter n) >>= check_code) >> enters_from ns) ≡ enters_from (n ∷ ns)
    unfolding enters_from enter_all
    enters_from-cons n ns =
        let code : Act W R ℤ ℤ = run_hook (enter n) in
        sym (bind_assoc (code >>= check_code) (λ _. enter_all ns) (λ _. core_from))
        ∙ ap (λ (m : Act W R ℤ ⊤). m >> core_from) (bind_assoc code check_code (λ _. enter_all ns))

    exits_from-cons :
        (o : O) (n : OpaqueNode W R) (ns : List (OpaqueNode W R))
        → (run_hook (exit n) >> exits_from o ns) ≡ exits_from o (n ∷ ns)
    unfolding exits_from exit_all
    exits_from-cons o n ns = sym (bind_assoc (run_hook (exit n)) (λ _. exit_all ns) (λ _. pure o))

    step_moves :
        (t : Thread W R O) (w : W)
        → ThreadIsLocal t
        → let y = step chain core t w in ThreadIsLocal y.0 × (outcome y.1 y.0 ≡ outcome w t)
    unfolding step outcome
    step_moves (entering r (n ∷ ns)) w (h, hs) =
        let (kept, same) = entered_keeps ns ((run_hook (enter n) >>= check_code) r w) hs in
        (kept, same ∙ ap (λ (m : Act W R ℤ O). (m r w).0) (enters_from-cons n ns))
    step_moves (entering r []) w h =
        let (kept, same) =
          computed_keeps (reverse chain.nodes) (run_hook core r w)
            (AllLocal-reverse chain.nodes nodes_local) in
        (kept, same ∙ (unfold core_from enters_from enter_all in refl))
    step_moves (exiting r o (n ∷ ns)) w (h, hs) =
        let (kept, same) = exited_keeps o ns (run_hook (exit n) r w) hs in
        (kept, same ∙ ap (λ (m : Act W R ℤ O). (m r w).0) (exits_from-cons o n ns))
    step_moves (exiting r o []) w h = (tt, (unfold exits_from exit_all in refl))
    step_moves (finished x) w h = (tt, refl)

    step_keeps :
        (w₀ : W) (t : Thread W R O) (w : W)
        → ThreadIsLocal t
        → ThreadIsLocal (step chain core t w).0
          × (outcome w₀ (step chain core t w).0 ≡ outcome w₀ t)
    step_keeps w₀ t w h =
        let (t', w') = step chain core t w in
        let (kept, same) = step_moves t w h in
        (kept, outcome_local t' w₀ w' kept ∙ same ∙ outcome_local t w w₀ h)

  left-entered :
      (ns : List (OpaqueNode W R)) (x : Ended ℤ ⊤ × R × W)
      → left (entered ns x).0 ≤ length ns + length chain.nodes + 2
  left-entered ns (ok _, r, w) = omega arith
  left-entered ns (err e, r, w) = omega arith
  left-entered ns (panicked, r, w) = omega arith

  left-computed :
      (ns : List (OpaqueNode W R)) (x : Ended ℤ O × R × W) → left (computed ns x).0 ≤ length ns + 1
  left-computed ns (ok _, r, w) = omega arith
  left-computed ns (err e, r, w) = omega arith
  left-computed ns (panicked, r, w) = omega arith

  left-exited :
      (o : O) (ns : List (OpaqueNode W R)) (x : Ended ℤ ⊤ × R × W)
      → left (exited o ns x).0 ≤ length ns + 1
  left-exited o ns (ok _, r, w) = omega arith
  left-exited o ns (err e, r, w) = omega arith
  left-exited o ns (panicked, r, w) = omega arith

  left-step : (t : Thread W R O) (w : W) (n : ℕ) → left t ≤ suc n → left (step chain core t w).0 ≤ n
  unfolding step
  left-step (entering r (m ∷ ns)) w n h =
      omega (arith, left-entered ns ((run_hook (enter m) >>= check_code) r w))
  left-step (entering r []) w n h =
      omega
        (arith, left-computed (reverse chain.nodes) (run_hook core r w), length-reverse chain.nodes)
  left-step (exiting r o (m ∷ ns)) w n h = omega (arith, left-exited o ns (run_hook (exit m) r w))
  left-step (exiting r o []) w n h = omega arith
  left-step (finished x) w n h = omega arith

  -- Threads that need no turn are joined.
  join_all_ended :
      (w₀ : W) (ts : List (Thread W R O)) (g : ℕ → ℕ)
      → ((i : ℕ) → g i ≡ 0)
      → AllLeft (step chain core) left left-step g ts
      → join_all ts ≡ some (map join (map (outcome w₀) ts))
  unfolding outcome
  join_all_ended w₀ [] g z h = refl
  join_all_ended w₀ (entering r ns ∷ ts) g z (h, hs) = absurd (omega (arith, z zero))
  join_all_ended w₀ (exiting r o ns ∷ ts) g z (h, hs) = absurd (omega (arith, z zero))
  join_all_ended w₀ (finished x ∷ ts) g z (h, hs) =
      rw (join_all_ended w₀ ts (λ k. g (suc k)) (λ i. z (suc i)) hs) refl

  spawn-AllLeft :
      (reqs : List R) (g : ℕ → ℕ)
      → ((i : ℕ) → i < length reqs → 2 * length chain.nodes + 1 < g i)
      → AllLeft (step chain core) left left-step g (map (λ r. entering r chain.nodes) reqs)
  spawn-AllLeft [] g h = tt
  spawn-AllLeft (r ∷ reqs) g h = (
    omega (arith, h zero (omega arith)),
    spawn-AllLeft reqs (λ k. g (suc k)) (λ i lt. h (suc i) (omega arith)),
  )

  join-catch :
      (x : Ended ℤ O × R × W)
      → join
          (elim x.0 as (λ _. Ended ℤ O × R × W) [
            | panicked ↦ (err opaque_reject, x.1, x.2)
            | res' ↦ (res', x.1, x.2)
          ]).0
        ≡ join x.0
  join-catch (ok o, r, w) = refl
  join-catch (err e, r, w) = refl
  join-catch (panicked, r, w) = refl

  caught : (r : R) (w : W) → join (exec_catch chain core r w).0 ≡ join (exec chain core r w).0
  unfolding exec_catch
  caught r w = join-catch (exec chain core r w)

  outcome-spawn :
      (w₀ : W) (reqs : List R)
      → map join (map (outcome w₀) (map (λ r. entering r chain.nodes) reqs))
        ≡ map (λ r. join (exec_catch chain core r w₀).0) reqs
  unfolding outcome enters_from core_from exits_from exec
  outcome-spawn w₀ [] = refl
  outcome-spawn w₀ (r ∷ reqs) =
      ap
        (λ (x : Verdict O ℤ).
          x ∷ map join (map (outcome w₀) (map (λ q. entering q chain.nodes) reqs)))
        (sym (caught r w₀))
      ∙ ap (λ (xs : List (Verdict O ℤ)). join (exec_catch chain core r w₀).0 ∷ xs)
          (outcome-spawn w₀ reqs)

  spawn-AllKeep :
      (nodes_local : AllLocal chain.nodes) (core_local : IsLocal core) (w₀ : W) (reqs : List R)
      → AllKeep
          (step chain core)
          ThreadIsLocal
          (outcome w₀)
          (step_keeps nodes_local core_local w₀)
          (map (λ r. entering r chain.nodes) reqs)
  spawn-AllKeep nodes_local core_local w₀ [] = tt
  spawn-AllKeep nodes_local core_local w₀ (r ∷ reqs) =
      (nodes_local, spawn-AllKeep nodes_local core_local w₀ reqs)

  -- Let neither the hooks nor the core read the shared state (they may write to it), and let the schedule
  -- give each thread more turns than twice the number of the nodes and one. Then `exec_parallel` ends, and
  -- never by a panic: it has the results of `exec_catch` on the requests one by one, each from any shared
  -- state `w₀`, in the order of the requests, whatever the order of the turns is.
  pub exec_parallel-eq-exec_catch :
      (reqs : List R) (schedule : List ℕ) (w w₀ : W)
      → AllLocal chain.nodes
      → IsLocal core
      → ((i : ℕ) → i < length reqs → 2 * length chain.nodes + 1 < turns schedule i)
      → (w' : W) × (exec_parallel chain core reqs schedule w
          ≡ some (map (λ r. join (exec_catch chain core r w₀).0) reqs, w'))
  unfolding exec_parallel
  exec_parallel-eq-exec_catch reqs schedule w w₀ nodes_local core_local enough =
      let threads : List (Thread W R O) = map (λ r. entering r chain.nodes) reqs in
      let (ts, w') = run_schedule (step chain core) schedule threads w in
      let joined : join_all ts ≡ some (map join (map (outcome w₀) ts)) =
        join_all_ended w₀ ts (turns []) (λ i. refl)
          (run_schedule_ends (step chain core) left left-step schedule threads w
            (spawn-AllLeft reqs (turns schedule) enough)) in
      let kept : map (outcome w₀) ts ≡ map (outcome w₀) threads =
        run_schedule_keeps (step chain core) ThreadIsLocal (outcome w₀)
          (step_keeps nodes_local core_local w₀) schedule threads w
          (spawn-AllKeep nodes_local core_local w₀ reqs) in
      (
        w',
        rw (joined, exec_parallel)
            (ap (λ (xs : List (Ended ℤ O)). some (map join xs, w')) kept
              ∙ ap (λ (xs : List (Verdict O ℤ)). some (xs, w')) (outcome-spawn w₀ reqs)),
      )
