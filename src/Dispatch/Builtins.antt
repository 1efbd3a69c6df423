-- ===== src/Dispatch/Builtins.antt =====
-- What the built-in nodes guarantee, wherever the rest of the chain comes from.
use proc_mw.Common.{
  ℕ, ⊤, ◌≡◌, refl, ap, ◌∙◌, fun_ext, Option, none, some, List, [], ◌∷◌, map, arith, leb,
  if◌then◌else◌,
}
use proc_mw.Int.{ℤ, ◌≤ℤ◌, ltb_ℤ}
use proc_mw.Effect.{Ended, ok, err, panicked, Act, then_run, ◌>>=◌, ◌>>◌, run_hook}
use proc_mw.Onion.{onion}
use proc_mw.Dispatch.Errors.{enter_all-cons}
use proc_mw.Dispatch.Refines.{layer, chain_exec_ctx-eq-onion, chain_exec_ctx-cons}
use proc_mw.Dispatch.{
  Ctx, new_ctx, MwError, timeout, Host, Node, builtin, Builtin, add, cap, deadline_check,
  trace_init, enter_builtin, go_on, enter, exit, set_output, get_output, enter_all, chain_exec_ctx,
  chain_exec,
}

module _ {W : Type 0} (host : Host W) where
  capped :
      (n v : ℤ) (r : Ended MwError ℤ × Ctx × W)
      → (then_run (λ (u : ℤ). set_output u >> run_hook (exit (builtin (cap n))) >> get_output) r).0
        ≡ ok v
      → v ≤ℤ n
  unfolding exit
  capped n v (ok u, c, w) h = ground arith
  capped n v (err e, c, w) h = cc
  capped n v (panicked, c, w) h = cc

  -- `Cap` at the head of a chain bounds the number that the chain returns, if it returns one,
  -- whatever the other nodes and the core do.
  pub cap_bounds_result :
      (n : ℤ) (ns : List (Node W)) (core : Act W Ctx MwError ℤ) (input : ℤ) (w : W) {v : ℤ} {w' : W}
      → chain_exec host (builtin (cap n) ∷ ns) core input w ≡ (ok v, w')
      → v ≤ℤ n
  unfolding chain_exec enter
  cap_bounds_result n ns core input w {v} h =
      let inside : Ctx =
        if ltb_ℤ n input then record (new_ctx input) { input = n } else new_ctx input in
      capped n v (chain_exec_ctx host ns core inside w) (
        rw (chain_exec_ctx-cons host (builtin (cap n)) ns core) at
          (ap (λ (r : Ended MwError ℤ × W). r.0) h))

  then_keep :
      (r : Ended MwError ⊤ × Ctx × W)
      → then_run (λ (v : ℤ). set_output v >> get_output) (then_run (λ (_ : ⊤). get_output) r)
        ≡ then_run (λ (_ : ⊤). get_output) r
  then_keep (ok u, c, w) = refl
  then_keep (err e, c, w) = refl
  then_keep (panicked, c, w) = refl

  -- Behind a chain, a node whose exit does nothing leaves the result and the state alone.
  chain_exec_ctx_keep :
      (ns : List (Node W)) (core : Act W Ctx MwError ℤ)
      → (do v ← chain_exec_ctx host ns core; set_output v; get_output) ≡ chain_exec_ctx host ns core
  chain_exec_ctx_keep ns core =
      rw (chain_exec_ctx-eq-onion host ns core) (
        fun_ext λ c. fun_ext λ w. then_keep (onion (map (layer host) ns) (core >>= set_output) c w))

  -- `DeadlineCheck` at the head of a chain: with no deadline it is not there; otherwise it reads
  -- the clock once, and the rest of the chain runs only if the deadline is still to come.
  pub deadline_check_lem :
      (ns : List (Node W)) (core : Act W Ctx MwError ℤ) (c : Ctx) (w : W)
      → chain_exec_ctx host (builtin deadline_check ∷ ns) core c w ≡ (elim c.deadline [
        | none ↦ chain_exec_ctx host ns core c w
        | some dl ↦
            let (now, w') = host.now w in
            if leb dl now then (err timeout, c, w') else chain_exec_ctx host ns core c w'
      ])
  unfolding enter exit
  deadline_check_lem ns core c w =
      rw (chain_exec_ctx-cons host (builtin deadline_check) ns core)
        (ground (arith, keep_at w, keep_at (host.now w).1))
    where
      keep_at :
          (v : W)
          → (do u ← chain_exec_ctx host ns core; set_output u; get_output) c v
            ≡ chain_exec_ctx host ns core c v
      keep_at v = ap (λ (m : Act W Ctx MwError ℤ). m c v) (chain_exec_ctx_keep ns core)

-- The trace identifier that the last `TraceInit` of a list leaves, or else the one before.
abbrev pub last_trace : List Builtin → Option ℕ → Option ℕ
last_trace [] t = t
last_trace (trace_init id ∷ bs) t = last_trace bs (some id)
last_trace (_ ∷ bs) t = last_trace bs t

last_trace-cons :
    (b : Builtin) (bs : List Builtin) (t : Option ℕ)
    → last_trace (b ∷ bs) t ≡ last_trace bs (last_trace (b ∷ []) t)
last_trace-cons (trace_init id) bs t = refl
last_trace-cons _ bs t = refl

abbrev Keeps : {W A : Type 0} → Option ℕ → Ctx → Ended MwError A × Ctx × W → Type 0
Keeps t c (ok _, c', _) = (c'.trace_id ≡ t) × (c'.output ≡ c.output) × (c'.deadline ≡ c.deadline)
Keeps t c (_, _, _) = ⊤

Keeps-trans :
    {W A : Type 0} (t : Option ℕ) (c c' : Ctx) (r : Ended MwError A × Ctx × W)
    → c'.output ≡ c.output
    → c'.deadline ≡ c.deadline
    → Keeps t c' r
    → Keeps t c r
Keeps-trans t c c' (ok _, _, _) o d (t', o', d') = (t', o' ∙ o, d' ∙ d)
Keeps-trans t c c' (err _, _, _) _ _ _ = tt
Keeps-trans t c c' (panicked, _, _) _ _ _ = tt

module _ {W : Type 0} (host : Host W) where
  enter_builtin-Keeps :
      (b : Builtin) (c : Ctx) (w : W)
      → Keeps (last_trace (b ∷ []) c.trace_id) c ((enter_builtin host b >>= go_on) c w)
  unfolding enter_builtin
  enter_builtin-Keeps (add k) c w = ground arith
  enter_builtin-Keeps _ c w = ground arith

  enter_all-Keeps :
      (bs : List Builtin) (c : Ctx) (w : W)
      → Keeps (last_trace bs c.trace_id) c (enter_all host (map builtin bs) c w)
  unfolding enter
  enter_all-Keeps [] c w = unfold enter_all in (refl, refl, refl)
  enter_all-Keeps (b ∷ bs) c w =
      rw (enter_all-cons host (builtin b) (map builtin bs), last_trace-cons b bs)
        (after _ (enter_builtin-Keeps b c w) (λ c' w'. enter_all-Keeps bs c' w'))
    where
      after :
          (r : Ended MwError ⊤ × Ctx × W)
          → Keeps (last_trace (b ∷ []) c.trace_id) c r
          → ((c' : Ctx) (w' : W)
              → Keeps (last_trace bs c'.trace_id) c' (enter_all host (map builtin bs) c' w'))
          → Keeps
              (last_trace bs (last_trace (b ∷ []) c.trace_id))
              c
              (then_run (λ (_ : ⊤). enter_all host (map builtin bs)) r)
      after (ok _, c', w') (t, o, d) ih =
          rw (← t) (Keeps-trans _ c c' (enter_all host (map builtin bs) c' w') o d (ih c' w'))
      after (err _, _, _) _ _ = tt
      after (panicked, _, _) _ _ = tt

  -- Built-in nodes that let a request through leave the output and the deadline as they were, and
  -- the trace identifier as the last `TraceInit` among them set it.
  pub enter_all_keeps :
      (bs : List Builtin) (c : Ctx) (w : W) {c' : Ctx} {w' : W}
      → enter_all host (map builtin bs) c w ≡ (ok tt, c', w')
      → (c'.trace_id ≡ last_trace bs c.trace_id)
        × (c'.output ≡ c.output)
        × (c'.deadline ≡ c.deadline)
  enter_all_keeps bs c w h = rw h at (enter_all-Keeps bs c w)
