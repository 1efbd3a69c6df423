-- ===== src/Async/Typed/Agreement.antt =====
-- If each middleware's future ends, an asynchronous typed chain does what the synchronous chain does.
use proc_mw.Common.{
  ℕ, zero, suc, ◌*◌, ◌<◌, ◌≡◌, refl, ap, sym, ◌∙◌, ⊤, some, List, [], ◌∷◌, map, reverse,
  map-reverse, length, arith,
}
use proc_mw.Int.{ℤ}
use proc_mw.Effect.{Ended, ok, err, panicked, Act, Hook, pure, then_run, ◌>>=◌, ◌>>◌, run_hook}
use proc_mw.Async.{Poll, Poller, ready, pending, block_on, go_on_polling}
use proc_mw.Async.Loop.{AllFinish, run_each, loop_then_finishes}
use proc_mw.Async.Middleware.{AsyncMw, passed, call_then, stage, each, without_ctx}
use proc_mw.Async.Middleware
use proc_mw.Dispatch.{
  Ctx, new_ctx, Flow, MwError, go_on, Host, Mw, Node, dyn, enter, exit, enter_all, exit_all,
  chain_exec_ctx, chain_exec,
}
use proc_mw.Dispatch.Errors.{enter_all-cons}
use proc_mw.Async.Typed.{new_chain, core_and_exits, exec_future, exec}

module _ {W : Type 0} where
  abbrev acts : List (Mw W) → List (Act W Ctx MwError ⊤)
  acts [] = []
  acts (n ∷ ns) = (n.enter >>= go_on) ∷ acts ns

  run_exits : List (Hook W Ctx ⊤) → Act W Ctx MwError ⊤
  run_exits [] = pure tt
  run_exits (h ∷ hs) = run_hook h >> run_exits hs

  sync_exits : (ns : List (Node W)) → exit_all ns ≡ run_exits (map exit ns)
  unfolding exit_all run_exits
  sync_exits [] = refl
  sync_exits (n ∷ ns) = ap (λ (a : Act W Ctx MwError ⊤). run_hook (exit n) >> a) (sync_exits ns)

module _ {W : Type 0} (host : Host W) where
  run_each-acts : (ns : List (Mw W)) → run_each (acts ns) ≡ enter_all host (map dyn ns)
  unfolding enter
  run_each-acts [] = unfold enter_all in refl
  run_each-acts (n ∷ ns) =
      ap (λ (a : Act W Ctx MwError ⊤). (n.enter >>= go_on) >> a) (run_each-acts ns)
      ∙ sym (enter_all-cons host (dyn n) (map dyn ns))

module _ {W P : Type 0} (idle : W → W) (host : Host W) where
  -- Whatever the context and the shared state are, the future of the call is ready after its first poll
  -- and `k` more, and comes to what the enter hook of the synchronous middleware does.
  abbrev pub Awaited : ℕ → AsyncMw W Ctx P → Mw W → Type 0
  Awaited k m n =
      ((c : Ctx) (w : W)
        → go_on_polling idle m.poll k (call_then m.poll m c w) ≡ some (n.enter c w))
      × (m.exit ≡ n.exit)

  abbrev pub AllAwaited : ℕ → List (AsyncMw W Ctx P) → List (Mw W) → Type 0
  AllAwaited k [] [] = ⊤
  AllAwaited k (m ∷ ms) (n ∷ ns) = Awaited k m n × AllAwaited k ms ns
  AllAwaited k _ _ = ⊥

  passed_ready :
      (k : ℕ) (poll : Poller W Ctx P MwError ⊤) (x : Ended MwError Flow × Ctx × W)
      → go_on_polling idle poll k (passed (ready x.0, x.1, x.2)) ≡ some (then_run go_on x)
  passed_ready k poll (ok flow, c, w) = refl
  passed_ready k poll (err e, c, w) = refl
  passed_ready k poll (panicked, c, w) = refl

  passed_finishes :
      (m : AsyncMw W Ctx P) (k : ℕ) (x : Poll P MwError Flow × Ctx × W)
      (res : Ended MwError Flow × Ctx × W)
      → go_on_polling idle m.poll k x ≡ some res
      → go_on_polling idle (stage m).resume k (passed x) ≡ some (then_run go_on res)
  unfolding block_on stage
  passed_finishes m k (ready e, c, w) res h =
      let same : (e, c, w) ≡ res = ground (arith, h) in
      passed_ready k (stage m).resume (e, c, w)
      ∙ ap (λ (y : Ended MwError Flow × Ctx × W). some (then_run go_on y)) same
  passed_finishes m zero (pending p, c, w) res h = absurd (ground (arith, h))
  passed_finishes m (suc k) (pending p, c, w) res h =
      passed_finishes m k (m.poll p c (idle w)) res h

  stages-AllFinish :
      (k : ℕ) (ms : List (AsyncMw W Ctx P)) (ns : List (Mw W))
      → AllAwaited k ms ns
      → AllFinish idle k (each stage ms) (acts ns)
  unfolding stage
  stages-AllFinish k [] [] h = tt
  stages-AllFinish k [] (n ∷ ns) h = absurd h
  stages-AllFinish k (m ∷ ms) [] h = absurd h
  stages-AllFinish k (m ∷ ms) (n ∷ ns) (h, hs) = (
    λ c w. passed_finishes m k (call_then m.poll m c w) (n.enter c w) (h.0 c w),
    stages-AllFinish k ms ns hs,
  )

  abbrev exit_of : AsyncMw W Ctx P → Hook W Ctx ⊤
  exit_of m = m.exit

  exits_agree :
      (k : ℕ) (ms : List (AsyncMw W Ctx P)) (ns : List (Mw W))
      → AllAwaited k ms ns
      → map exit_of ms ≡ map exit (map dyn ns)
  unfolding exit
  exits_agree k [] [] h = refl
  exits_agree k [] (n ∷ ns) h = absurd h
  exits_agree k (m ∷ ms) [] h = absurd h
  exits_agree k (m ∷ ms) (n ∷ ns) (h, hs) = rw (h.1, exits_agree k ms ns hs)

  async_exits : (ms : List (AsyncMw W Ctx P)) → Middleware.exit_all ms ≡ run_exits (map exit_of ms)
  unfolding Middleware.exit_all run_exits
  async_exits [] = refl
  async_exits (m ∷ ms) = ap (λ (a : Act W Ctx MwError ⊤). run_hook m.exit >> a) (async_exits ms)

  exit_all_agrees :
      (k : ℕ) (ms : List (AsyncMw W Ctx P)) (ns : List (Mw W))
      → AllAwaited k ms ns
      → Middleware.exit_all (reverse ms) ≡ exit_all (reverse (map dyn ns))
  exit_all_agrees k ms ns h =
      async_exits (reverse ms)
      ∙ ap run_exits (
          map-reverse exit_of ms
          ∙ ap reverse (exits_agree k ms ns h)
          ∙ sym (map-reverse exit (map dyn ns)))
      ∙ sym (sync_exits (reverse (map dyn ns)))

  length-each : (ms : List (AsyncMw W Ctx P)) → length (each stage ms) ≡ length ms
  length-each [] = refl
  length-each (m ∷ ms) = ap suc (length-each ms)

  -- Let the future of each middleware be ready after at most its first poll and `k` more, and do what
  -- the enter hook of a synchronous middleware does, with the same exit hook. Then the asynchronous
  -- chain ends, after at most one poll and `k` more for each middleware, and does what the chain of the
  -- synchronous middleware does.
  pub exec-eq-chain_exec :
      (k fuel : ℕ) (ms : List (AsyncMw W Ctx P)) (ns : List (Mw W)) (core : Act W Ctx MwError ℤ)
      (input : ℤ) (w : W)
      → AllAwaited k ms ns
      → k * length ms < fuel
      → exec idle fuel (new_chain ms) core input w
        ≡ some (chain_exec host (map dyn ns) core input w)
  unfolding exec exec_future core_and_exits chain_exec chain_exec_ctx
  exec-eq-chain_exec k fuel ms ns core input w h le =
      ap without_ctx (
        loop_then_finishes idle k fuel (each stage ms) (acts ns) (core_and_exits ms core)
          (new_ctx input) w (stages-AllFinish k ms ns h) (rw (length-each ms) le))
      ∙ rw (run_each-acts host ns, exit_all_agrees k ms ns h) refl
