-- ===== src/Async/Erased/Agreement.antt =====
-- If each node's future ends, an asynchronous chain does what a synchronous chain does.
use proc_mw.Common.{
  ℕ, zero, suc, ◌*◌, ◌<◌, ◌≡◌, refl, ap, sym, ◌∙◌, ⊤, some, List, [], ◌∷◌, map, reverse,
  map-reverse, length, arith,
}
use proc_mw.Int.{ℤ}
use proc_mw.Effect.{
  Ended, ok, err, panicked, Act, Hook, pure, then_run, raise_none, ◌>>=◌, ◌>>◌, run_hook,
}
use proc_mw.Async.{Poll, ready, pending, Poller, block_on, go_on_polling}
use proc_mw.Async.Loop.{Finishes, AllFinish, run_each, loop_then_finishes}
use proc_mw.Opaque
use proc_mw.Opaque.{OpaqueNode, thin, stateful, check_code}
use proc_mw.Opaque.Errors.{enter_all-cons}
use proc_mw.Async.Erased.{
  OpaqueAsyncMw, OpaqueAsyncNode, sync, async, new_chain, checked, first_poll, stage, stages, exit,
  exit_all, core_and_exits, exec_future, exec,
}

module _ {W R : Type 0} where
  abbrev entering : OpaqueNode W R → Act W R ℤ ⊤
  entering n = run_hook (Opaque.enter n) >>= check_code

  abbrev acts : List (OpaqueNode W R) → List (Act W R ℤ ⊤)
  acts [] = []
  acts (n ∷ ns) = entering n ∷ acts ns

  run_each-acts : (ns : List (OpaqueNode W R)) → run_each (acts ns) ≡ Opaque.enter_all ns
  run_each-acts [] = unfold Opaque.enter_all in refl
  run_each-acts (n ∷ ns) =
      ap (λ (m : Act W R ℤ ⊤). entering n >> m) (run_each-acts ns) ∙ sym (enter_all-cons n ns)

  run_exits : List (Hook W R ⊤) → Act W R ℤ ⊤
  run_exits [] = pure tt
  run_exits (h ∷ hs) = run_hook h >> run_exits hs

  exit_all-run_exits :
      (ns : List (OpaqueNode W R)) → Opaque.exit_all ns ≡ run_exits (map Opaque.exit ns)
  unfolding run_exits Opaque.exit_all
  exit_all-run_exits [] = refl
  exit_all-run_exits (n ∷ ns) =
      ap (λ (m : Act W R ℤ ⊤). run_hook (Opaque.exit n) >> m) (exit_all-run_exits ns)

module _ {W R P : Type 0} (idle : W → W) where
  -- Whatever the request and the shared state are, the future that the node returns is ready after its
  -- first poll and `k` more, and comes to what the enter hook of the synchronous node does.
  abbrev pub Awaited : ℕ → OpaqueAsyncNode W R P → OpaqueNode W R → Type 0
  Awaited k (sync sn) n = sn ≡ n
  Awaited k (async mw) (stateful m) =
      ((r : R) (w : W) → go_on_polling idle mw.poll k (first_poll mw r w) ≡ some (m.enter r w))
      × (mw.exit ≡ m.exit)
  Awaited k (async mw) (thin _) = ⊥

  abbrev pub AllAwaited : ℕ → List (OpaqueAsyncNode W R P) → List (OpaqueNode W R) → Type 0
  AllAwaited k [] [] = ⊤
  AllAwaited k (a ∷ as') (n ∷ ns) = Awaited k a n × AllAwaited k as' ns
  AllAwaited k _ _ = ⊥

  checked_ready :
      (poll : Poller W R P ℤ ⊤) (k : ℕ) (x : Ended ⊥ ℤ × R × W)
      → go_on_polling idle poll k (checked (ready x.0, x.1, x.2))
        ≡ some (then_run check_code (raise_none x))
  checked_ready poll k (ok code, r, w) = refl
  checked_ready poll k (err e, r, w) = absurd e
  checked_ready poll k (panicked, r, w) = refl

  checked_finishes :
      (mw : OpaqueAsyncMw W R P) (k : ℕ) (x : Poll P ⊥ ℤ × R × W) (res : Ended ⊥ ℤ × R × W)
      → go_on_polling idle mw.poll k x ≡ some res
      → go_on_polling idle (stage (async mw)).resume k (checked x)
        ≡ some (then_run check_code (raise_none res))
  unfolding block_on stage
  checked_finishes mw k (ready e, r, w) res h =
      checked_ready (stage (async mw)).resume k (e, r, w)
      ∙ ap (λ (y : Ended ⊥ ℤ × R × W). some (then_run check_code (raise_none y)))
          (ground (arith, h))
  checked_finishes mw zero (pending p, r, w) res h = absurd (ground (arith, h))
  checked_finishes mw (suc k) (pending p, r, w) res h =
      checked_finishes mw k (mw.poll p r (idle w)) res h

  stage-Finishes :
      (k : ℕ) (a : OpaqueAsyncNode W R P) (n : OpaqueNode W R)
      → Awaited k a n
      → Finishes idle k (stage a) (entering n)
  unfolding stage
  stage-Finishes k (sync sn) n h r w =
      checked_ready (stage (sync sn)).resume k (Opaque.enter sn r w)
      ∙ ap (λ (m : OpaqueNode W R). some (entering m r w)) h
  stage-Finishes k (async mw) (thin t) h r w = absurd h
  stage-Finishes k (async mw) (stateful m) h r w =
      unfold Opaque.enter in checked_finishes mw k (first_poll mw r w) (m.enter r w) (h.0 r w)

  stages-AllFinish :
      (k : ℕ) (as' : List (OpaqueAsyncNode W R P)) (ns : List (OpaqueNode W R))
      → AllAwaited k as' ns
      → AllFinish idle k (stages as') (acts ns)
  stages-AllFinish k [] [] h = tt
  stages-AllFinish k [] (n ∷ ns) h = absurd h
  stages-AllFinish k (a ∷ as') [] h = absurd h
  stages-AllFinish k (a ∷ as') (n ∷ ns) (h, hs) =
      (stage-Finishes k a n h, stages-AllFinish k as' ns hs)

  exit_agrees :
      (k : ℕ) (a : OpaqueAsyncNode W R P) (n : OpaqueNode W R)
      → Awaited k a n
      → exit a ≡ Opaque.exit n
  unfolding exit Opaque.exit
  exit_agrees k (sync sn) n h = ap (λ (m : OpaqueNode W R). Opaque.exit m) h
  exit_agrees k (async mw) (thin t) h = absurd h
  exit_agrees k (async mw) (stateful m) h = h.1

  async_exits : (as' : List (OpaqueAsyncNode W R P)) → exit_all as' ≡ run_exits (map exit as')
  unfolding exit_all run_exits
  async_exits [] = refl
  async_exits (a ∷ as') = ap (λ (m : Act W R ℤ ⊤). run_hook (exit a) >> m) (async_exits as')

  exits_agree :
      (k : ℕ) (as' : List (OpaqueAsyncNode W R P)) (ns : List (OpaqueNode W R))
      → AllAwaited k as' ns
      → map exit as' ≡ map Opaque.exit ns
  exits_agree k [] [] h = refl
  exits_agree k [] (n ∷ ns) h = absurd h
  exits_agree k (a ∷ as') [] h = absurd h
  exits_agree k (a ∷ as') (n ∷ ns) (h, hs) = rw (exit_agrees k a n h, exits_agree k as' ns hs)

  length-stages : (as' : List (OpaqueAsyncNode W R P)) → length (stages as') ≡ length as'
  length-stages [] = refl
  length-stages (a ∷ as') = ap suc (length-stages as')

  exit_all_agrees :
      (k : ℕ) (as' : List (OpaqueAsyncNode W R P)) (ns : List (OpaqueNode W R))
      → AllAwaited k as' ns
      → exit_all (reverse as') ≡ Opaque.exit_all (reverse ns)
  exit_all_agrees k as' ns h =
      async_exits (reverse as')
      ∙ ap run_exits (
          map-reverse exit as'
          ∙ ap reverse (exits_agree k as' ns h)
          ∙ sym (map-reverse Opaque.exit ns))
      ∙ sym (exit_all-run_exits (reverse ns))

  -- Let the future of each asynchronous node be ready after at most its first poll and `k` more, and do
  -- what the enter hook of a synchronous node does, with the same exit hook; a synchronous node stands
  -- for itself. Then the asynchronous chain ends, after at most one poll and `k` more for each node, and
  -- does what the chain of the synchronous nodes does.
  pub exec-eq-sync :
      {O : Type 0} (k fuel : ℕ) (as' : List (OpaqueAsyncNode W R P)) (ns : List (OpaqueNode W R))
      (core : Hook W R O) (r : R) (w : W)
      → AllAwaited k as' ns
      → k * length as' < fuel
      → exec idle fuel (new_chain as') core r w ≡ some (Opaque.exec (Opaque.new_chain ns) core r w)
  unfolding exec exec_future core_and_exits Opaque.exec
  exec-eq-sync k fuel as' ns core r w h le =
      loop_then_finishes idle k fuel (stages as') (acts ns) (core_and_exits as' core) r w
        (stages-AllFinish k as' ns h) (rw (length-stages as') le)
      ∙ rw (run_each-acts ns, exit_all_agrees k as' ns h) refl
