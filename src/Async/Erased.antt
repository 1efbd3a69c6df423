-- ===== src/Async/Erased.antt =====
-- src/async_opaque.rs: the asynchronous chain over any request type. An operation is what its future
-- comes to if it is polled up to `fuel` times for each execution that it awaits; nothing, if one of
-- them has not ended by then.
pub mod Agreement
pub mod Timely
pub mod Patience
pub mod Modes
pub mod Parallel
pub mod InStep
mod Tests
mod ParallelTests
use proc_mw.Common.{
  ℕ, zero, suc, ◌+◌, ◌*◌, ◌-◌, ◌%◌, ◌^◌, ⊤, Bool, true, false, Option, none, some, List, [], ◌∷◌,
  ◌++◌, reverse, length, set, ltb, ◌==◌, if◌then◌else◌,
}
use proc_mw.Int.{ℤ, pos}
use proc_mw.Effect.{Ended, ok, err, panicked, Act, Hook, pure, ◌>>=◌, ◌>>◌, run_hook}
use proc_mw.Dispatch.{Host}
use proc_mw.Opaque
use proc_mw.Opaque.{
  OpaqueNode, opaque_reject, check_code, HasDeadline, HasTrace, Verdict, FallibleError,
  chain_failed, core_failed,
}
use proc_mw.Async.{Poll, ready, pending, Poller, block_on, Stage, Progress, unpolled, loop_then}
use proc_mw.Async.Race.{TimeoutError, chain, map_chain, Racing, unstarted, with_timeout}

-- `trait OpaqueAsyncMw`: what `call` does before it returns its future, and the future.
pub record OpaqueAsyncMw (W R P : Type 0) : Type 0 where
  pub call : Hook W R P
  pub poll : Poller W R P ⊥ ℤ
  pub exit : Hook W R ⊤

pub data OpaqueAsyncNode (W R P : Type 0) : Type 0 where
  sync : OpaqueNode W R → OpaqueAsyncNode W R P
  async : OpaqueAsyncMw W R P → OpaqueAsyncNode W R P

pub record OpaqueAsyncChain (W R P : Type 0) : Type 0 where
  pub nodes : List (OpaqueAsyncNode W R P)

module _ {W R P : Type 0} where
  abbrev pub new_chain : List (OpaqueAsyncNode W R P) → OpaqueAsyncChain W R P
  new_chain nodes = record { nodes = nodes }

  abbrev pub empty : OpaqueAsyncChain W R P
  empty = record { nodes = [] }

  unfoldable pub add : OpaqueAsyncNode W R P → OpaqueAsyncChain W R P → OpaqueAsyncChain W R P
  add node c = record { nodes = c.nodes ++ node ∷ [] }

  unfoldable pub set_node :
      ℕ → OpaqueAsyncNode W R P → OpaqueAsyncChain W R P → Bool × OpaqueAsyncChain W R P
  set_node idx node c =
      if ltb idx (length c.nodes)
      then (true, record { nodes = set c.nodes idx node })
      else (false, c)

  abbrev pub len : OpaqueAsyncChain W R P → ℕ
  len c = length c.nodes

  abbrev pub is_empty : OpaqueAsyncChain W R P → Bool
  is_empty c = len c == 0

  -- The `match code` behind the node's code.
  abbrev pub checked : Poll P ⊥ ℤ × R × W → Poll P ℤ ⊤ × R × W
  checked (ready (ok code), r, w) = let (e, r', w') = check_code code r w in (ready e, r', w')
  checked (ready (err e), r, w) = absurd e
  checked (ready panicked, r, w) = (ready panicked, r, w)
  checked (pending p, r, w) = (pending p, r, w)

  -- `mw.call(req).await`, up to its first poll
  unfoldable pub first_poll : OpaqueAsyncMw W R P → R → W → Poll P ⊥ ℤ × R × W
  first_poll mw r w =
      let (e, r', w') = mw.call r w in
      elim e [ ok p ↦ mw.poll p r' w' | err x ↦ absurd x | panicked ↦ (ready panicked, r', w') ]

  -- One round of the opening loop of `exec`. (A future that is ready is not polled again.)
  unfoldable pub stage : OpaqueAsyncNode W R P → Stage W R P ℤ
  unfolding first_poll
  stage (sync sn) = record {
    begin = λ r w. (let (e, r', w') = Opaque.enter sn r w in checked (ready e, r', w'));
    resume = λ p r w. (ready panicked, r, w);
  }
  stage (async mw) = record {
    begin = λ r w. checked (first_poll mw r w);
    resume = λ p r w. checked (mw.poll p r w);
  }

  -- the closing loop
  unfoldable pub exit : OpaqueAsyncNode W R P → Hook W R ⊤
  exit (sync sn) = Opaque.exit sn
  exit (async mw) = mw.exit

  unfoldable pub exit_all : List (OpaqueAsyncNode W R P) → Act W R ℤ ⊤
  exit_all [] = pure tt
  exit_all (n ∷ ns) = do run_hook (exit n); exit_all ns

  abbrev pub stages : List (OpaqueAsyncNode W R P) → List (Stage W R P ℤ)
  stages [] = []
  stages (n ∷ ns) = stage n ∷ stages ns

  -- What follows the opening loop.
  unfoldable pub core_and_exits :
      {O : Type 0} → List (OpaqueAsyncNode W R P) → Hook W R O → Act W R ℤ O
  core_and_exits nodes core = do out ← run_hook core; exit_all (reverse nodes); pure out

  -- The future of `exec`, before its first poll.
  unfoldable pub exec_future :
      {O : Type 0} → OpaqueAsyncChain W R P → Hook W R O → Poller W R (Progress W R P ℤ) ℤ O
  unfolding stage core_and_exits
  exec_future c core = loop_then (stages c.nodes) (core_and_exits c.nodes core)

-- What an operation comes to.
abbrev pub Await : Type 0 → Type 0 → Type 0 → Type 0 → Type 0
Await W R E A = R → W → Option (Ended E A × R × W)

-- `.await`, and what follows it
abbrev pub and_then :
    {W R E A F B : Type 0}
    → Option (Ended E A × R × W)
    → (Ended E A → Await W R F B)
    → Option (Ended F B × R × W)
and_then none k = none
and_then (some (e, r, w)) k = k e r w

module _ {W R P : Type 0} (idle : W → W) (fuel : ℕ) (c : OpaqueAsyncChain W R P) where
  unfoldable pub exec : {O : Type 0} → Hook W R O → Await W R ℤ O
  exec core r w = block_on idle (exec_future c core) fuel unpolled r w

  unfoldable pub exec_fallible :
      {O E : Type 0} → Hook W R (Verdict O E) → Await W R (FallibleError E) O
  exec_fallible core r w = and_then (exec core r w) λ res r' w'. elim res [
    | ok v ↦ elim v [
      | Verdict.ok o ↦ some (ok o, r', w')
      | Verdict.err e ↦ some (err (core_failed e), r', w')
    ]
    | err code ↦ some (err (chain_failed code), r', w')
    | panicked ↦ some (panicked, r', w')
  ]

  unfoldable pub exec_or : {O : Type 0} → Hook W R O → Hook W R O → Await W R ⊥ O
  exec_or core fallback r w = and_then (exec core r w) λ res r' w'. elim res [
    | ok v ↦ some (ok v, r', w')
    | err _ ↦ some (fallback r' w')
    | panicked ↦ some (panicked, r', w')
  ]

  unfoldable pub exec_catch : {O : Type 0} → Hook W R O → Await W R ℤ O
  exec_catch core r w =
      and_then (exec core r w)
        λ res r' w'. elim res [ panicked ↦ some (err opaque_reject, r', w') | e ↦ some (e, r', w') ]

  unfoldable pub exec_with_trace : {O : Type 0} → HasTrace R → Hook W R O → ℕ → Await W R ℤ O
  exec_with_trace req_trace core trace r w = exec core (req_trace.set_trace_id trace r) w

  unfoldable pub exec_with_deadline :
      {O : Type 0} → (W → Option ℕ × W) → HasDeadline R → Hook W R O → Await W R ℤ O
  exec_with_deadline unix_millis req_deadline core r w =
      if req_deadline.deadline_ms r == 2 ^ 64 - 1
      then exec core r w
      else (let (t, w') = unix_millis w in
          elim t [
            | none ↦ some (panicked, r, w')
            | some now ↦
                if ltb (req_deadline.deadline_ms r) (now % 2 ^ 64)
                then some (err opaque_reject, r, w')
                else exec core r w'
          ])

  unfoldable pub retry_from : {O : Type 0} → (R → R) → Hook W R O → ℕ → ℤ → Await W R ℤ O
  retry_from clone core zero last r w = some (err last, r, w)
  retry_from clone core (suc n) last r w = and_then (exec core (clone r) w) λ res r' w'. elim res [
    | ok v ↦ some (ok v, r', w')
    | err e ↦ retry_from clone core n e r w'
    | panicked ↦ some (panicked, r, w')
  ]

  unfoldable pub exec_retry : {O : Type 0} → (R → R) → Hook W R O → ℕ → Await W R ℤ O
  unfolding retry_from
  exec_retry clone core n = retry_from clone core n (pos 0)

  module _ (host : Host W) where
    unfoldable pub exec_timeout : {O : Type 0} → Hook W R O → ℕ → Await W R (TimeoutError ℤ) O
    exec_timeout core dur r w =
        block_on idle (with_timeout host dur (exec_future c core)) fuel (unstarted unpolled) r w

    unfoldable pub exec_timeout_rollback :
        {O : Type 0} → (R → R) → Hook W R O → ℕ → Await W R (TimeoutError ℤ) O
    exec_timeout_rollback clone core dur r w =
        let snapshot = clone r in
        and_then (exec_timeout core dur r w) λ res r' w'. elim res [
          | ok v ↦ some (ok v, r', w')
          | err e ↦ some (err e, snapshot, w')
          | panicked ↦ some (panicked, r', w')
        ]

    -- A millisecond is 1,000,000 nanoseconds.
    unfoldable pub exec_timeout_with_deadline :
        {O : Type 0}
        → (W → Option ℕ × W)
        → HasDeadline R
        → Hook W R O
        → Await W R (TimeoutError ℤ) O
    exec_timeout_with_deadline unix_millis req_deadline core r w =
        if req_deadline.deadline_ms r == 2 ^ 64 - 1
        then (and_then (exec core r w) λ res r' w'. some (map_chain res, r', w'))
        else (let (t, w') = unix_millis w in
            elim t [
              | none ↦ some (panicked, r, w')
              | some now ↦
                  exec_timeout core ((req_deadline.deadline_ms r - now % 2 ^ 64) * 1_000_000) r w'
            ])

    unfoldable pub retry_timeout_from :
        {O : Type 0} → (R → R) → Hook W R O → ℕ → ℕ → TimeoutError ℤ → Await W R (TimeoutError ℤ) O
    retry_timeout_from clone core per_attempt zero last r w = some (err last, r, w)
    retry_timeout_from clone core per_attempt (suc n) last r w =
        and_then (exec_timeout core per_attempt (clone r) w) λ res r' w'. elim res [
          | ok v ↦ some (ok v, r', w')
          | err e ↦ retry_timeout_from clone core per_attempt n e r w'
          | panicked ↦ some (panicked, r, w')
        ]

    unfoldable pub exec_retry_timeout :
        {O : Type 0} → (R → R) → Hook W R O → ℕ → ℕ → Await W R (TimeoutError ℤ) O
    unfolding retry_timeout_from
    exec_retry_timeout clone core n per_attempt =
        retry_timeout_from clone core per_attempt n (chain (pos 0))
