-- ===== src/Services/Limiter.antt =====
-- s02_concurrency_limit.rs: a node that counts the calls in flight and refuses those above a limit, and the
-- service that gives the slots back, since the node's exit hook runs before the inner service does.
use proc_mw.Common.{ℕ, ◌+◌, ◌-◌, ◌%◌, ◌^◌, Bool, Option, none, some, ltb, if◌then◌else◌}
use proc_mw.Int.{ℤ, pos}
use proc_mw.Effect.{Ended, ok, err, panicked}
use proc_mw.Cell.{Cell, modify}
use proc_mw.Opaque.{OpaqueMw, OpaqueChain, exec}
use proc_mw.Services.{MwSvcError, chain_failed, inner_failed, Service}

-- The two atomics, of type `u32`
pub record Slots : Type 0 where
  pub max : ℕ
  pub inflight : ℕ

abbrev pub with_inflight : ℕ → Slots → Slots
with_inflight n s = record s { inflight = n % 2 ^ 32 }

-- What a call has come to when `call` returns: the future of the inner service, or a refusal
pub data Started (Fut : Type 0) : Type 0 where
  running : Fut → Started Fut
  refused : ℤ → Started Fut

module _ {W : Type 0} (checked : Bool) (cell : Cell W Slots) where
  -- `set_max`, and `release`: a `fetch_sub(1)`, which wraps around
  unfoldable pub set_max : ℕ → W → W
  set_max max w = modify cell (λ s. record s { max = max }) w

  unfoldable pub release : W → W
  release w = modify cell (λ s. with_inflight (s.inflight + 2 ^ 32 - 1) s) w

  abbrev pub code_of : ℕ → ℕ → ℤ
  code_of max cur = if ltb max cur then pos 2 else pos 0

  -- `enter`: the `fetch_add(1)` wraps around; the `+ 1` on what it returns panics with overflow checks.
  unfoldable pub limiter : {R : Type 0} → OpaqueMw W R
  limiter = record {
    enter = λ r w.
        let s = cell.get w in
        let w' = cell.set (with_inflight (s.inflight + 1) s) w in
        if ltb (s.inflight + 1) (2 ^ 32)
        then (ok (code_of s.max (s.inflight + 1)), r, w')
        else if checked
        then (panicked, r, w')
        else (ok (code_of s.max 0), r, w');
    exit = λ r w. (ok tt, r, w);
  }

  module _ {Req Fut Resp E : Type 0} (inner : Service W Req Fut Resp E)
      (chain : OpaqueChain W Req) where
    abbrev pub after_chain : Ended ℤ (Unit {0}) × Req × W → Ended ⊥ (Started Fut) × W
    after_chain (ok _, req, w) = let (fut, w') = inner.call req w in (ok (running fut), w')
    after_chain (err code, req, w) = (ok (refused code), release w)
    after_chain (panicked, req, w) = (panicked, w)

    -- `call` of `ConcurrencyMwService`, up to the future that it returns
    unfoldable pub call : Req → W → Ended ⊥ (Started Fut) × W
    unfolding release
    call req w = after_chain (exec chain (λ r v. (ok tt, r, v)) req w)

    -- A poll of the future: a refusal is ready at once, and a slot is given back with the result.
    abbrev pub after_poll :
        Option (Ended E Resp) × Fut × W → Option (Ended (MwSvcError E) Resp) × Started Fut × W
    after_poll (none, fut, w) = (none, running fut, w)
    after_poll (some (ok a), fut, w) = (some (ok a), running fut, release w)
    after_poll (some (err e), fut, w) = (some (err (inner_failed e)), running fut, release w)
    after_poll (some panicked, fut, w) = (some panicked, running fut, w)

    unfoldable pub poll : Started Fut → W → Option (Ended (MwSvcError E) Resp) × Started Fut × W
    unfolding release
    poll (running fut) w = after_poll (inner.poll fut w)
    poll (refused code) w = (some (err (chain_failed code)), refused code, w)
