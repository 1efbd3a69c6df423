-- ===== src/Services/Plain.antt =====
-- The services of labs/scales/medium/src/bin that only put a chain before something else: before the inner service,
-- in s01_timeout_hotswap.rs, s06_trace_propagation.rs and s08_canary_router.rs; and before a bounded buffer, in
-- s07_async_bridge.rs, where what flume's `try_send` does is a parameter.
use proc_mw.Common.{Bool, Option, none, some, if◌then◌else◌}
use proc_mw.Int.{ℤ}
use proc_mw.Effect.{Ended, ok, err, panicked}
use proc_mw.Opaque.{OpaqueChain, exec}
use proc_mw.Services.{MwSvcError, chain_failed, inner_failed, Service}
use proc_mw.Services.Limiter.{Started, running, refused}

module _ {W Req Fut Resp E : Type 0} (inner : Service W Req Fut Resp E)
    (chain : OpaqueChain W Req) where
  abbrev pub after_chain : Ended ℤ (Unit {0}) × Req × W → Ended ⊥ (Started Fut) × W
  after_chain (ok _, req, w) = let (fut, w') = inner.call req w in (ok (running fut), w')
  after_chain (err code, req, w) = (ok (refused code), w)
  after_chain (panicked, req, w) = (panicked, w)

  -- `call`, up to the future that it returns
  unfoldable pub call : Req → W → Ended ⊥ (Started Fut) × W
  call req w = after_chain (exec chain (λ r v. (ok tt, r, v)) req w)

abbrev pub wrapped : {E Resp : Type 0} → Ended E Resp → Ended (MwSvcError E) Resp
wrapped (ok a) = ok a
wrapped (err e) = err (inner_failed e)
wrapped panicked = panicked

-- A poll of that future, where `inner_poll` polls the one of the inner service
unfoldable pub poll :
    {W Fut Resp E : Type 0}
    → (Fut → W → Option (Ended E Resp) × Fut × W)
    → Started Fut
    → W
    → Option (Ended (MwSvcError E) Resp) × Started Fut × W
poll inner_poll (running fut) w =
    let (r, fut', w') = inner_poll fut w in
    (elim r [ none ↦ none | some e ↦ some (wrapped e) ], running fut', w')
poll inner_poll (refused code) w = (some (err (chain_failed code)), refused code, w)

-- `MwSvcError` of the bridge
pub data BridgeError : Type 0 where
  chain_refused : ℤ → BridgeError
  buffer_full : BridgeError

-- The future of the bridge before its one poll
pub data Bridged (Req : Type 0) : Type 0 where
  sending : Req → Bridged Req
  stopped : ℤ → Bridged Req

module _ {W Req : Type 0} (try_send : Req → W → Bool × W) (chain : OpaqueChain W Req) where
  abbrev pub bridged : Ended ℤ (Unit {0}) × Req × W → Ended ⊥ (Bridged Req) × W
  bridged (ok _, req, w) = (ok (sending req), w)
  bridged (err code, req, w) = (ok (stopped code), w)
  bridged (panicked, req, w) = (panicked, w)

  -- `BridgeMwService::call`; the text that it answers with is left out.
  unfoldable pub call_bridge : Req → W → Ended ⊥ (Bridged Req) × W
  call_bridge req w = bridged (exec chain (λ r v. (ok tt, r, v)) req w)

  unfoldable pub poll_bridge : Bridged Req → W → Ended BridgeError (Unit {0}) × W
  poll_bridge (sending req) w =
      let (sent, w') = try_send req w in (if sent then ok tt else err buffer_full, w')
  poll_bridge (stopped code) w = (err (chain_refused code), w)
