-- ===== src/Services/LoadShed.antt =====
-- s05_load_shed.rs: each call counts itself, and is refused if more calls are in flight than the threshold.
-- The steps of a call are its accesses of the count, the chain, and the polls of the inner service; those of
-- concurrent calls are interleaved. The chain and the inner service share a state `V` beside the count.
use proc_mw.Common.{ℕ, ◌+◌, ◌-◌, ◌%◌, ◌^◌, Bool, Option, none, some, List, map, ltb, if◌then◌else◌}
use proc_mw.Int.{ℤ}
use proc_mw.Effect.{Ended, ok, err, panicked}
use proc_mw.Schedule.{run_schedule}
use proc_mw.Opaque.{OpaqueChain, opaque_reject, exec}
use proc_mw.Services.{MwSvcError, chain_failed, inner_failed, Service}

-- The two atomics, of type `u32`
pub record LoadState : Type 0 where
  pub inflight : ℕ
  pub shed_threshold : ℕ

-- `fetch_add(1)` and `fetch_sub(1)`, which wrap around
abbrev pub begin_one : LoadState → LoadState
begin_one l = record l { inflight = (l.inflight + 1) % 2 ^ 32 }

abbrev pub end_one : LoadState → LoadState
end_one l = record l { inflight = (l.inflight + 2 ^ 32 - 1) % 2 ^ 32 }

-- Where a call is: before its `fetch_add`; with the number that this has given, before the test of the
-- threshold; before the `fetch_sub` of a refusal; before the chain; in the inner service; before the last
-- `fetch_sub`, with its result; at its end; or unwound by a panic.
pub data Call (Req Fut Resp E : Type 0) : Type 0 where
  arrived : Req → Call Req Fut Resp E
  counted : ℕ → Req → Call Req Fut Resp E
  shedding : Call Req Fut Resp E
  admitted : Req → Call Req Fut Resp E
  awaiting : Fut → Call Req Fut Resp E
  leaving : Ended (MwSvcError E) Resp → Call Req Fut Resp E
  ended : Ended (MwSvcError E) Resp → Call Req Fut Resp E
  unwound : Call Req Fut Resp E

module _ {V Req Fut Resp E : Type 0} (inner : Service V Req Fut Resp E)
    (chain : OpaqueChain V Req) where
  -- What follows the chain, and a poll of the inner service
  abbrev pub after_chain :
      LoadState → Ended ℤ (Unit {0}) × Req × V → Call Req Fut Resp E × (LoadState × V)
  after_chain l (ok _, req, v) = let (fut, v') = inner.call req v in (awaiting fut, (l, v'))
  after_chain l (err code, req, v) = (leaving (err (chain_failed code)), (l, v))
  after_chain l (panicked, req, v) = (unwound, (l, v))

  abbrev pub after_poll :
      LoadState → Option (Ended E Resp) × Fut × V → Call Req Fut Resp E × (LoadState × V)
  after_poll l (none, fut, v) = (awaiting fut, (l, v))
  after_poll l (some (ok a), fut, v) = (leaving (ok a), (l, v))
  after_poll l (some (err e), fut, v) = (leaving (err (inner_failed e)), (l, v))
  after_poll l (some panicked, fut, v) = (unwound, (l, v))

module _ {V Req Fut Resp E : Type 0} (checked : Bool) (inner : Service V Req Fut Resp E)
    (chain : OpaqueChain V Req) where
  -- The `+ 1` on what the `fetch_add` returns panics with overflow checks, when that is the last `u32`.
  unfoldable pub step : Call Req Fut Resp E → LoadState × V → Call Req Fut Resp E × (LoadState × V)
  step (arrived req) (l, v) = (
    if ltb (l.inflight + 1) (2 ^ 32)
        then counted (l.inflight + 1) req
        else if checked
        then unwound
        else counted 0 req,
    (begin_one l, v),
  )
  step (counted cur req) (l, v) =
      (if ltb l.shed_threshold cur then shedding else admitted req, (l, v))
  step shedding (l, v) = (ended (err (chain_failed opaque_reject)), (end_one l, v))
  step (admitted req) (l, v) = after_chain inner chain l (exec chain (λ r w. (ok tt, r, w)) req v)
  step (awaiting fut) (l, v) = after_poll inner chain l (inner.poll fut v)
  step (leaving r) (l, v) = (ended r, (end_one l, v))
  step (ended r) (l, v) = (ended r, (l, v))
  step unwound (l, v) = (unwound, (l, v))

  -- Concurrent calls, in the order of a schedule
  unfoldable pub serve :
      List Req → List ℕ → LoadState × V → List (Call Req Fut Resp E) × (LoadState × V)
  unfolding step
  serve reqs schedule s = run_schedule step schedule (map arrived reqs) s
