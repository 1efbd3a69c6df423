-- ===== src/Services/Passing.antt =====
-- The service of s01_timeout_hotswap.rs, s06_trace_propagation.rs and s08_canary_router.rs, with its future polled to
-- the end.
use proc_mw.Common.{ℕ, zero, suc, ◌≡◌, refl, Option, none, some}
use proc_mw.Int.{ℤ}
use proc_mw.Effect.{Ended, ok, err, panicked}
use proc_mw.Opaque.{OpaqueChain, exec}
use proc_mw.Services.{MwSvcError, chain_failed, Service}
use proc_mw.Services.Limiter.{Started, running}
use proc_mw.Services.Plain.{call, after_chain, wrapped, poll}

-- A future that is polled up to so many times
module _ {W Fut A : Type 0} (polled : Fut → W → Option A × Fut × W) where
  abbrev drive_on : (Fut → W → Option (A × W)) → Option A × Fut × W → Option (A × W)
  drive_on k (none, fut, w) = k fut w
  drive_on k (some a, fut, w) = some (a, w)

  unfoldable pub drive : ℕ → Fut → W → Option (A × W)
  drive zero fut w = none
  drive (suc n) fut w = drive_on (drive n) (polled fut w)

abbrev pub wrap_all :
    {W E Resp : Type 0} → Option (Ended E Resp × W) → Option (Ended (MwSvcError E) Resp × W)
wrap_all none = none
wrap_all (some (e, w)) = some (wrapped e, w)

module _ {W Req Fut Resp E : Type 0} (inner : Service W Req Fut Resp E) where
  -- One poll of the outer future, by what that of the inner one has come to
  drive_on-running :
      (k : Started Fut → W → Option (Ended (MwSvcError E) Resp × W))
      (k' : Fut → W → Option (Ended E Resp × W)) (x : Option (Ended E Resp) × Fut × W)
      → ((fut : Fut) (w : W) → k (running fut) w ≡ wrap_all (k' fut w))
      → drive_on
          (poll inner.poll)
          k
          (elim x.0 [ none ↦ none | some e ↦ some (wrapped e) ], running x.1, x.2)
        ≡ wrap_all (drive_on inner.poll k' x)
  drive_on-running k k' (none, fut, w) h = h fut w
  drive_on-running k k' (some e, fut, w) h = refl

  drive-running :
      (n : ℕ) (fut : Fut) (w : W)
      → drive (poll inner.poll) n (running fut) w ≡ wrap_all (drive inner.poll n fut w)
  unfolding drive poll
  drive-running zero fut w = refl
  drive-running (suc n) fut w =
      drive_on-running (drive (poll inner.poll) n) (drive inner.poll n) (inner.poll fut w)
        (drive-running n)

  module _ (chain : OpaqueChain W Req) (n : ℕ) where
    -- The future of a call, polled up to `n + 1` times; a call that panics has no future.
    abbrev drive_started : Ended ⊥ (Started Fut) × W → Option (Ended (MwSvcError E) Resp × W)
    drive_started (ok s, w) = drive (poll inner.poll) (suc n) s w
    drive_started (err e, w) = absurd e
    drive_started (panicked, w) = some (panicked, w)

    abbrev pub passed_on : Ended ℤ (Unit {0}) × Req × W → Option (Ended (MwSvcError E) Resp × W)
    passed_on (ok _, req, w) =
        let (fut, w') = inner.call req w in wrap_all (drive inner.poll (suc n) fut w')
    passed_on (err code, req, w) = some (err (chain_failed code), w)
    passed_on (panicked, req, w) = some (panicked, w)

    unfoldable pub serve : Req → W → Option (Ended (MwSvcError E) Resp × W)
    serve req w = drive_started (call inner chain req w)

    after_chain-passed_on :
        (x : Ended ℤ (Unit {0}) × Req × W) → drive_started (after_chain inner chain x) ≡ passed_on x
    unfolding drive poll
    after_chain-passed_on (ok u, req, w) =
        drive-running (suc n) (inner.call req w).0 (inner.call req w).1
    after_chain-passed_on (err code, req, w) = refl
    after_chain-passed_on (panicked, req, w) = refl

    -- A request that the chain lets through goes to the inner service as the chain has left it, and the service
    -- comes to what the inner service comes to in as many polls, its errors marked as such. A request that
    -- the chain refuses never reaches the inner service, and the code is ready at the first poll.
    pub serve-passes :
        (req : Req) (w : W) → serve req w ≡ passed_on (exec chain (λ r v. (ok tt, r, v)) req w)
    unfolding serve call
    serve-passes req w = after_chain-passed_on (exec chain (λ r v. (ok tt, r, v)) req w)
