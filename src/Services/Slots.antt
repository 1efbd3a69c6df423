-- ===== src/Services/Slots.antt =====
-- The slots of s02_concurrency_limit.rs: which refusals give back the slot that they took, and which one that
-- they never took.
use proc_mw.Common.{
  ◌+◌, ◌-◌, ◌^◌, ◌≤◌, ◌<◌, ◌≡◌, refl, ap, ◌∙◌, ⊤, Bool, true, List, ◌∷◌, ◌++◌, ltb, lt→ltb,
  if◌then◌else◌, arith,
}
use proc_mw.Int.{ℤ, pos}
use proc_mw.Effect.{Act, ok, err}
use proc_mw.Cell.{Cell}
use proc_mw.Opaque.{
  OpaqueNode, OpaqueChain, stateful, new_chain, enter, check_code, enter_all, exec,
}
use proc_mw.Opaque.Errors.{exec-eq-err_iff, enter_all-append, enter_all-cons}
use proc_mw.Services.{Service}
use proc_mw.Services.Limiter.{Slots, code_of, with_inflight, refused, release, limiter, call}

module _ {W Req Fut Resp E : Type 0} (checked : Bool) (cell : Cell W Slots)
    (inner : Service W Req Fut Resp E) (before after : List (OpaqueNode W Req)) where
  abbrev limited : OpaqueChain W Req
  limited = new_chain (before ++ stateful (limiter checked cell) ∷ after)

  get-release :
      (w : W)
      → cell.get (release checked cell w)
        ≡ with_inflight ((cell.get w).inflight + 2 ^ 32 - 1) (cell.get w)
  unfolding release
  get-release w = cell.get-set (with_inflight ((cell.get w).inflight + 2 ^ 32 - 1) (cell.get w)) w

  abbrev taken : W → W
  taken w = cell.set (with_inflight ((cell.get w).inflight + 1) (cell.get w)) w

  enter-limiter :
      (r : Req) (w : W)
      → (cell.get w).inflight + 1 < 2 ^ 32
      → enter (stateful (limiter checked cell)) r w
        ≡ (ok (code_of checked cell (cell.get w).max ((cell.get w).inflight + 1)), r, taken w)
  unfolding enter limiter
  enter-limiter r w lt = rw (lt→ltb ((cell.get w).inflight + 1) (2 ^ 32) lt) refl

  -- A call of which the chain returns a code
  call-refused :
      (req req' : Req) (w w' : W) (code : ℤ)
      → enter_all limited.nodes req w ≡ (err code, req', w')
      → call checked cell inner limited req w ≡ (ok (refused code), release checked cell w')
  unfolding call
  call-refused req req' w w' code e =
      let stopped : exec limited (λ r v. (ok tt, r, v)) req w ≡ (err code, req', w') =
        (exec-eq-err_iff limited (λ r v. (ok tt, r, v)) req w code req' w').1 e in
      rw stopped refl

  -- Where a node before the limiter refuses the call, a slot is given back that the call has not taken: with
  -- all slots taken before, the limiter then lets one more call through.
  pub call_refused_before :
      (req req' r : Req) (w w' : W) (code : ℤ)
      → enter_all before req w ≡ (err code, req', w')
      → (cell.get w').inflight ≡ (cell.get w').max
      → 0 < (cell.get w').max
      → (cell.get w').max < 2 ^ 32
      → (call checked cell inner limited req w ≡ (ok (refused code), release checked cell w'))
        × ((enter (stateful (limiter checked cell)) r (release checked cell w')).0 ≡ ok (pos 0))
  call_refused_before req req' r w w' code e full some_slot bound = (
    call-refused req req' w w' code
        (rw (enter_all-append before (stateful (limiter checked cell) ∷ after)) (rw e refl)),
    (let w'' = release checked cell w' in
        let same = get-release w' in
        let n : (cell.get w'').inflight + 1 ≡ (cell.get w').inflight =
          ap (λ (t : Slots). t.inflight + 1) same ∙ omega arith in
        let m : (cell.get w'').max ≡ (cell.get w').max = ap (λ (t : Slots). t.max) same in
        ap (λ (x : _). x.0) (enter-limiter r w'' (omega arith)) ∙ ground (arith, n, m)),
  )

  -- Where the limiter refuses the call, the count is afterwards what it was before the limiter.
  pub call_refused_by_limiter :
      (req req' : Req) (w w' : W)
      → enter_all before req w ≡ (ok tt, req', w')
      → (cell.get w').max ≤ (cell.get w').inflight
      → (cell.get w').inflight + 1 < 2 ^ 32
      → let (started, w'') = call checked cell inner limited req w in
        (started ≡ ok (refused (pos 2))) × (cell.get w'' ≡ cell.get w')
  call_refused_by_limiter req req' w w' e full bound =
      let s = cell.get w' in
      let first = taken w' in
      let over : ltb s.max (s.inflight + 1) ≡ true = lt→ltb s.max (s.inflight + 1) (omega arith) in
      let entered : enter (stateful (limiter checked cell)) req' w' ≡ (ok (pos 2), req', first) =
        enter-limiter req' w' bound
        ∙ ap (λ (b : Bool). (ok (if b then pos 2 else pos 0), req', first)) over in
      let stopped : enter_all (stateful (limiter checked cell) ∷ after) req' w'
          ≡ (err (pos 2), req', first) =
        ap (λ (m : Act W Req ℤ ⊤). m req' w')
          (enter_all-cons (stateful (limiter checked cell)) after)
        ∙ rw entered (unfold check_code in refl) in
      let called =
        call-refused req req' w first (pos 2)
          (rw (enter_all-append before (stateful (limiter checked cell) ∷ after)) (rw e stopped)) in
      let back : cell.get (release checked cell first) ≡ s =
        get-release first
        ∙ ap (λ (t : Slots). with_inflight (t.inflight + 2 ^ 32 - 1) t)
            (cell.get-set (with_inflight (s.inflight + 1) s) w')
        ∙ ground arith in
      rw called (refl, back)
