-- ===== src/Services/Tests.antt =====
-- Runs of the services of labs/scales/medium, and their theorems at these inputs.
use proc_mw.Common.{
  ℕ, zero, suc, ◌≡◌, refl, ⊤, true, none, some, [], ◌∷◌, ◌≤◌, ◌==◌, if◌then◌else◌, arith,
}
use proc_mw.Int.{pos}
use proc_mw.Effect.{ok, err, panicked}
use proc_mw.Cell.{whole}
use proc_mw.Schedule.{step_at, run_schedule}
use proc_mw.Opaque.{
  OpaqueChain, stateful, new_chain, enter, exit, check_code, enter_all, exit_all, exec, to_node,
  builtin_mw, reject,
}
use proc_mw.Services.{Service, chain_failed}
use proc_mw.Services.LoadShed.{LoadState, ended, awaiting, unwound, step, serve}
use proc_mw.Services.Shedding.{in_flight, let_through, count_all, serve-le-threshold}
use proc_mw.Services.Limiter.{Slots, refused, running, release, limiter, call, poll}
use proc_mw.Services.Slots.{call_refused_before}

-- A service whose future is ready at its second poll; a request of 7 panics.
abbrev slow : {V : Type 0} → Service V ℕ (ℕ × ℕ) ℕ ℕ
slow = record {
  call = λ r v. ((1, r), v);
  poll = λ f v. elim f.0 [
    | zero ↦ (some (if f.1 == 7 then panicked else ok f.1), f, v)
    | suc n ↦ (none, (n, f.1), v)
  ];
}

abbrev empty_chain : OpaqueChain ⊤ ℕ
empty_chain = new_chain []

abbrev threshold_1 : LoadState
threshold_1 = record { inflight = 0; shed_threshold = 1 }

-- The second call is refused while the first waits, and a third one is let through after it.
shed_run :
    serve true slow empty_chain
      (4 ∷ 5 ∷ 6 ∷ [])
      (0 ∷ 0 ∷ 0 ∷ 1 ∷ 1 ∷ 0 ∷ 1 ∷ 0 ∷ 0 ∷ 2 ∷ 2 ∷ 2 ∷ [])
      (threshold_1, tt)
    ≡ (
      ended (ok 4) ∷ ended (err (chain_failed (pos 2))) ∷ awaiting (1, 6) ∷ [],
      (record { inflight = 1; shed_threshold = 1 }, tt),
    )
unfolding serve run_schedule step_at step exec enter_all exit_all
shed_run = refl

-- A call that a panic unwinds keeps its place, and the next one is refused.
unwound_run :
    serve true slow empty_chain (7 ∷ 5 ∷ []) (0 ∷ 0 ∷ 0 ∷ 0 ∷ 0 ∷ 1 ∷ 1 ∷ 1 ∷ []) (threshold_1, tt)
    ≡ (
      unwound ∷ ended (err (chain_failed (pos 2))) ∷ [],
      (record { inflight = 1; shed_threshold = 1 }, tt),
    )
unfolding serve run_schedule step_at step exec enter_all exit_all
unwound_run = refl

serve-le-threshold_example :
    let start : LoadState = record { inflight = 0; shed_threshold = 1 } in
    let (calls, (load, _)) =
      serve true slow empty_chain (4 ∷ 5 ∷ []) (0 ∷ 1 ∷ 0 ∷ []) (start, tt) in
    (load.inflight ≡ count_all in_flight calls) × (count_all let_through calls ≤ 1)
serve-le-threshold_example =
    serve-le-threshold true slow empty_chain 1 (4 ∷ 5 ∷ []) (0 ∷ 1 ∷ 0 ∷ []) tt (omega arith)

-- The limit of one call, with its slot taken; a node that refuses all stands before the limiter.
abbrev full : Slots
full = record { max = 1; inflight = 1 }

call_refused_before_example :
    (call true whole slow (new_chain (to_node reject ∷ stateful (limiter true whole) ∷ [])) 4 full
      ≡ (ok (refused (pos 2)), release true whole full))
    × ((enter {R = ℕ} (stateful (limiter true whole)) 5 (release true whole full)).0 ≡ ok (pos 0))
call_refused_before_example =
    call_refused_before true whole slow (to_node reject ∷ []) [] 4 4 5 full full (pos 2)
      (unfold enter_all enter to_node builtin_mw check_code in refl) refl (omega arith)
      (omega arith)

-- The limiter itself refuses the call.
refused_run :
    let service : Service Slots ℕ (ℕ × ℕ) ℕ ℕ = slow in
    call true whole service (new_chain (stateful (limiter true whole) ∷ [])) 4 full
    ≡ (ok (refused (pos 2)), full)
unfolding call release limiter exec enter_all exit_all enter exit check_code
refused_run = refl

-- A call that takes the slot, and gives it back with its result.
slot_run :
    let free : Slots = record { max = 1; inflight = 0 } in
    let service : Service Slots ℕ (ℕ × ℕ) ℕ ℕ = slow in
    let chain : OpaqueChain Slots ℕ = new_chain (stateful (limiter true whole) ∷ []) in
    (call true whole service chain 4 free ≡ (ok (running (1, 4)), full))
    × (poll true whole service chain (running (0, 4)) full ≡ (some (ok 4), running (0, 4), free))
unfolding call poll release limiter exec enter_all exit_all enter exit check_code
slot_run = (refl, refl)
