-- ===== src/Services/Shedding.antt =====
-- The threshold of s05_load_shed.rs holds in every interleaving of its calls.
use proc_mw.Common.{
  ℕ, zero, suc, ◌+◌, ◌^◌, ◌≤◌, ◌<◌, ◌≡◌, refl, ap, Bool, Option, none, some, List, [], ◌∷◌, map,
  length, ltb, if◌then◌else◌, arith,
}
use proc_mw.Int.{ℤ}
use proc_mw.Effect.{Ended, ok, err, panicked}
use proc_mw.Schedule.{step_at, run_schedule}
use proc_mw.Opaque.{OpaqueChain, exec}
use proc_mw.Services.{Service}
use proc_mw.Services.LoadShed.{
  LoadState, Call, arrived, counted, shedding, admitted, awaiting, leaving, ended, unwound,
  after_chain, after_poll, step, serve,
}

-- The count is that of all calls in flight, of which `o` are not in the list, and the threshold bounds
-- those that pass, of which `g` are not in the list.
abbrev Holds : ℕ → ℕ → ℕ → LoadState → ℕ → ℕ → Type 0
Holds n o g l flights passing =
    (l.inflight ≡ o + flights) × (g + passing ≤ n) × (l.shed_threshold ≡ n)

module _ {Req Fut Resp E : Type 0} where
  -- Whether a call has counted itself and not yet taken this back; one that a panic has unwound never does.
  abbrev pub in_flight : Call Req Fut Resp E → ℕ
  in_flight (arrived _) = 0
  in_flight (ended _) = 0
  in_flight _ = 1

  -- Whether a call has been let through and has not yet left.
  abbrev pub let_through : Call Req Fut Resp E → ℕ
  let_through (admitted _) = 1
  let_through (awaiting _) = 1
  let_through (leaving _) = 1
  let_through unwound = 1
  let_through _ = 0

  -- The same, with the calls that will pass the test
  abbrev passes : ℕ → Call Req Fut Resp E → ℕ
  passes threshold (counted cur _) = if ltb threshold cur then 0 else 1
  passes threshold (arrived _) = 0
  passes threshold shedding = 0
  passes threshold (admitted _) = 1
  passes threshold (awaiting _) = 1
  passes threshold (leaving _) = 1
  passes threshold (ended _) = 0
  passes threshold unwound = 1

  abbrev pub count_all : (Call Req Fut Resp E → ℕ) → List (Call Req Fut Resp E) → ℕ
  count_all f [] = 0
  count_all f (t ∷ ts) = f t + count_all f ts

  passes-le-in_flight : (n : ℕ) (t : Call Req Fut Resp E) → passes n t ≤ in_flight t
  passes-le-in_flight n _ = ground arith

  let_through-le-passes : (n : ℕ) (t : Call Req Fut Resp E) → let_through t ≤ passes n t
  let_through-le-passes n _ = ground arith

  all_passes-le-in_flight :
      (n : ℕ) (ts : List (Call Req Fut Resp E)) → count_all (passes n) ts ≤ count_all in_flight ts
  all_passes-le-in_flight n [] = omega arith
  all_passes-le-in_flight n (t ∷ ts) =
      omega (arith, passes-le-in_flight n t, all_passes-le-in_flight n ts)

  in_flight-le-one : (t : Call Req Fut Resp E) → in_flight t ≤ 1
  in_flight-le-one (arrived _) = omega arith
  in_flight-le-one (ended _) = omega arith
  in_flight-le-one _ = omega arith

  all_in_flight-le-length : (ts : List (Call Req Fut Resp E)) → count_all in_flight ts ≤ length ts
  all_in_flight-le-length [] = omega arith
  all_in_flight-le-length (t ∷ ts) = omega (arith, in_flight-le-one t, all_in_flight-le-length ts)

  all_through-le-passes :
      (n : ℕ) (ts : List (Call Req Fut Resp E)) → count_all let_through ts ≤ count_all (passes n) ts
  all_through-le-passes n [] = omega arith
  all_through-le-passes n (t ∷ ts) =
      omega (arith, let_through-le-passes n t, all_through-le-passes n ts)

module _ {V Req Fut Resp E : Type 0} (checked : Bool) (inner : Service V Req Fut Resp E)
    (chain : OpaqueChain V Req) (n : ℕ) where
  after_chain-Holds :
      (l : LoadState) (x : Ended ℤ (Unit {0}) × Req × V) (o g : ℕ)
      → Holds n o g l 1 1
      → let y = after_chain inner chain l x in Holds n o g y.1.0 (in_flight y.0) (passes n y.0)
  after_chain-Holds l (ok _, req, v) o g h = h
  after_chain-Holds l (err code, req, v) o g h = h
  after_chain-Holds l (panicked, req, v) o g h = h

  after_poll-Holds :
      (l : LoadState) (x : Option (Ended E Resp) × Fut × V) (o g : ℕ)
      → Holds n o g l 1 1
      → let y = after_poll inner chain l x in Holds n o g y.1.0 (in_flight y.0) (passes n y.0)
  after_poll-Holds l (none, fut, v) o g h = h
  after_poll-Holds l (some (ok a), fut, v) o g h = h
  after_poll-Holds l (some (err e), fut, v) o g h = h
  after_poll-Holds l (some panicked, fut, v) o g h = h

  step-Holds :
      (t : Call Req Fut Resp E) (s : LoadState × V) (o g : ℕ)
      → g ≤ o
      → o + 1 < 2 ^ 32
      → Holds n o g s.0 (in_flight t) (passes n t)
      → let y = step checked inner chain t s in Holds n o g y.1.0 (in_flight y.0) (passes n y.0)
  unfolding step
  step-Holds (arrived req) (l, v) o g le lt h = ground arith
  step-Holds (counted cur req) (l, v) o g le lt h = ground arith
  step-Holds shedding (l, v) o g le lt h = ground arith
  step-Holds (admitted req) (l, v) o g le lt h =
      after_chain-Holds l (exec chain (λ r w. (ok tt, r, w)) req v) o g h
  step-Holds (awaiting fut) (l, v) o g le lt h = after_poll-Holds l (inner.poll fut v) o g h
  step-Holds (leaving r) (l, v) o g le lt h = ground arith
  step-Holds (ended r) (l, v) o g le lt h = h
  step-Holds unwound (l, v) o g le lt h = h

  -- A step of one of the calls, of which there are fewer than 2 ^ 32 with the `o` others
  step_at-Holds :
      (i : ℕ) (ts : List (Call Req Fut Resp E)) (s : LoadState × V) (o g : ℕ)
      → g ≤ o
      → o + length ts < 2 ^ 32
      → Holds n o g s.0 (count_all in_flight ts) (count_all (passes n) ts)
      → let y = step_at (step checked inner chain) i ts s in
        Holds n o g y.1.0 (count_all in_flight y.0) (count_all (passes n) y.0)
  unfolding step_at
  step_at-Holds i [] s o g le lt h = h
  step_at-Holds zero (t ∷ ts) s o g le lt (a, b, c) =
      let passing = all_passes-le-in_flight n ts in
      let bound = all_in_flight-le-length ts in
      let (a', b', c') =
        step-Holds t s (o + count_all in_flight ts) (g + count_all (passes n) ts) (omega arith)
          (omega arith) (omega arith, omega arith, c) in
      (omega arith, omega arith, c')
  step_at-Holds (suc i) (t ∷ ts) s o g le lt (a, b, c) =
      let one = in_flight-le-one t in
      let passing = passes-le-in_flight n t in
      let (a', b', c') =
        step_at-Holds i ts s (o + in_flight t) (g + passes n t) (omega arith) (omega arith)
          (omega arith, omega arith, c) in
      (omega arith, omega arith, c')

  length-step_at :
      (i : ℕ) (ts : List (Call Req Fut Resp E)) (s : LoadState × V)
      → length (step_at (step checked inner chain) i ts s).0 ≡ length ts
  unfolding step_at
  length-step_at i [] s = refl
  length-step_at zero (t ∷ ts) s = refl
  length-step_at (suc i) (t ∷ ts) s = ap suc (length-step_at i ts s)

  run_schedule-Holds :
      (is : List ℕ) (ts : List (Call Req Fut Resp E)) (s : LoadState × V)
      → length ts < 2 ^ 32
      → Holds n 0 0 s.0 (count_all in_flight ts) (count_all (passes n) ts)
      → let y = run_schedule (step checked inner chain) is ts s in
        Holds n 0 0 y.1.0 (count_all in_flight y.0) (count_all (passes n) y.0)
  unfolding run_schedule
  run_schedule-Holds [] ts s lt h = h
  run_schedule-Holds (i ∷ is) ts s lt h =
      let (ts', s') = step_at (step checked inner chain) i ts s in
      run_schedule-Holds is ts' s' (omega (arith, length-step_at i ts s))
        (step_at-Holds i ts s 0 0 (omega arith) (omega arith) h)

  none_in_flight :
      (reqs : List Req)
      → (count_all {Req = Req} {Fut = Fut} {Resp = Resp} {E = E} in_flight (map arrived reqs) ≡ 0)
        × (count_all {Req = Req} {Fut = Fut} {Resp = Resp} {E = E} (passes n) (map arrived reqs)
            ≡ 0)
  none_in_flight [] = (refl, refl)
  none_in_flight (r ∷ reqs) = let (a, b) = none_in_flight reqs in (omega arith, omega arith)

  abbrev all_arrived : List Req → List (Call Req Fut Resp E)
  all_arrived = map arrived

  length-arrived : (reqs : List Req) → length (all_arrived reqs) ≡ length reqs
  length-arrived [] = refl
  length-arrived (r ∷ reqs) = ap suc (length-arrived reqs)

  -- Let fewer than 2 ^ 32 calls begin, with none in flight before them. Then after any number of steps, in
  -- whatever order the calls take them, the count is the number of the calls that have counted themselves and
  -- not ended, with those that a panic has unwound; and at most as many calls as the threshold says have
  -- been let through and not yet left, with those unwound.
  pub serve-le-threshold :
      (reqs : List Req) (schedule : List ℕ) (v : V)
      → length reqs < 2 ^ 32
      → let start : LoadState = record { inflight = 0; shed_threshold = n } in
        let (calls, (load, _)) = serve checked inner chain reqs schedule (start, v) in
        (load.inflight ≡ count_all in_flight calls) × (count_all let_through calls ≤ n)
  unfolding serve
  serve-le-threshold reqs schedule v lt =
      let start : LoadState = record { inflight = 0; shed_threshold = n } in
      let calls : List (Call Req Fut Resp E) = map arrived reqs in
      let y = run_schedule (step checked inner chain) schedule calls (start, v) in
      let (a, b) = none_in_flight reqs in
      let (a', b', _) =
        run_schedule-Holds schedule calls (start, v) (omega (arith, length-arrived reqs))
          (omega arith, omega arith, refl) in
      (omega arith, omega (arith, all_through-le-passes n y.0))
