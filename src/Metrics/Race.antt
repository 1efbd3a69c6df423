-- ===== src/Metrics/Race.antt =====
-- The counters under concurrent requests: each request in flight has entered and not yet left. The accesses of
-- the two atomics are in one order for all threads; the code's ordering is `Relaxed`, which promises less.
use proc_mw.Common.{
  ℕ, suc, ◌+◌, ◌-◌, ◌^◌, ◌≤◌, ◌<◌, ◌≡◌, zero, subst, true, false, none, some, arith,
}
use proc_mw.Metrics.{Counts, zero_counts, count_call, count_success, errors}

-- The counters, the requests in flight, and how many requests have begun since the start.
pub record Traffic : Type 0 where
  pub counts : Counts
  pub in_flight : ℕ
  pub begun : ℕ

-- What the threads that serve requests do to the counters, one atomic access at a time.
pub data Step (t : Traffic) : Traffic → Type 0 where
  begin :
      Step t
        (record { counts = count_call t.counts; in_flight = t.in_flight + 1; begun = t.begun + 1 })
  succeed :
      0 < t.in_flight
      → Step t (record t { counts = count_success t.counts; in_flight = t.in_flight - 1 })
  stop : 0 < t.in_flight → Step t (record t { in_flight = t.in_flight - 1 })

pub data Reach (t : Traffic) : Traffic → Type 0 where
  here : Reach t t
  next : {u v : Traffic} → Reach t u → Step u v → Reach t v

abbrev pub idle : Traffic
idle = record { counts = zero_counts; in_flight = 0; begun = 0 }

record IsConsistent (t : Traffic) : Type 0 where
  calls : t.counts.calls ≡ t.begun
  bounded : t.counts.successes + t.in_flight ≤ t.begun

Step-begun : {t u : Traffic} → Step t u → t.begun ≤ u.begun
Step-begun begin = omega arith
Step-begun (succeed _) = omega arith
Step-begun (stop _) = omega arith

Step-IsConsistent : {t u : Traffic} → Step t u → u.begun < 2 ^ 64 → IsConsistent t → IsConsistent u
Step-IsConsistent begin small h = omega arith
Step-IsConsistent (succeed p) small h = omega arith
Step-IsConsistent (stop p) small h = omega arith

Reach-IsConsistent :
    {t u : Traffic} → IsConsistent t → Reach t u → u.begun < 2 ^ 64 → IsConsistent u
Reach-IsConsistent h here small = h
Reach-IsConsistent h (next r s) small =
    Step-IsConsistent s small (Reach-IsConsistent h r (omega (arith, Step-begun s)))

-- A request that begins and one that succeeds
abbrev pub one_more : Traffic → Traffic
one_more t = record t { counts = count_success (count_call t.counts); begun = t.begun + 1 }

Reach-one_more : (t : Traffic) → Reach t (one_more t)
Reach-one_more t =
    let done : Step
        (record { counts = count_call t.counts; in_flight = t.in_flight + 1; begun = t.begun + 1 })
        (record {
          counts = count_success (count_call t.counts);
          in_flight = t.in_flight + 1 - 1;
          begun = t.begun + 1;
        }) =
      succeed (omega arith) in
    subst (λ (u : Traffic). Reach t u) (ground arith) (next (next here begin) done)

-- Let all requests that have begun have succeeded, fewer than 2 ^ 64 with one more. If one more begins and
-- succeeds between the two loads of `errors`, which is a run of the traffic with one order of all accesses,
-- then `errors` panics with overflow checks, and without them it reports 2 ^ 64 - 1 errors, with no reset
-- and no error.
pub errors_between_loads :
    (t : Traffic)
    → Reach idle t
    → t.counts.successes ≡ t.begun
    → t.begun + 1 < 2 ^ 64
    → Reach t (one_more t)
      × (errors true t.counts (one_more t).counts ≡ none)
      × (errors false t.counts (one_more t).counts ≡ some (2 ^ 64 - 1))
unfolding errors
errors_between_loads t r all small =
    let h = Reach-IsConsistent {t = idle} (omega arith) r (omega arith) in
    (Reach-one_more t, ground arith, ground arith)

-- The traffic right after a reset, and after `n` requests in flight have then succeeded.
abbrev pub reset_in : Traffic → Traffic
reset_in t = record t { counts = zero_counts }

abbrev pub succeeded : ℕ → Traffic → Traffic
succeeded n t = record {
  counts = record { calls = 0; successes = n };
  in_flight = t.in_flight - n;
  begun = t.begun;
}

succeed_next :
    (n : ℕ) (t : Traffic)
    → n < t.in_flight
    → n + 1 < 2 ^ 64
    → Step (succeeded n t) (succeeded (n + 1) t)
succeed_next n t p small =
    let step : Step (succeeded n t) (record {
      counts = count_success (succeeded n t).counts;
      in_flight = t.in_flight - n - 1;
      begun = t.begun;
    }) =
      succeed (omega arith) in
    subst (λ (u : Traffic). Step (succeeded n t) u) (ground arith) step

Reach-succeeded :
    (n : ℕ) (t : Traffic) → n ≤ t.in_flight → n < 2 ^ 64 → Reach (reset_in t) (succeeded n t)
Reach-succeeded zero t p small = subst (λ (u : Traffic). Reach (reset_in t) u) (ground arith) here
Reach-succeeded (suc n) t p small =
    subst (λ (m : ℕ). Reach (reset_in t) (succeeded m t)) (omega arith)
      (next (Reach-succeeded n t (omega arith) (omega arith))
        (succeed_next n t (omega arith) (omega arith)))

-- After a reset while requests are in flight, `n` of them, fewer than 2 ^ 64, can succeed before
-- another request begins. Then `errors` panics with overflow checks, and without them it reports 2
-- ^ 64 - n errors.
pub errors_after_reset :
    (n : ℕ) (t : Traffic)
    → 0 < n
    → n ≤ t.in_flight
    → n < 2 ^ 64
    → Reach (reset_in t) (succeeded n t)
      × (errors true (succeeded n t).counts (succeeded n t).counts ≡ none)
      × (errors false (succeeded n t).counts (succeeded n t).counts ≡ some (2 ^ 64 - n))
unfolding errors
errors_after_reset n t p q small = (Reach-succeeded n t q small, ground arith, ground arith)
