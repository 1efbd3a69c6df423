-- ===== src/Async/Typed/Tests.antt =====
-- The theorems on the chain of src/async_mw.rs at concrete chains.
use proc_mw.Common.{ℕ, ◌+◌, ◌≡◌, refl, Bool, true, Option, none, some, [], ◌∷◌, arith}
use proc_mw.Int.{ℤ, pos, add_i32}
use proc_mw.Effect.{Ended, ok, panicked, Act}
use proc_mw.Async.{ready, pending, Poll, block_on, go_on_polling}
use proc_mw.Async.Middleware.{AsyncMw, call_then}
use proc_mw.Dispatch.{Ctx, Flow, continue, MwError, Host, Mw, dyn, chain_exec}
use proc_mw.Async.Typed.{add_input, async_add, new_chain, exec}
use proc_mw.Async.Typed.Agreement.{exec-eq-chain_exec}

abbrev host : Host ℕ
host = record { overflow_checks = true; now = λ w. (w, w + 1) }

abbrev same : ℕ → ℕ
same w = w

-- What `async_add` does, without `await`.
abbrev blocking_add : ℤ → Mw ℕ
blocking_add n = record {
  enter = λ c w. elim (add_i32 host.overflow_checks c.input n) [
    | none ↦ (panicked, c, w)
    | some v ↦ (ok continue, record c { input = v }, w)
  ];
  exit = λ c w. (ok tt, c, w);
}

async_add-awaited :
    (n : ℤ) (c : Ctx) (w : ℕ)
    → go_on_polling same
        (async_add host n).poll
        1
        (call_then (async_add host n).poll (async_add host n) c w)
      ≡ some ((blocking_add n).enter c w)
unfolding block_on call_then add_input
async_add-awaited n c w = after (add_i32 true c.input n)
  where
    after :
        (o : Option ℤ)
        → go_on_polling same
            (async_add host n).poll
            0
            (elim o as (λ _. Poll Bool MwError Flow × Ctx × ℕ) [
              | none ↦ (ready panicked, c, w)
              | some v ↦ (ready (ok continue), record c { input = v }, w)
            ])
          ≡ some (elim o as (λ _. Ended MwError Flow × Ctx × ℕ) [
            | none ↦ (panicked, c, w)
            | some v ↦ (ok continue, record c { input = v }, w)
          ])
    after none = refl
    after (some v) = refl

abbrev core : Act ℕ Ctx MwError ℤ
core c w = (ok c.input, c, w + 1)

exec-eq-chain_exec_example :
    exec same 3 (new_chain (async_add host (pos 1) ∷ async_add host (pos 10) ∷ [])) core (pos 5) 0
    ≡ some (
        chain_exec host
          (dyn (blocking_add (pos 1)) ∷ dyn (blocking_add (pos 10)) ∷ [])
          core
          (pos 5)
          0)
exec-eq-chain_exec_example =
    exec-eq-chain_exec same host 1 3 (async_add host (pos 1) ∷ async_add host (pos 10) ∷ [])
      (blocking_add (pos 1) ∷ blocking_add (pos 10) ∷ []) core (pos 5) 0
      ((async_add-awaited (pos 1), refl), ((async_add-awaited (pos 10), refl), tt)) (omega arith)

-- A middleware whose call panics, and one whose future does.
abbrev panics_early : AsyncMw ℕ Ctx Bool
panics_early = record {
  call = λ c w. (panicked, c, w);
  poll = λ p c w. (pending p, c, w);
  exit = λ c w. (ok tt, c, w);
}

abbrev panics_late : AsyncMw ℕ Ctx Bool
panics_late = record {
  call = λ c w. (ok true, c, w);
  poll = λ p c w. (ready panicked, c, w);
  exit = λ c w. (ok tt, c, w);
}
