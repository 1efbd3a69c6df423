-- ===== src/Services/PlainTests.antt =====
-- Runs of the services that only put a chain before an inner service or a buffer.
use proc_mw.Common.{
  ℕ, zero, suc, ◌≡◌, refl, Bool, true, false, none, some, List, [], ◌∷◌, length, ltb, if◌then◌else◌,
}
use proc_mw.Int.{pos}
use proc_mw.Effect.{ok, err}
use proc_mw.Opaque.{
  OpaqueChain, new_chain, enter, exit, check_code, enter_all, exit_all, exec, to_node, builtin_mw,
  reject,
}
use proc_mw.Services.{Service, chain_failed, inner_failed}
use proc_mw.Services.Plain.{
  call, poll, sending, stopped, buffer_full, chain_refused, call_bridge, poll_bridge,
}
use proc_mw.Services.Passing.{drive, serve}

-- An inner service that counts its calls; its future fails at the second poll.
abbrev failing : Service ℕ ℕ ℕ ℕ ℕ
failing = record {
  call = λ r w. (1, suc w);
  poll = λ f w. elim f [ zero ↦ (some (err 7), zero, w) | suc n ↦ (none, n, w) ];
}

abbrev through : {W : Type 0} → OpaqueChain W ℕ
through = new_chain []

abbrev refusing : {W : Type 0} → OpaqueChain W ℕ
refusing = new_chain (to_node reject ∷ [])

serve_run :
    (serve failing through 1 4 0 ≡ some (err (inner_failed 7), 1))
    × (serve failing through 0 4 0 ≡ none)
    × (serve failing refusing 0 4 0 ≡ some (err (chain_failed (pos 2)), 0))
unfolding serve call poll drive exec enter_all exit_all enter exit check_code to_node builtin_mw
serve_run = (refl, refl, refl)

-- A buffer of one place
abbrev try_send : ℕ → List ℕ → Bool × List ℕ
try_send r q = if ltb (length q) 1 then (true, r ∷ q) else (false, q)

bridge_run :
    (call_bridge try_send through 4 [] ≡ (ok (sending 4), []))
    × (poll_bridge try_send through (sending 4) [] ≡ (ok tt, 4 ∷ []))
    × (poll_bridge try_send through (sending 5) (4 ∷ []) ≡ (err buffer_full, 4 ∷ []))
    × (call_bridge try_send refusing 4 [] ≡ (ok (stopped (pos 2)), []))
    × (poll_bridge try_send refusing (stopped (pos 2)) [] ≡ (err (chain_refused (pos 2)), []))
unfolding call_bridge poll_bridge exec enter_all exit_all enter exit check_code to_node builtin_mw
bridge_run = (refl, refl, refl, refl, refl)
