-- ===== src/Config/Tests.antt =====
-- Chains that are built from concrete specifications.
use proc_mw.Common.{
  ℕ, ◌+◌, ◌≡◌, refl, Bool, true, Option, none, some, String, [], ◌∷◌, ◌==◌, if◌then◌else◌, arith,
}
use text.Mathlib.Text.{starts_with}
use proc_mw.Int.{pos}
use proc_mw.Effect.{Hook, ok, err, pure, ◌>>=◌}
use proc_mw.Dispatch.{Host, builtin, add, cap}
use proc_mw.Chain.{new_chain}
use proc_mw.Metrics.{Counts, zero_counts}
use proc_mw.RateLimit.{RateState, fresh}
use proc_mw.Config.{
  unknown, unregistered, parse_opaque_node, build_opaque_chain, missing_argument, not_a_number,
  Heap, split_once, name_and_arg, new_counts, new_rate, limit_arg, parse_node, build_from,
  build_chain,
}
use proc_mw.Opaque
use proc_mw.Opaque.{OpaqueNode, stateful}
use proc_mw.Runtime.Registry.{new_registry, get, get_node}
use proc_mw.Async.Erased
use proc_mw.Config.Plugins.{
  strip_at, registered_node, node_of, build_opaque_chain_with_registry, build_opaque_async_chain,
}
use proc_mw.Config.Agreement.{in_async, build_opaque_async_chain_agrees}

abbrev State : Type 0
State = (ℕ → Counts) × (ℕ → RateState)

-- The heap as two functions from numbers.
abbrev write : {A : Type 0} → ℕ → A → (ℕ → A) → ℕ → A
write k a f j = if j == k then a else f j

write_self : {A : Type 0} (k : ℕ) (a : A) (f : ℕ → A) → write k a f k ≡ a
write_self k a f = ground arith

abbrev heap : Heap State
heap = record {
  counts = λ k. record {
    get = λ w. w.0 k;
    set = λ s w. (write k s w.0, w.1);
    get-set = λ s w. write_self k s w.0;
  };
  rates = λ k. record {
    get = λ w. w.1 k;
    set = λ s w. (w.0, write k s w.1);
    get-set = λ s w. write_self k s w.1;
  };
}

abbrev host : Host State
host = record { overflow_checks = true; now = λ w. (7, w) }

abbrev start : State
start = (λ _. zero_counts, λ _. fresh 0)

-- A parser that knows one numeral.
abbrev parse_u32 : String → Option ℕ
parse_u32 s = if starts_with s "100" then some 100 else none

run : Unit {0}
unfolding split_once name_and_arg new_counts new_rate limit_arg parse_node build_from build_chain
run = tt

results :
    (build_chain host heap parse_u32 ("add10" ∷ "cap50" ∷ []) 0 start
      ≡ (ok (new_chain (builtin (add (pos 10)) ∷ builtin (cap (pos 50)) ∷ [])), 0, start))
    × ((build_chain host heap parse_u32 ("metrics" ∷ "nothing:7" ∷ "rate-limit" ∷ []) 0 start).0
        ≡ err (unknown "nothing"))
    × ((build_chain host heap parse_u32 ("rate-limit" ∷ []) 0 start).0 ≡ err missing_argument)
    × ((build_chain host heap parse_u32 ("rate-limit:many" ∷ []) 0 start).0 ≡ err not_a_number)
    × ((build_chain host heap parse_u32 ("rate-limit:100" ∷ "metrics" ∷ "metrics" ∷ []) 0 start).1
        ≡ 3)
    × (((build_chain host heap parse_u32 ("rate-limit:100" ∷ []) 0 start).2).1 0 ≡ fresh 7)
unfolding run
results = (refl, refl, refl, refl, refl, refl)

-- A node that is ready made.
abbrev pass : OpaqueNode State ℕ
pass = stateful (record { enter = λ r w. (ok (pos 0), r, w); exit = λ r w. (ok tt, r, w) })

abbrev core : Hook State ℕ ℕ
core r w = (ok r, r + 1, w)

unregistered_plugin :
    (build_opaque_chain_with_registry {R = ℕ} host heap parse_u32
      (λ _. new_registry)
      ("pass" ∷ "@plus" ∷ [])
      0
      start).0
    ≡ err (unregistered "plus")
unfolding run build_opaque_chain_with_registry node_of registered_node strip_at parse_opaque_node
    get_node get
unregistered_plugin = refl

build_opaque_async_chain_agrees_example :
    (build_opaque_async_chain {R = ℕ} host heap parse_u32 {P = Bool} ("pass" ∷ "reject" ∷ []) ≡ (
      build_opaque_chain host heap parse_u32 ("pass" ∷ "reject" ∷ []) >>= λ d. pure (in_async d)))
    × (Erased.exec (λ w. w) 1 (in_async {P = Bool} (Opaque.new_chain (pass ∷ []))) core 5 start
        ≡ some (Opaque.exec (Opaque.new_chain (pass ∷ [])) core 5 start))
build_opaque_async_chain_agrees_example =
    build_opaque_async_chain_agrees host heap parse_u32 ("pass" ∷ "reject" ∷ []) (λ w. w) 0
      (Opaque.new_chain (pass ∷ [])) core 5 start
