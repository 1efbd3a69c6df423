-- ===== src/Config.antt =====
-- src/config.rs: chains from specifications in text, for the typed and the type-erased chains. A node
-- with state gets state of its own: the heap has a numbered supply of cells, and `Act`'s state is the
-- number of the next one. Windows are in nanoseconds.
pub mod Builds
pub mod Plugins
pub mod Agreement
mod Tests
use Prim.Native.String.{len, slice}
use text.Mathlib.Text.{◌==◌, find?}
use proc_mw.Common.{
  ℕ, suc, ◌+◌, ◌*◌, ◌-◌, ⊤, Bool, Option, none, some, List, [], ◌∷◌, ◌++◌, String, if◌then◌else◌,
}
use proc_mw.Int.{ℤ, pos}
use proc_mw.Effect.{ok, err, Act, pure, fail, ◌>>=◌, ◌>>◌}
use proc_mw.Cell.{Cell}
use proc_mw.Dispatch.{
  Host, Node, builtin, dyn, add, cap, reject_negative, deadline_check, trace_init,
}
use proc_mw.Chain.{Chain, new_chain}
use proc_mw.Opaque.{OpaqueNode, stateful, OpaqueChain, to_node, continue, break, reject}
use proc_mw.Opaque
use proc_mw.Metrics.{Counts, zero_counts, metrics, opaque_metrics}
use proc_mw.RateLimit.{RateState, RateLimiter, fresh, rate_limiter, opaque_rate_limiter}

pub data ConfigError : Type 0 where
  unknown unregistered : String → ConfigError
  missing_argument : ConfigError
  not_a_number : ConfigError

pub record Heap (W : Type 0) : Type 0 where
  pub counts : ℕ → Cell W Counts
  pub rates : ℕ → Cell W RateState

-- `split_once(':')`: what is before the first colon and what is after it
unfoldable pub split_once : String → Option (String × String)
split_once spec = elim (find? spec ":") [
  | none ↦ none
  | some i ↦ some (slice spec 0 i, slice spec (i + 1) (len spec))
]

-- the name of a specification, and its argument if it has one
unfoldable pub name_and_arg : String → String × Option String
unfolding split_once
name_and_arg spec = elim (split_once spec) [ none ↦ (spec, none) | some (n, a) ↦ (n, some a) ]

abbrev pub second : ℕ
second = 1_000_000_000

-- `parse_u32` is `str::parse::<u32>` of the standard library.
module _ {W : Type 0} (host : Host W) (heap : Heap W) (parse_u32 : String → Option ℕ) where
  -- `Metrics::new` and `RateLimiter::new` behind a new `Arc`
  unfoldable pub new_counts : Act W ℕ ConfigError (Cell W Counts)
  new_counts k w = (ok (heap.counts k), k + 1, (heap.counts k).set zero_counts w)

  unfoldable pub new_rate : Act W ℕ ConfigError (Cell W RateState)
  new_rate k w =
      let (now, w') = host.now w in (ok (heap.rates k), k + 1, (heap.rates k).set (fresh now) w')

  -- the argument of `rate-limit`
  unfoldable pub limit_arg : Option String → Act W ℕ ConfigError ℕ
  limit_arg none = fail missing_argument
  limit_arg (some a) = elim (parse_u32 a) [ none ↦ fail not_a_number | some n ↦ pure n ]

  unfoldable pub parse_node : String → Act W ℕ ConfigError (Node W)
  unfolding name_and_arg new_counts new_rate limit_arg
  parse_node spec =
      let (name, arg) = name_and_arg spec in
      if name == "add1"
      then pure (builtin (add (pos 1)))
      else if name == "add10"
      then pure (builtin (add (pos 10)))
      else if name == "cap50"
      then pure (builtin (cap (pos 50)))
      else if name == "reject-neg"
      then pure (builtin reject_negative)
      else if name == "deadline"
      then pure (builtin deadline_check)
      else if name == "trace42"
      then pure (builtin (trace_init 42))
      else if name == "metrics"
      then (do cell ← new_counts; pure (dyn (metrics cell)))
      else if name == "rate-limit"
      then (do
        n ← limit_arg arg
        cell ← new_rate
        pure (dyn (rate_limiter host cell (record { limit = n; window = 60 * second }))))
      else fail (unknown name)

  unfoldable pub parse_opaque_node : {R : Type 0} → String → Act W ℕ ConfigError (OpaqueNode W R)
  unfolding name_and_arg new_counts new_rate limit_arg
  parse_opaque_node spec =
      let (name, arg) = name_and_arg spec in
      if name == "metrics"
      then (do cell ← new_counts; pure (stateful (opaque_metrics cell)))
      else if name == "rate-limit"
      then (do
        n ← limit_arg arg
        cell ← new_rate
        pure
            (stateful (opaque_rate_limiter host cell (record { limit = n; window = 10 * second }))))
      else if name == "reject"
      then pure (to_node reject)
      else if name == "pass"
      then pure (to_node continue)
      else if name == "break"
      then pure (to_node break)
      else fail (unknown name)

-- the loop of the builders, with the nodes so far
unfoldable pub build_from :
    {W N : Type 0}
    → (String → Act W ℕ ConfigError N)
    → List N
    → List String
    → Act W ℕ ConfigError (List N)
build_from parse nodes [] = pure nodes
build_from parse nodes (s ∷ specs) = do node ← parse s; build_from parse (nodes ++ node ∷ []) specs

module _ {W : Type 0} (host : Host W) (heap : Heap W) (parse_u32 : String → Option ℕ) where
  unfoldable pub build_chain : List String → Act W ℕ ConfigError (Chain W)
  build_chain spec = do
    nodes ← build_from (parse_node host heap parse_u32) [] spec
    pure (new_chain nodes)

  unfoldable pub build_opaque_chain :
      {R : Type 0} → List String → Act W ℕ ConfigError (OpaqueChain W R)
  build_opaque_chain spec = do
    nodes ← build_from (parse_opaque_node host heap parse_u32) [] spec
    pure (Opaque.new_chain nodes)
