-- ===== src/Config/Plugins.antt =====
-- src/config.rs: the builder that takes plugins from a registry, and the builder of asynchronous
-- chains; what they make of the specifications that the builder of type-erased chains takes.
use Prim.Native.String.{len, slice}
use text.Mathlib.Text.{starts_with}
use proc_mw.Common.{ℕ, Option, none, some, List, [], String, if◌then◌else◌}
use proc_mw.Effect.{Act, pure, fail, ◌>>=◌, run_hook}
use proc_mw.Dispatch.{Host}
use proc_mw.Opaque
use proc_mw.Opaque.{OpaqueNode, OpaqueChain}
use proc_mw.Runtime.Registry.{Registry, get_node}
use proc_mw.Async.Erased
use proc_mw.Async.Erased.{OpaqueAsyncNode, sync, OpaqueAsyncChain}
use proc_mw.Config.{ConfigError, unregistered, Heap, parse_opaque_node, build_from}

-- `strip_prefix('@')`
unfoldable pub strip_at : String → Option String
strip_at spec = if starts_with spec "@" then some (slice spec 1 (len spec)) else none

module _ {W R : Type 0} (host : Host W) (heap : Heap W) (parse_u32 : String → Option ℕ) where
  -- the node of a name behind `@`
  unfoldable pub registered_node :
      (W → Registry W R) → String → Act W ℕ ConfigError (OpaqueNode W R)
  registered_node registry name = do
    found ← run_hook (get_node registry name)
    elim found [ none ↦ fail (unregistered name) | some node ↦ pure node ]

  unfoldable pub node_of : (W → Registry W R) → String → Act W ℕ ConfigError (OpaqueNode W R)
  unfolding strip_at registered_node
  node_of registry spec = elim (strip_at spec) [
    | some name ↦ registered_node registry name
    | none ↦ parse_opaque_node host heap parse_u32 spec
  ]

  unfoldable pub build_opaque_chain_with_registry :
      (W → Registry W R) → List String → Act W ℕ ConfigError (OpaqueChain W R)
  unfolding node_of
  build_opaque_chain_with_registry registry spec = do
    nodes ← build_from (node_of registry) [] spec
    pure (Opaque.new_chain nodes)

  -- `OpaqueAsyncNode::Sync(parse_opaque_node(s)?)`
  abbrev pub sync_node : {P : Type 0} → String → Act W ℕ ConfigError (OpaqueAsyncNode W R P)
  sync_node spec = do node ← parse_opaque_node host heap parse_u32 spec; pure (sync node)

  unfoldable pub build_opaque_async_chain :
      {P : Type 0} → List String → Act W ℕ ConfigError (OpaqueAsyncChain W R P)
  build_opaque_async_chain spec = do
    nodes ← build_from sync_node [] spec
    pure (Erased.new_chain nodes)
