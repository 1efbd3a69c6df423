-- ===== src/Config/Agreement.antt =====
-- The builders of chains with plugins and of asynchronous chains agree with the builder of type-erased
-- chains.
use proc_mw.Common.{
  ℕ, suc, ◌≡◌, refl, ap, sym, ◌∙◌, fun_ext, ⊤, Option, none, some, List, [], ◌∷◌, ◌++◌, map, String,
  arith,
}
use proc_mw.Effect.{Act, Hook, pure, ◌>>=◌}
use proc_mw.Effect.Laws.{bind_assoc}
use proc_mw.Dispatch.{Host}
use proc_mw.Opaque
use proc_mw.Opaque.{OpaqueNode, OpaqueChain}
use proc_mw.Runtime.Registry.{Registry}
use proc_mw.Async.Erased
use proc_mw.Async.Erased.{OpaqueAsyncNode, sync, OpaqueAsyncChain}
use proc_mw.Async.Erased.Agreement.{AllAwaited, exec-eq-sync}
use proc_mw.Config.{ConfigError, Heap, parse_opaque_node, build_from, build_opaque_chain}
use proc_mw.Config.Plugins.{
  strip_at, node_of, build_opaque_chain_with_registry, sync_node, build_opaque_async_chain,
}

-- None of the specifications begins with `@`.
abbrev pub AllPlain : List String → Type 0
AllPlain [] = ⊤
AllPlain (s ∷ specs) = (strip_at s ≡ none) × AllPlain specs

abbrev as_async : {W R P : Type 0} → OpaqueNode W R → OpaqueAsyncNode W R P
as_async n = sync n

-- The asynchronous chain of the same nodes.
unfoldable pub in_async : {W R P : Type 0} → OpaqueChain W R → OpaqueAsyncChain W R P
in_async c = Erased.new_chain (map as_async c.nodes)

module _ {W R : Type 0} where
  all_sync :
      (P : Type 0) (idle : W → W) (ns : List (OpaqueNode W R))
      → AllAwaited {P = P} idle 0 (map as_async ns) ns
  all_sync P idle [] = tt
  all_sync P idle (n ∷ ns) = (refl, all_sync P idle ns)

module _ {W R P : Type 0} where
  map_last :
      (nodes : List (OpaqueNode W R)) (n : OpaqueNode W R)
      → map (as_async {P = P}) nodes ++ sync n ∷ [] ≡ map as_async (nodes ++ n ∷ [])
  map_last [] n = refl
  map_last (m ∷ nodes) n = ap (λ (l : List (OpaqueAsyncNode W R P)). sync m ∷ l) (map_last nodes n)

module _ {W R : Type 0} (host : Host W) (heap : Heap W) (parse_u32 : String → Option ℕ) where
  abbrev parse : String → Act W ℕ ConfigError (OpaqueNode W R)
  parse = parse_opaque_node host heap parse_u32

  node_of_plain :
      (registry : W → Registry W R) (s : String)
      → strip_at s ≡ none
      → node_of host heap parse_u32 registry s ≡ parse s
  unfolding node_of
  node_of_plain registry s h = rw (node_of, h) refl

  build_from_plain :
      (registry : W → Registry W R) (nodes : List (OpaqueNode W R)) (specs : List String)
      → AllPlain specs
      → build_from (node_of host heap parse_u32 registry) nodes specs ≡ build_from parse nodes specs
  unfolding build_from
  build_from_plain registry nodes [] h = refl
  build_from_plain registry nodes (s ∷ specs) (h, hs) =
      ap
        (λ (m : Act W ℕ ConfigError (OpaqueNode W R)).
          m >>= λ n. build_from (node_of host heap parse_u32 registry) (nodes ++ n ∷ []) specs)
        (node_of_plain registry s h)
      ∙ ap (λ (f : OpaqueNode W R → Act W ℕ ConfigError (List (OpaqueNode W R))). parse s >>= f)
          (fun_ext λ n. build_from_plain registry (nodes ++ n ∷ []) specs hs)

  -- If no specification begins with `@`, the builder with a registry does what the builder without
  -- one does, whatever is registered, also if the registry's lock is poisoned.
  pub build_opaque_chain_with_registry-plain :
      (registry : W → Registry W R) (specs : List String)
      → AllPlain specs
      → build_opaque_chain_with_registry host heap parse_u32 registry specs
        ≡ build_opaque_chain host heap parse_u32 specs
  unfolding build_opaque_chain_with_registry build_opaque_chain
  build_opaque_chain_with_registry-plain registry specs h =
      ap
        (λ (m : Act W ℕ ConfigError (List (OpaqueNode W R))).
          m >>= λ ns. pure (Opaque.new_chain ns))
        (build_from_plain registry [] specs h)

  module _ {P : Type 0} where
    build_from_sync :
        (nodes : List (OpaqueNode W R)) (specs : List String)
        → build_from (sync_node host heap parse_u32 {P = P}) (map as_async nodes) specs
          ≡ (build_from parse nodes specs >>= λ ns. pure (map as_async ns))
    unfolding build_from
    build_from_sync nodes [] = refl
    build_from_sync nodes (s ∷ specs) =
        bind_assoc (parse s) (λ n. pure (sync n))
          (λ a. build_from (sync_node host heap parse_u32) (map as_async nodes ++ a ∷ []) specs)
        ∙ ap
            (λ (f : OpaqueNode W R → Act W ℕ ConfigError (List (OpaqueAsyncNode W R P))).
              parse s >>= f)
            (fun_ext λ n.
              ap
                (λ (l : List (OpaqueAsyncNode W R P)).
                  build_from (sync_node host heap parse_u32) l specs)
                (map_last nodes n)
              ∙ build_from_sync (nodes ++ n ∷ []) specs)
        ∙ sym (
            bind_assoc (parse s) (λ n. build_from parse (nodes ++ n ∷ []) specs)
              (λ ns. pure (map as_async ns)))

    -- The builder of asynchronous chains makes, of any specifications, the chain of the nodes that the
    -- builder of type-erased chains makes, or has the same error; and the asynchronous chain of the
    -- nodes of a chain `c` ends at its first poll, and does what `c` does.
    pub build_opaque_async_chain_agrees :
        {O : Type 0} (specs : List String) (idle : W → W) (n : ℕ) (c : OpaqueChain W R)
        (core : Hook W R O) (r : R) (w : W)
        → (build_opaque_async_chain {R = R} host heap parse_u32 {P = P} specs
            ≡ (build_opaque_chain host heap parse_u32 specs >>= λ d. pure (in_async d)))
          × (Erased.exec idle (suc n) (in_async {P = P} c) core r w ≡ some (Opaque.exec c core r w))
    unfolding build_opaque_async_chain build_opaque_chain in_async
    build_opaque_async_chain_agrees specs idle n c core r w = (
      ap
            (λ (m : Act W ℕ ConfigError (List (OpaqueAsyncNode W R P))).
              m >>= λ ns. pure (Erased.new_chain ns))
            (build_from_sync [] specs)
          ∙ bind_assoc (build_from parse [] specs) (λ ns. pure (map as_async ns))
              (λ ns. pure (Erased.new_chain ns))
          ∙ sym (
              bind_assoc (build_from parse [] specs) (λ ns. pure (Opaque.new_chain ns))
                (λ d. pure (in_async d))),
      exec-eq-sync idle 0 (suc n) (map as_async c.nodes) c.nodes core r w (all_sync P idle c.nodes)
          (omega arith),
    )
