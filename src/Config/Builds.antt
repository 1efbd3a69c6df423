-- ===== src/Config/Builds.antt =====
-- What the builders make of a list of specifications.
use mathlib.Core.List.{append-nil, append_assoc}
use proc_mw.Common.{ℕ, ◌≡◌, refl, ap, sym, ◌∙◌, fun_ext, List, [], ◌∷◌, ◌++◌, String, Option}
use proc_mw.Effect.{Act, pure, ◌>>=◌}
use proc_mw.Effect.Laws.{bind_assoc}
use proc_mw.Dispatch.{Host, Node}
use proc_mw.Chain.{Chain, new_chain}
use proc_mw.Config.{ConfigError, Heap, parse_node, build_from, build_chain}

module _ {W N : Type 0} (parse : String → Act W ℕ ConfigError N) where
  build_from-append :
      (nodes : List N) (xs ys : List String)
      → build_from parse nodes (xs ++ ys)
        ≡ (build_from parse nodes xs >>= λ ns. build_from parse ns ys)
  unfolding build_from
  build_from-append nodes [] ys = refl
  build_from-append nodes (x ∷ xs) ys =
      ap (λ (f : N → Act W ℕ ConfigError (List N)). parse x >>= f)
        (fun_ext λ node. build_from-append (nodes ++ node ∷ []) xs ys)
      ∙ sym (
          bind_assoc (parse x) (λ node. build_from parse (nodes ++ node ∷ []) xs)
            (λ ns. build_from parse ns ys))

  one_more :
      (nodes : List N) (node : N) (ys : List String)
      → build_from parse (nodes ++ node ∷ []) ys
        ≡ (build_from parse [] ys >>= λ ns. pure ((nodes ++ node ∷ []) ++ ns))
      → build_from parse (node ∷ []) ys ≡ (build_from parse [] ys >>= λ ns. pure (node ∷ ns))
      → build_from parse (nodes ++ node ∷ []) ys
        ≡ (build_from parse (node ∷ []) ys >>= λ ns. pure (nodes ++ ns))
  one_more nodes node ys p q =
      p
      ∙ ap (λ (f : List N → Act W ℕ ConfigError (List N)). build_from parse [] ys >>= f)
          (fun_ext λ ns. ap (λ (l : List N). pure l) (append_assoc nodes (node ∷ []) ns))
      ∙ sym
          (bind_assoc (build_from parse [] ys) (λ ns. pure (node ∷ ns)) (λ ns. pure (nodes ++ ns)))
      ∙ ap (λ (m : Act W ℕ ConfigError (List N)). m >>= λ ns. pure (nodes ++ ns)) (sym q)

  build_from_nodes :
      (nodes : List N) (ys : List String)
      → build_from parse nodes ys ≡ (build_from parse [] ys >>= λ ns. pure (nodes ++ ns))
  unfolding build_from
  build_from_nodes nodes [] = ap (λ (l : List N). pure l) (sym (append-nil nodes))
  build_from_nodes nodes (y ∷ ys) =
      ap (λ (f : N → Act W ℕ ConfigError (List N)). parse y >>= f)
        (fun_ext λ node.
          one_more nodes node ys (build_from_nodes (nodes ++ node ∷ []) ys)
            (build_from_nodes (node ∷ []) ys))
      ∙ sym (
          bind_assoc (parse y) (λ node. build_from parse (node ∷ []) ys) (λ ns. pure (nodes ++ ns)))

module _ {W : Type 0} (host : Host W) (heap : Heap W) (parse_u32 : String → Option ℕ) where
  abbrev nodes_of : List String → Act W ℕ ConfigError (List (Node W))
  nodes_of = build_from (parse_node host heap parse_u32) []

  -- The chain of two lists of specifications, one after the other, is the chain of the first with the
  -- nodes of the second after it; the second list is not looked at if the first has an error.
  pub build_chain-append :
      (xs ys : List String)
      → build_chain host heap parse_u32 (xs ++ ys) ≡ (
          build_chain host heap parse_u32 xs >>= λ c.
          build_chain host heap parse_u32 ys >>= λ d. pure (new_chain (c.nodes ++ d.nodes)))
  unfolding build_chain
  build_chain-append xs ys =
      ap (λ (m : Act W ℕ ConfigError (List (Node W))). m >>= λ ns. pure (new_chain ns))
        (build_from-append (parse_node host heap parse_u32) [] xs ys)
      ∙ bind_assoc (nodes_of xs) (λ ns. build_from (parse_node host heap parse_u32) ns ys)
          (λ ns. pure (new_chain ns))
      ∙ ap (λ (f : List (Node W) → Act W ℕ ConfigError (Chain W)). nodes_of xs >>= f)
          (fun_ext second_part)
      ∙ sym (bind_assoc (nodes_of xs) (λ ns. pure (new_chain ns)) after_first)
    where
      after_first : Chain W → Act W ℕ ConfigError (Chain W)
      after_first c =
          nodes_of ys >>= (λ ns. pure (new_chain ns)) >>= λ d. pure (new_chain (c.nodes ++ d.nodes))

      second_part :
          (ns : List (Node W))
          → (build_from (parse_node host heap parse_u32) ns ys >>= λ ms. pure (new_chain ms))
            ≡ after_first (new_chain ns)
      second_part ns =
          ap (λ (m : Act W ℕ ConfigError (List (Node W))). m >>= λ ms. pure (new_chain ms))
            (build_from_nodes (parse_node host heap parse_u32) ns ys)
          ∙ bind_assoc (nodes_of ys) (λ ms. pure (ns ++ ms)) (λ ms. pure (new_chain ms))
          ∙ sym (
              bind_assoc (nodes_of ys) (λ ms. pure (new_chain ms))
                (λ d. pure (new_chain (ns ++ d.nodes))))
