-- ===== src/Chain/Swapping.antt =====
-- The writes to a chain: `add`, `remove` and `set`.
use mathlib.Core.List.{append-nil}
use proc_mw.Common.{
  ℕ, ◌<◌, ◌≤◌, ◌≡◌, refl, ap, true, false, none, some, List, [], ◌∷◌, ◌++◌, arith, length, set,
  erase_idx, length-append,
}
use proc_mw.Dispatch.{Node}
use proc_mw.Chain.{new_chain, add, remove, set_node, len}

module _ {A : Type 0} where
  set-append : (xs ys : List A) (x y : A) → set (xs ++ x ∷ ys) (length xs) y ≡ xs ++ y ∷ ys
  set-append [] ys x y = refl
  set-append (z ∷ xs) ys x y = ap (λ (l : List A). z ∷ l) (set-append xs ys x y)

  erase_idx-append : (xs ys : List A) (x : A) → erase_idx (xs ++ x ∷ ys) (length xs) ≡ xs ++ ys
  erase_idx-append [] ys x = refl
  erase_idx-append (z ∷ xs) ys x = ap (λ (l : List A). z ∷ l) (erase_idx-append xs ys x)

  lt-append : (xs ys : List A) (x : A) → length xs < length (xs ++ x ∷ ys)
  lt-append xs ys x = omega (arith, length-append xs (x ∷ ys))

module _ {W : Type 0} where
  -- Setting the node at a place of the chain replaces this node and no other; removing it takes
  -- away this node and no other; past the end, `set` refuses and changes nothing, and `remove`
  -- panics; and `add` puts a node at the place that `remove` can take it from again.
  pub chain_writes :
      (before after : List (Node W)) (old new : Node W) (beyond : ℕ)
      → length (before ++ old ∷ after) ≤ beyond
      → let c = new_chain (before ++ old ∷ after) in
        (set_node (length before) new c ≡ (true, new_chain (before ++ new ∷ after)))
        × (remove (length before) c ≡ some (new_chain (before ++ after)))
        × (set_node beyond new c ≡ (false, c))
        × (remove beyond c ≡ none)
        × (remove (len c) (add new c) ≡ some c)
  unfolding set_node remove add
  chain_writes before after old new beyond h =
      let lt = lt-append before after old in
      (
        ground (arith, set-append before after old new),
        ground (arith, erase_idx-append before after old),
        ground arith,
        ground arith,
        ground (
          arith,
          erase_idx-append (before ++ old ∷ after) [] new,
          lt-append (before ++ old ∷ after) [] new,
          append-nil (before ++ old ∷ after),
        ),
      )
