-- ===== src/Chain.antt =====
-- src/chain.rs: a chain is an immutable snapshot of its nodes, and the ways to execute it.
-- `add`, `remove` and `set` put a new snapshot in place of the old one: a value, so that whoever
-- holds the old one keeps it.
pub mod Retrying
pub mod Swapping
pub mod Recovery
pub mod Parallel
pub mod Turns
pub mod Independence
mod Tests
mod ParallelTests
use proc_mw.Common.{
  ℕ, zero, suc, Bool, true, false, Option, none, some, List, [], ◌∷◌, ◌++◌, length, set, erase_idx,
  ltb, if◌then◌else◌,
}
use proc_mw.Int.{ℤ}
use proc_mw.Effect.{Ended, ok, err, panicked, Act}
use proc_mw.Dispatch.{Ctx, MwError, halted, rejected, Host, Node, chain_exec}

pub record Chain (W : Type 0) : Type 0 where
  pub nodes : List (Node W)

abbrev pub Core : Type 0 → Type 0
Core W = Act W Ctx MwError ℤ

module _ {W : Type 0} where
  abbrev pub new_chain : List (Node W) → Chain W
  new_chain nodes = record { nodes = nodes }

  unfoldable pub add : Node W → Chain W → Chain W
  add node c = record { nodes = c.nodes ++ node ∷ [] }

  -- `none` is the panic of `Vec::remove` on an index out of range.
  unfoldable pub remove : ℕ → Chain W → Option (Chain W)
  remove idx c =
      if ltb idx (length c.nodes) then some (record { nodes = erase_idx c.nodes idx }) else none

  unfoldable pub set_node : ℕ → Node W → Chain W → Bool × Chain W
  set_node idx node c =
      if ltb idx (length c.nodes)
      then (true, record { nodes = set c.nodes idx node })
      else (false, c)

  abbrev pub len : Chain W → ℕ
  len c = length c.nodes

module _ {W : Type 0} (host : Host W) (chain : Chain W) (core : Core W) where
  unfoldable pub exec : ℤ → W → Ended MwError ℤ × W
  exec input w = chain_exec host chain.nodes core input w

  -- The fallback is a function of the caller.
  unfoldable pub exec_or : ℤ → (ℤ → W → Ended ⊥ ℤ × W) → W → Ended ⊥ ℤ × W
  exec_or input fallback w =
      let (r, w') = exec input w in
      elim r [ ok v ↦ (ok v, w') | err _ ↦ fallback input w' | panicked ↦ (panicked, w') ]

  -- The panic that `catch_unwind` catches becomes an error. (A panic in a plugin ends the process.)
  unfoldable pub exec_catch : ℤ → W → Ended MwError ℤ × W
  exec_catch input w =
      let (r, w') = exec input w in
      elim r [ panicked ↦ (err (rejected "core panicked"), w') | r' ↦ (r', w') ]

  -- The loop of `exec_retry`, with the attempts that are left and the last error.
  unfoldable pub retry_from : ℤ → ℕ → Option MwError → W → Ended MwError ℤ × W
  retry_from input zero none w = (err halted, w)
  retry_from input zero (some e) w = (err e, w)
  retry_from input (suc n) last w =
      let (r, w') = exec input w in
      elim r [
        | ok v ↦ (ok v, w')
        | err e ↦ retry_from input n (some e) w'
        | panicked ↦ (panicked, w')
      ]

  unfoldable pub exec_retry : ℤ → ℕ → W → Ended MwError ℤ × W
  unfolding retry_from
  exec_retry input attempts w = retry_from input attempts none w
