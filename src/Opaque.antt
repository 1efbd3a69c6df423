-- ===== src/Opaque.antt =====
-- src/opaque.rs: the chain over any request type. The host and its plugins agree on the layout of
-- the request, so that a node works on the request itself, here a value of a type `R`; the second
-- pointer that an enter hook gets is null, and has no counterpart.
mod Types
pub use Types.*
pub mod Refines
pub mod Errors
pub mod Modes
pub mod Parallel
pub mod Independence
mod Tests
mod ParallelTests
use proc_mw.Common.{
  ℕ, zero, suc, ◌-◌, ◌%◌, ◌^◌, ⊤, Bool, true, false, Option, none, some, List, [], ◌∷◌, ◌++◌,
  reverse, length, set, erase_idx, ltb, ◌==◌, if◌then◌else◌,
}
use proc_mw.Int.{ℤ, pos, negsuc}
use proc_mw.Effect.{Ended, ok, err, panicked, Act, Hook, pure, fail, panic, ◌>>=◌, ◌>>◌, run_hook}

-- `OpaqueMw` of `OpaqueBuiltin`, and its `to_node`
unfoldable pub builtin_mw : {W R : Type 0} → OpaqueBuiltin → OpaqueMw W R
builtin_mw b = record { enter = pure (code_of b); exit = pure tt }

unfoldable pub to_node : {W R : Type 0} → OpaqueBuiltin → OpaqueNode W R
unfolding builtin_mw
to_node b = stateful (builtin_mw b)

-- A foreign hook returns normally.
abbrev pub plain : {W R A : Type 0} → A × R × W → Ended ⊥ A × R × W
plain (a, r, w) = (ok a, r, w)

abbrev pub done : {W R : Type 0} → R × W → Ended ⊥ ⊤ × R × W
done (r, w) = (ok tt, r, w)

module _ {W R : Type 0} where
  -- the `match n` of the opening loop of `exec`
  unfoldable pub enter : OpaqueNode W R → Hook W R ℤ
  enter (thin t) r w = plain (t.enter r w)
  enter (stateful mw) r w = mw.enter r w

  unfoldable pub exit_thin : Option (R → W → R × W) → Hook W R ⊤
  exit_thin none r w = (ok tt, r, w)
  exit_thin (some f) r w = done (f r w)

  -- the `match n` of the closing loop
  unfoldable pub exit : OpaqueNode W R → Hook W R ⊤
  unfolding exit_thin
  exit (thin t) = exit_thin t.exit
  exit (stateful mw) = mw.exit

  -- the `match code`: continue, stop, or return the code as an error
  unfoldable pub check_code : ℤ → Act W R ℤ ⊤
  check_code (pos zero) = pure tt
  check_code code = fail code

  unfoldable pub enter_all : List (OpaqueNode W R) → Act W R ℤ ⊤
  enter_all [] = pure tt
  enter_all (n ∷ ns) = do code ← run_hook (enter n); check_code code; enter_all ns

  unfoldable pub exit_all : List (OpaqueNode W R) → Act W R ℤ ⊤
  exit_all [] = pure tt
  exit_all (n ∷ ns) = do run_hook (exit n); exit_all ns

  abbrev pub new_chain : List (OpaqueNode W R) → OpaqueChain W R
  new_chain nodes = record { nodes = nodes }

  abbrev pub empty : OpaqueChain W R
  empty = record { nodes = [] }

  unfoldable pub add : OpaqueNode W R → OpaqueChain W R → OpaqueChain W R
  add node c = record { nodes = c.nodes ++ node ∷ [] }

  unfoldable pub remove : ℕ → OpaqueChain W R → OpaqueChain W R
  remove idx c = record {
    nodes = if ltb idx (length c.nodes) then erase_idx c.nodes idx else c.nodes;
  }

  unfoldable pub set_node : ℕ → OpaqueNode W R → OpaqueChain W R → Bool × OpaqueChain W R
  set_node idx node c =
      if ltb idx (length c.nodes)
      then (true, record { nodes = set c.nodes idx node })
      else (false, c)

  abbrev pub len : OpaqueChain W R → ℕ
  len c = length c.nodes

  abbrev pub is_empty : OpaqueChain W R → Bool
  is_empty c = len c == 0

module _ {W R : Type 0} (chain : OpaqueChain W R) where
  unfoldable pub exec : {O : Type 0} → Hook W R O → Act W R ℤ O
  exec core = do
    enter_all chain.nodes
    out ← run_hook core
    exit_all (reverse chain.nodes)
    pure out

  unfoldable pub exec_fallible :
      {O E : Type 0} → Hook W R (Verdict O E) → Act W R (FallibleError E) O
  exec_fallible core r w =
      let (res, r', w') = exec core r w in
      elim res [
        | ok v ↦ elim v [
          | Verdict.ok o ↦ (ok o, r', w')
          | Verdict.err e ↦ (err (core_failed e), r', w')
        ]
        | err code ↦ (err (chain_failed code), r', w')
        | panicked ↦ (panicked, r', w')
      ]

  unfoldable pub exec_or : {O : Type 0} → Hook W R O → Hook W R O → Hook W R O
  exec_or core fallback r w =
      let (res, r', w') = exec core r w in
      elim res [ ok v ↦ (ok v, r', w') | err _ ↦ fallback r' w' | panicked ↦ (panicked, r', w') ]

  unfoldable pub exec_catch : {O : Type 0} → Hook W R O → Act W R ℤ O
  exec_catch core r w =
      let (res, r', w') = exec core r w in
      elim res [ panicked ↦ (err opaque_reject, r', w') | res' ↦ (res', r', w') ]

  unfoldable pub exec_with_trace : {O : Type 0} → HasTrace R → Hook W R O → ℕ → Act W R ℤ O
  exec_with_trace req_trace core trace r w = exec core (req_trace.set_trace_id trace r) w

  -- `unix_millis` reads the system clock: `none` is a clock before 1970, on which `unwrap` panics.
  unfoldable pub exec_with_deadline :
      {O : Type 0} → (W → Option ℕ × W) → HasDeadline R → Hook W R O → Act W R ℤ O
  exec_with_deadline unix_millis req_deadline core r w =
      if req_deadline.deadline_ms r == 2 ^ 64 - 1
      then exec core r w
      else let (t, w') = unix_millis w in
        elim t [
          | none ↦ (panicked, r, w')
          | some now ↦
              if ltb (req_deadline.deadline_ms r) (now % 2 ^ 64)
              then (err opaque_reject, r, w')
              else exec core r w'
        ]

  -- The loop of `exec_retry`: each attempt is on a new clone of the request, which takes the place
  -- of the request when the attempt succeeds.
  unfoldable pub retry_from : {O : Type 0} → (R → R) → Hook W R O → ℕ → ℤ → Act W R ℤ O
  retry_from clone core zero last r w = (err last, r, w)
  retry_from clone core (suc n) last r w =
      let (res, r', w') = exec core (clone r) w in
      elim res [
        | ok v ↦ (ok v, r', w')
        | err e ↦ retry_from clone core n e r w'
        | panicked ↦ (panicked, r, w')
      ]

  unfoldable pub exec_retry : {O : Type 0} → (R → R) → Hook W R O → ℕ → Act W R ℤ O
  unfolding retry_from
  exec_retry clone core n = retry_from clone core n (pos 0)
