-- ===== src/Dispatch.antt =====
-- src/dispatch.rs: the typed channel. A context, the nodes of a chain, and the execution of a chain
-- around a core that the caller gives.
mod Types
pub mod Refines
pub mod Errors
pub mod Builtins
pub mod Sums
mod Tests
pub use Types.*
use proc_mw.Common.{zero, suc, ⊤, Option, none, some, List, [], ◌∷◌, reverse, leb, if◌then◌else◌}
use proc_mw.Int.{ℤ, pos, negsuc, ltb_ℤ, add_i32}
use proc_mw.Effect.{Ended, ok, Act, Hook, pure, fail, panic, get, put, ◌>>=◌, ◌>>◌, run_hook}

-- The result of an `extern "C"` enter hook, by its code.
unfoldable pub flow_of_code : {W S : Type 0} → ℤ → Act W S MwError Flow
flow_of_code (pos zero) = pure continue
flow_of_code (pos (suc zero)) = pure break
flow_of_code code = fail (rejected "plugin")

unfoldable pub enter_extern : {W : Type 0} → ExternNode W → Act W Ctx MwError Flow
unfolding flow_of_code
enter_extern e c w =
    let (code, input, output, w') = e.enter c.input c.output w in
    flow_of_code code (record c { input = input; output = output }) w'

-- `?` behind an enter hook, and the return of the loop on `Flow::Break`.
abbrev pub go_on : {W S : Type 0} → Flow → Act W S MwError ⊤
go_on continue = pure tt
go_on break = fail halted

module _ {W : Type 0} (host : Host W) where
  unfoldable pub enter_builtin : Builtin → Act W Ctx MwError Flow
  enter_builtin (add k) c w = elim (add_i32 host.overflow_checks c.input k) [
    | none ↦ panic c w
    | some v ↦ (ok continue, record c { input = v }, w)
  ]
  enter_builtin (cap n) c w =
      (ok continue, if ltb_ℤ n c.input then record c { input = n } else c, w)
  enter_builtin reject_negative c w =
      if ltb_ℤ c.input (pos 0) then fail (rejected "negative input") c w else pure continue c w
  enter_builtin deadline_check c w = elim c.deadline [
    | none ↦ pure continue c w
    | some dl ↦
        let (now, w') = host.now w in if leb dl now then fail timeout c w' else pure continue c w'
  ]
  enter_builtin (trace_init id) c w = (ok continue, record c { trace_id = some id }, w)

  -- `Node::enter`
  unfoldable pub enter : Node W → Act W Ctx MwError Flow
  unfolding enter_builtin enter_extern
  enter (builtin b) = enter_builtin b
  enter (fn_ptr f) = f
  enter (extern e) = enter_extern e
  enter (dyn d) = d.enter

unfoldable pub exit_builtin : {W : Type 0} → Builtin → Hook W Ctx ⊤
exit_builtin (cap n) c w = (ok tt, if ltb_ℤ n c.output then record c { output = n } else c, w)
exit_builtin _ c w = (ok tt, c, w)

unfoldable pub exit_extern : {W : Type 0} → Option (ℤ → W → ℤ × W) → Hook W Ctx ⊤
exit_extern none c w = (ok tt, c, w)
exit_extern (some f) c w =
    let (output, w') = f c.output w in (ok tt, record c { output = output }, w')

-- `Node::exit`
unfoldable pub exit : {W : Type 0} → Node W → Hook W Ctx ⊤
unfolding exit_builtin exit_extern
exit (builtin b) = exit_builtin b
exit (fn_ptr _) = pure tt
exit (extern e) = exit_extern e.exit
exit (dyn d) = d.exit

module _ {W : Type 0} where
  -- the closing loop of `chain_exec_ctx`, over the nodes in the order in which they exit
  unfoldable pub exit_all : List (Node W) → Act W Ctx MwError ⊤
  exit_all [] = pure tt
  exit_all (n ∷ ns) = do run_hook (exit n); exit_all ns

  abbrev pub set_output : ℤ → Act W Ctx MwError ⊤
  set_output v c w = (ok tt, record c { output = v }, w)

  abbrev pub get_output : Act W Ctx MwError ℤ
  get_output c w = (ok c.output, c, w)

module _ {W : Type 0} (host : Host W) where
  -- the opening loop of `chain_exec_ctx`
  unfoldable pub enter_all : List (Node W) → Act W Ctx MwError ⊤
  enter_all [] = pure tt
  enter_all (n ∷ ns) = do flow ← enter host n; go_on flow; enter_all ns

  -- The context is the caller's at the start, and its last state is kept in the model.
  unfoldable pub chain_exec_ctx : List (Node W) → Act W Ctx MwError ℤ → Act W Ctx MwError ℤ
  chain_exec_ctx nodes core = do
    enter_all nodes
    v ← core
    set_output v
    exit_all (reverse nodes)
    get_output

  unfoldable pub chain_exec : List (Node W) → Act W Ctx MwError ℤ → ℤ → W → Ended MwError ℤ × W
  chain_exec nodes core input w =
      let (r, _, w') = chain_exec_ctx nodes core (new_ctx input) w in (r, w')
