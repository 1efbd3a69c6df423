-- ===== src/Sandbox/Text.antt =====
-- The text protocol of src/sandbox.rs and of `text_mode` in src/bin/mw_exec.rs: a number on a line in
-- each direction.
use proc_mw.Common.{
  zero, suc, ◌≡◌, refl, ap, ◌∙◌, Bool, false, Option, none, some, arith, ltb, ◌==◌, if◌then◌else◌,
}
use proc_mw.Int.{ℤ, pos, negsuc, InRange}
use proc_mw.Effect.{Ended, ok, err, panicked}
use proc_mw.Dispatch.{
  Ctx, new_ctx, Flow, MwError, Host, ExternNode, extern, enter, enter_extern, flow_of_code,
}

-- What `Sandbox::run` returns.
pub data TextAnswer : Type 0 where
  value : ℤ → TextAnswer
  child_died : TextAnswer
  bad_output : TextAnswer
  plugin_error : TextAnswer

-- the error sentinel -999
unfoldable pub is_sentinel : ℤ → Bool
is_sentinel (pos _) = false
is_sentinel (negsuc n) = n == 998

-- How a number is written on a line, and `parse` of a trimmed line; `L` is the type of lines.
pub record Numerals (L : Type 0) : Type 0 where
  pub print : ℤ → L
  pub parse : L → Option ℤ

module _ {W L : Type 0} (host : Host W) (numerals : Numerals L) (plugin : ExternNode W) where
  -- the number of a line, and the line for the result of the plugin
  abbrev read_line : L → ℤ
  read_line line = elim (numerals.parse line) [ none ↦ pos 0 | some v ↦ v ]

  abbrev write_line : Ended MwError Flow → Ctx → Option L
  write_line (ok _) c = some (numerals.print c.input)
  write_line (err _) c = some (numerals.print (negsuc 998))
  write_line panicked c = none

  -- one iteration of the loop of `text_mode`: the line that the child writes, if it does not die
  unfoldable pub text_step : L → W → Option L × W
  text_step line w =
      let (r, c, w') = enter host (extern plugin) (new_ctx (read_line line)) w in
      (write_line r c, w')

  -- `Sandbox::run`
  unfoldable pub run : ℤ → W → TextAnswer × W
  run input w =
      let (line, w') = text_step (numerals.print input) w in
      (
        elim line [
          | none ↦ child_died
          | some l ↦ elim (numerals.parse l) [
            | none ↦ bad_output
            | some v ↦ if is_sentinel v then plugin_error else value v
          ]
        ],
        w',
      )

  -- What the child writes, by the plugin's code and number.
  abbrev out_of : ℤ → ℤ → ℤ
  out_of (pos zero) v = v
  out_of (pos (suc zero)) v = v
  out_of _ v = negsuc 998

  text_step_ends :
      (code : ℤ) (c : Ctx) (w : W)
      → let (r, c', w') = flow_of_code code c w in
        (write_line r c' ≡ some (numerals.print (out_of code c.input))) × (w' ≡ w)
  unfolding flow_of_code
  text_step_ends (pos zero) c w = (refl, refl)
  text_step_ends (pos (suc zero)) c w = (refl, refl)
  text_step_ends (pos (suc (suc n))) c w = (refl, refl)
  text_step_ends (negsuc n) c w = (refl, refl)

  abbrev from_input : ℤ → W → Option L × W
  from_input input w =
      let (r, c, w') = enter host (extern plugin) (new_ctx input) w in (write_line r c, w')

  from_input_lem :
      (input : ℤ) (w : W)
      → let (code, v, _, w') = plugin.enter input (pos 0) w in
        from_input input w ≡ (some (numerals.print (out_of code v)), w')
  unfolding enter enter_extern
  from_input_lem input w =
      let (code, v, o, w') = plugin.enter input (pos 0) w in
      let (written, same) =
        text_step_ends code (record (new_ctx input) { input = v; output = o }) w' in
      ground (arith, written, same)

  read_line_lem : (line : L) (v : ℤ) → numerals.parse line ≡ some v → read_line line ≡ v
  read_line_lem line v p = ground (arith, p)

  text_step_lem :
      (line : L) (input : ℤ) (w : W)
      → numerals.parse line ≡ some input
      → let (code, v, _, w') = plugin.enter input (pos 0) w in
        text_step line w ≡ (some (numerals.print (out_of code v)), w')
  unfolding text_step
  text_step_lem line input w p =
      ap (λ (x : ℤ). from_input x w) (read_line_lem line input p) ∙ from_input_lem input w

  out_of-InRange : (code v : ℤ) → InRange v → InRange (out_of code v)
  out_of-InRange (pos zero) v h = h
  out_of-InRange (pos (suc zero)) v h = h
  out_of-InRange (pos (suc (suc n))) v h = omega arith
  out_of-InRange (negsuc n) v h = omega arith

  sentinel_lem :
      (code v : ℤ)
      → (if is_sentinel (out_of code v) then plugin_error else value (out_of code v)) ≡ (elim code [
        | pos n ↦
            if ltb n 2 then (if is_sentinel v then plugin_error else value v) else plugin_error
        | negsuc _ ↦ plugin_error
      ])
  unfolding is_sentinel
  sentinel_lem (pos zero) v = refl
  sentinel_lem (pos (suc zero)) v = refl
  sentinel_lem (pos (suc (suc n))) v = ground arith
  sentinel_lem (negsuc n) v = refl

  -- Let the numerals of each `i32` be parsed as that number, and let the input and the number that
  -- the plugin makes of it be `i32`s. Then the host gets this number, if the plugin's code is 0 or
  -- 1 and the number is not -999; and otherwise an error. In particular a plugin cannot return
  -- -999, and its request to stop (code 1) is not told from going on.
  pub run_lem :
      (input : ℤ) (w : W)
      → ((v : ℤ) → InRange v → numerals.parse (numerals.print v) ≡ some v)
      → InRange input
      → InRange (plugin.enter input (pos 0) w).1
      → let (code, v, _, w') = plugin.enter input (pos 0) w in
        run input w ≡ (
          elim code [
            | pos n ↦
                if ltb n 2 then (if is_sentinel v then plugin_error else value v) else plugin_error
            | negsuc _ ↦ plugin_error
          ],
          w',
        )
  unfolding run
  run_lem input w round small result =
      let (code, v, _, w') = plugin.enter input (pos 0) w in
      rw
        (
          text_step_lem (numerals.print input) input w (round input small),
          round (out_of code v) (out_of-InRange code v result),
        )
        (ap (λ (a : TextAnswer). (a, w')) (sentinel_lem code v))
