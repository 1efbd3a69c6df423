-- ===== src/Sandbox/Fuel.antt =====
-- The loop of src/bin/mw_exec.rs ends: so many iterations as there are bytes are enough.
use proc_mw.Common.{
  ℕ, zero, suc, ◌+◌, ◌≤◌, ◌≡◌, refl, ap, sym, ◌∙◌, inl, inr, Option-cases, Bool, true, false,
  Option, none, some, List, length, arith, if◌then◌else◌,
}
use proc_mw.Sandbox.{Sandbox, Plugin, read_frame, reply, byte_step, byte_loop}
use proc_mw.Sandbox.Frames.{from_le_bytes, read_exact, read_exact_shrinks}

read_frame_shrinks :
    (bs payload rest : List ℕ) → read_frame bs ≡ some (payload, rest) → length rest + 4 ≤ length bs
unfolding read_frame
read_frame_shrinks bs payload rest h = after (read_exact 4 bs) refl h
  where
    after :
        (r : Option (List ℕ × List ℕ))
        → read_exact 4 bs ≡ r
        → (elim r as (λ _. Option (List ℕ × List ℕ)) [
          | none ↦ none
          | some (len_buf, t) ↦ read_exact (from_le_bytes len_buf) t
        ])
          ≡ some (payload, rest)
        → length rest + 4 ≤ length bs
    after none p e = cc
    after (some (len_buf, t)) p e = omega (
      arith,
      read_exact_shrinks 4 bs len_buf t p,
      read_exact_shrinks (from_le_bytes len_buf) t payload rest e,
    )

module _ {W : Type 0} (plugin : Plugin W) where
  reply_rest : (payload rest : List ℕ) (s : Sandbox W) → (reply plugin payload rest s).unread ≡ rest
  unfolding reply
  reply_rest payload rest s = ground arith

  byte_step_shrinks :
      (s s' : Sandbox W) → byte_step plugin s ≡ some s' → length s'.unread + 4 ≤ length s.unread
  unfolding byte_step
  byte_step_shrinks s s' h = after s.alive (read_frame s.unread) refl h
    where
      after :
          (alive : Bool) (r : Option (List ℕ × List ℕ))
          → read_frame s.unread ≡ r
          → (if alive
              then elim r as (λ _. Option (Sandbox W)) [
                | none ↦ none
                | some (payload, t) ↦ some (reply plugin payload t s)
              ]
              else none)
            ≡ some s'
          → length s'.unread + 4 ≤ length s.unread
      after false r p e = cc
      after true none p e = cc
      after true (some (payload, t)) p e =
          let same : reply plugin payload t s ≡ s' = ground (arith, e) in
          let left : length s'.unread ≡ length t =
            ap (λ (u : Sandbox W). length u.unread) (sym same)
            ∙ ap (λ (l : List ℕ). length l) (reply_rest payload t s) in
          omega (arith, left, read_frame_shrinks s.unread payload t p)

  -- With as many iterations as there are bytes to read, or more, the loop comes to where the child
  -- waits for more bytes, or is dead: more iterations would change nothing.
  pub byte_loop_ends :
      (fuel : ℕ) (s : Sandbox W)
      → length s.unread ≤ fuel
      → byte_step plugin (byte_loop plugin fuel s) ≡ none
  unfolding byte_loop
  byte_loop_ends zero s h = elim (Option-cases (byte_step plugin s)) [
    | inl e ↦ e
    | inr (s', e) ↦ absurd (omega (arith, byte_step_shrinks s s' e))
  ]
  byte_loop_ends (suc n) s h = after (byte_step plugin s) refl (λ s'. byte_loop_ends n s')
    where
      after :
          (r : Option (Sandbox W))
          → byte_step plugin s ≡ r
          → ((s' : Sandbox W)
              → length s'.unread ≤ n
              → byte_step plugin (byte_loop plugin n s') ≡ none)
          → byte_step plugin (elim r [ none ↦ s | some s' ↦ byte_loop plugin n s' ]) ≡ none
      after none p ih = p
      after (some s') p ih = ih s' (omega (arith, byte_step_shrinks s s' p))
