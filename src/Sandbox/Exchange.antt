-- ===== src/Sandbox/Exchange.antt =====
-- Requests to a sandbox over its byte protocol, and its start.
use proc_mw.Common.{
  ℕ, zero, suc, ◌^◌, ◌<◌, ◌≡◌, refl, map, ◌≢◌, subst, ⊤, true, false, Option, none, some, List, [],
  ◌∷◌, ◌++◌, length, arith, ◌==◌, if◌then◌else◌,
}
use mathlib.Core.List.{append-nil}
use proc_mw.Int.{ℤ, pos, negsuc}
use proc_mw.Sandbox.{
  Sandbox, child_died, write_failed, plugin_rejected, handshake_failed, Answer, answered, failed,
  Plugin, status, read_frame, reply, byte_step, byte_loop, accept_handshake, receive, run_bytes,
  spawn_bytes, restart,
}
use proc_mw.Sandbox.Frames.{
  to_le_bytes, from_le_bytes, from_le_bytes-to_le_bytes, read_exact, read_exact-append,
}

-- A child that waits for a request, with nothing on the pipes.
abbrev pub waiting : {W : Type 0} → W → Sandbox W
waiting w = record { unread = []; replies = []; alive = true; world = w }

-- One that has died.
abbrev pub dead : {W : Type 0} → W → Sandbox W
dead w = record { unread = []; replies = []; alive = false; world = w }

-- The plugin leaves the length of the bytes that it works on.
abbrev pub KeepsLength : {W : Type 0} → Plugin W → Type 0
KeepsLength {W} plugin =
    (input out : List ℕ) (code : ℤ) (w w' : W)
    → plugin input w ≡ some (code, out, w')
    → length out ≡ length input

-- What the host should get from a call of the plugin.
abbrev pub expected : {W : Type 0} → W → Option (ℤ × List ℕ × W) → Answer (List ℕ) × Sandbox W
expected w none = (failed child_died, dead w)
expected w (some (pos zero, out, w')) = (answered out, waiting w')
expected w (some (_, _, w')) = (failed plugin_rejected, waiting w')

read_header :
    (n : ℕ) (rest : List ℕ) → read_exact 4 (to_le_bytes n ++ rest) ≡ some (to_le_bytes n, rest)
unfolding to_le_bytes read_exact
read_header n rest = refl

header_len : (n : ℕ) → n < 2 ^ 32 → from_le_bytes (to_le_bytes n) ≡ n
header_len n small = omega (arith, from_le_bytes-to_le_bytes n)

frame_nonempty : (n : ℕ) (rest : List ℕ) → 0 < length (to_le_bytes n ++ rest)
unfolding to_le_bytes
frame_nonempty n rest = omega arith

read_payload :
    (payload rest : List ℕ)
    → length payload < 2 ^ 32
    → read_exact (from_le_bytes (to_le_bytes (length payload))) (payload ++ rest)
      ≡ some (payload, rest)
read_payload payload rest small =
    rw (header_len (length payload) small) (read_exact-append payload rest)

read_frame_lem :
    (payload : List ℕ)
    → length payload < 2 ^ 32
    → read_frame (to_le_bytes (length payload) ++ payload) ≡ some (payload, [])
unfolding read_frame
read_frame_lem payload small =
    rw (read_frame, read_header (length payload) payload)
      (subst
        (λ (l : List ℕ).
          read_exact (from_le_bytes (to_le_bytes (length payload))) l ≡ some (payload, []))
        (append-nil payload) (read_payload payload [] small))

read_one : (b : ℕ) (rest : List ℕ) → read_exact 1 (b ∷ rest) ≡ some (b ∷ [], rest)
unfolding read_exact
read_one b rest = refl

one_byte : (b : ℕ) → from_le_bytes (b ∷ []) ≡ b
unfolding from_le_bytes
one_byte b = omega arith

receive_lem :
    {W : Type 0} (out : List ℕ) (b : ℕ) (w : W)
    → length out < 2 ^ 32
    → receive (record (waiting w) { replies = b ∷ to_le_bytes (length out) ++ out })
      ≡ (if b == 0 then answered out else failed plugin_rejected, waiting w)
unfolding receive
receive_lem out b w small = rw (
  receive,
  read_one b (to_le_bytes (length out) ++ out),
  read_header (length out) out,
  subst (λ (l : List ℕ). read_exact (from_le_bytes (to_le_bytes (length out))) l ≡ some (out, []))
      (append-nil out) (read_payload out [] small),
  one_byte b,
)

module _ {W : Type 0} (plugin : Plugin W) where
  byte_loop_waits :
      (fuel : ℕ) (s : Sandbox W) → byte_step plugin s ≡ none → byte_loop plugin fuel s ≡ s
  unfolding byte_loop
  byte_loop_waits zero s h = refl
  byte_loop_waits (suc n) s h = rw (byte_loop, h)

  -- A child that has read all bytes waits, or is dead.
  reply_waits : (input : List ℕ) (s : Sandbox W) → byte_step plugin (reply plugin input [] s) ≡ none
  unfolding byte_step reply read_frame read_exact
  reply_waits input s = ground arith

  byte_loop_serves :
      (input : List ℕ) (w : W) (fuel : ℕ)
      → length input < 2 ^ 32
      → 0 < fuel
      → byte_loop plugin fuel (record (waiting w) { unread = to_le_bytes (length input) ++ input })
        ≡ reply plugin input []
            (record (waiting w) { unread = to_le_bytes (length input) ++ input })
  unfolding byte_loop byte_step
  byte_loop_serves input w zero small fuel = absurd (omega arith)
  byte_loop_serves input w (suc n) small fuel =
      let s : Sandbox W = record (waiting w) { unread = to_le_bytes (length input) ++ input } in
      rw (byte_loop, byte_step, read_frame_lem input small)
        (byte_loop_waits n (reply plugin input [] s) (reply_waits input s))

  -- Let the plugin leave the length of the bytes that it works on. Then a request of fewer than 2 ^
  -- 32 bytes to a child that waits is answered as the plugin answers it, and afterwards the child
  -- waits again with nothing left on the pipes: the host gets the bytes that the plugin leaves if
  -- its code is 0, and an error for any other code; if the plugin panics, the child dies and the
  -- host gets an error. The host never hangs.
  pub run_bytes-eq-expected :
      (input : List ℕ) (w : W)
      → KeepsLength plugin
      → length input < 2 ^ 32
      → run_bytes plugin input (waiting w) ≡ expected w (plugin input w)
  unfolding run_bytes reply
  run_bytes-eq-expected input w keeps small =
      rw
        (byte_loop_serves input w (length (to_le_bytes (length input) ++ input)) small
          (frame_nonempty (length input) input))
        (after (plugin input w) refl)
    where
      after :
          (r : Option (ℤ × List ℕ × W))
          → plugin input w ≡ r
          → receive (
              reply plugin input []
                (record (waiting w) { unread = to_le_bytes (length input) ++ input }))
            ≡ expected w r
      after none p = unfold receive in unfold read_exact in rw (reply, p)
      after (some (pos zero, out, w')) p =
          rw (reply, p) (receive_lem out 0 w' (omega (arith, keeps input out (pos 0) w w' p)))
      after (some (pos (suc n), out, w')) p =
          rw (reply, p) (receive_lem out 1 w' (omega (arith, keeps input out (pos (suc n)) w w' p)))
      after (some (negsuc n, out, w')) p =
          rw (reply, p) (receive_lem out 1 w' (omega (arith, keeps input out (negsuc n) w w' p)))

  -- The requests of a host, one after the other.
  unfoldable pub run_all : List (List ℕ) → Sandbox W → List (Answer (List ℕ))
  run_all [] s = []
  run_all (input ∷ inputs) s = let (a, s') = run_bytes plugin input s in a ∷ run_all inputs s'

  -- What the plugin itself makes of them: after a panic the pipe is closed.
  abbrev pub answers : List (List ℕ) → W → List (Answer (List ℕ))
  answers [] w = []
  answers (input ∷ inputs) w = elim (plugin input w) [
    | none ↦ failed child_died ∷ map (λ _. failed write_failed) inputs
    | some (code, out, w') ↦
        (if status code == 0 then answered out else failed plugin_rejected) ∷ answers inputs w'
  ]

  abbrev pub AllShort : List (List ℕ) → Type 0
  AllShort [] = ⊤
  AllShort (input ∷ inputs) = (length input < 2 ^ 32) × AllShort inputs

  run_all-dead :
      (inputs : List (List ℕ)) (w : W)
      → run_all inputs (dead w) ≡ map (λ _. failed write_failed) inputs
  unfolding run_all run_bytes
  run_all-dead [] w = refl
  run_all-dead (input ∷ inputs) w = rw (run_all-dead inputs w)

  run_all-waiting :
      (inputs : List (List ℕ)) (w : W)
      → KeepsLength plugin
      → AllShort inputs
      → run_all inputs (waiting w) ≡ answers inputs w
  unfolding run_all
  run_all-waiting [] w keeps short = refl
  run_all-waiting (input ∷ inputs) w keeps (small, short) =
      rw (run_bytes-eq-expected input w keeps small)
        (after (plugin input w) (λ w'. run_all-waiting inputs w' keeps short))
    where
      after :
          (r : Option (ℤ × List ℕ × W))
          → ((w' : W) → run_all inputs (waiting w') ≡ answers inputs w')
          → ((expected w r).0 ∷ run_all inputs (expected w r).1) ≡ (elim r [
            | none ↦ failed child_died ∷ map (λ _. failed write_failed) inputs
            | some (code, out, w') ↦
                (if status code == 0 then answered out else failed plugin_rejected)
                ∷ answers inputs w'
          ])
      after none ih = rw (run_all-dead inputs w)
      after (some (pos zero, out, w')) ih = rw (ih w')
      after (some (pos (suc n), out, w')) ih = rw (ih w')
      after (some (negsuc n, out, w')) ih = rw (ih w')

  -- Whatever has happened to a sandbox, a restart with a child of the same protocol version brings
  -- it back: it succeeds, and, if the plugin leaves the length of the bytes that it works on, the
  -- requests after it, each of fewer than 2 ^ 32 bytes, are answered as the new plugin answers them
  -- one after the other, up to the first panic; from then on writes fail.
  pub restart_recovers :
      (init : W) (s : Sandbox W) (inputs : List (List ℕ))
      → KeepsLength plugin
      → AllShort inputs
      → let (r, s') = restart plugin 1 init s in
        (r ≡ answered tt) × (run_all inputs s' ≡ answers inputs init)
  unfolding restart spawn_bytes accept_handshake read_exact from_le_bytes
  restart_recovers init s inputs keeps short = (refl, run_all-waiting inputs init keeps short)

  -- A child of another protocol version makes the start fail; it does not hang.
  pub spawn_bytes-mismatch :
      (version : ℕ) (init : W)
      → version ≢ 1
      → (spawn_bytes plugin version init).0 ≡ failed handshake_failed
  unfolding spawn_bytes accept_handshake read_exact
  spawn_bytes-mismatch version init ne = ground arith
