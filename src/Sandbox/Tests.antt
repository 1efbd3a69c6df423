-- ===== src/Sandbox/Tests.antt =====
-- Runs of a sandbox, and its theorems at concrete plugins and requests.
use proc_mw.Common.{
  ℕ, suc, ◌+◌, ◌≡◌, refl, ap, map, true, none, some, List, [], ◌∷◌, length, arith, ◌==◌,
  if◌then◌else◌,
}
use proc_mw.Int.{ℤ, pos, negsuc, ◌+ℤ◌}
use proc_mw.Dispatch.{Host, ExternNode}
use proc_mw.Sandbox.{
  Sandbox, write_failed, child_died, plugin_rejected, answered, failed, Plugin, read_frame, reply,
  byte_step, byte_loop, accept_handshake, receive, run_bytes, spawn_bytes, restart,
}
use proc_mw.Sandbox.Frames.{to_le_bytes, from_le_bytes, read_exact}
use proc_mw.Sandbox.Exchange.{
  waiting, dead, KeepsLength, expected, run_all, answers, run_bytes-eq-expected, restart_recovers,
}
use proc_mw.Sandbox.Fuel.{byte_loop_ends}
use proc_mw.Sandbox.Text.{Numerals}

-- A plugin that increments each byte, counts its calls, rejects the empty request and panics at its
-- third call.
abbrev counter : Plugin ℕ
counter bs w =
    if w == 2
    then none
    else some (if length bs == 0 then pos 2 else pos 0, map (λ b. b + 1) bs, w + 1)

runs : Unit {0}
unfolding run_all run_bytes byte_loop byte_step read_frame reply receive read_exact from_le_bytes
    to_le_bytes spawn_bytes restart accept_handshake
runs = tt

results :
    (run_all counter ((1 ∷ 2 ∷ []) ∷ [] ∷ (3 ∷ []) ∷ (4 ∷ []) ∷ []) (waiting 0)
      ≡ answered (2 ∷ 3 ∷ [])
        ∷ failed plugin_rejected
        ∷ failed child_died
        ∷ failed write_failed
        ∷ [])
    × (restart counter 1 0 (dead 2) ≡ (answered tt, waiting 0))
unfolding runs
results = (refl, refl)

length-map : (bs : List ℕ) → length (map (λ b. b + 1) bs) ≡ length bs
length-map [] = refl
length-map (b ∷ bs) = ap suc (length-map bs)

counter-KeepsLength : KeepsLength counter
counter-KeepsLength input out code w w' h = ground (arith, length-map input, h)

run_bytes-eq-expected_example :
    run_bytes counter (1 ∷ 2 ∷ []) (waiting 0) ≡ expected 0 (counter (1 ∷ 2 ∷ []) 0)
run_bytes-eq-expected_example =
    run_bytes-eq-expected counter (1 ∷ 2 ∷ []) 0 counter-KeepsLength (omega arith)

restart_recovers_example :
    let (r, s') = restart counter 1 0 (dead 2) in
    (r ≡ answered tt)
    × (run_all counter ((1 ∷ []) ∷ (2 ∷ []) ∷ []) s' ≡ answers counter ((1 ∷ []) ∷ (2 ∷ []) ∷ []) 0)
restart_recovers_example =
    restart_recovers counter 0 (dead 2) ((1 ∷ []) ∷ (2 ∷ []) ∷ []) counter-KeepsLength (omega arith)

-- Two requests and a half.
abbrev behind : Sandbox ℕ
behind = record {
  unread = 1 ∷ 0 ∷ 0 ∷ 0 ∷ 7 ∷ 1 ∷ 0 ∷ 0 ∷ 0 ∷ 8 ∷ 2 ∷ 0 ∷ 0 ∷ 0 ∷ 9 ∷ [];
  replies = [];
  alive = true;
  world = 0;
}

byte_loop_ends_example : byte_step counter (byte_loop counter 15 behind) ≡ none
byte_loop_ends_example = byte_loop_ends counter 15 behind (omega arith)

-- Lines that hold a number as such.
abbrev plain : Numerals ℤ
plain = record { print = λ v. v; parse = λ v. some v }

abbrev host : Host ℕ
host = record { overflow_checks = true; now = λ w. (w, w) }

-- A plugin that subtracts 1000 and asks to stop.
abbrev stopping : ExternNode ℕ
stopping = record {
  enter = λ i o w. (pos 1, i +ℤ negsuc 999, o, w + 1);
  exit = none;
  keepalive = 0;
}
