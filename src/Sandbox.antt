-- ===== src/Sandbox.antt =====
-- src/sandbox.rs and src/bin/mw_exec.rs: a plugin in a process of its own, and the host that talks to
-- it over two pipes. The host writes to `unread`, which the child reads, and reads from `replies`,
-- which the child writes. The child takes its turn whenever the host has written.
mod Frames
pub mod Exchange
pub mod Text
pub mod Fuel
mod Tests
use proc_mw.Common.{
  ℕ, zero, suc, ⊤, Bool, true, false, Option, none, some, List, [], ◌∷◌, ◌++◌, length, ◌==◌, ◌&&◌,
  if◌then◌else◌,
}
use proc_mw.Int.{ℤ, pos}
use proc_mw.Sandbox.Frames.{to_le_bytes, from_le_bytes, read_exact}

-- The child is alive until a plugin panics, which ends its process, or until it exits.
pub record Sandbox (W : Type 0) : Type 0 where
  pub unread : List ℕ
  pub replies : List ℕ
  pub alive : Bool
  pub world : W

-- Why the host gets no result. (`hangs` below is no error that the code returns.)
pub data Failure : Type 0 where
  write_failed : Failure
  child_died : Failure
  reply_interrupted : Failure
  reply_incomplete : Failure
  plugin_rejected : Failure
  handshake_failed : Failure
  protocol_mismatch : Failure

-- What a call of the host comes to. It hangs if it waits for bytes that a living child, which waits
-- for bytes itself, will not write.
pub data Answer (A : Type 0) : Type 0 where
  answered : A → Answer A
  failed : Failure → Answer A
  hangs : Answer A

-- `PluginOpaque::call` on the bytes of the payload, in place, with the state inside the child: the
-- code and the bytes after it, or nothing if the plugin panics.
abbrev pub Plugin : Type 0 → Type 0
Plugin W = List ℕ → W → Option (ℤ × List ℕ × W)

abbrev pub sandbox_protocol_version : ℕ
sandbox_protocol_version = 1

abbrev pub sandbox_magic : ℕ
sandbox_magic = 161

abbrev pub sandbox_ack : ℕ
sandbox_ack = 178

-- the status byte of a reply
abbrev pub status : ℤ → ℕ
status (pos zero) = 0
status _ = 1

-- the two reads of the loop of `byte_mode`
unfoldable pub read_frame : List ℕ → Option (List ℕ × List ℕ)
read_frame unread = elim (read_exact 4 unread) [
  | none ↦ none
  | some (len_buf, rest) ↦ read_exact (from_le_bytes len_buf) rest
]

module _ {W : Type 0} (plugin : Plugin W) where
  -- the rest of the loop: the call of the plugin, and the reply
  unfoldable pub reply : List ℕ → List ℕ → Sandbox W → Sandbox W
  reply payload rest s = elim (plugin payload s.world) [
    | none ↦ record s { unread = rest; alive = false }
    | some (code, out, w) ↦ record s {
      unread = rest;
      replies = s.replies ++ status code ∷ to_le_bytes (length out) ++ out;
      world = w;
    }
  ]

  -- One iteration of the loop of `byte_mode`; nothing where the child waits for bytes.
  unfoldable pub byte_step : Sandbox W → Option (Sandbox W)
  unfolding read_frame reply
  byte_step s =
      if s.alive
      then elim (read_frame s.unread) [
        | none ↦ none
        | some (payload, rest) ↦ some (reply payload rest s)
      ]
      else none

  -- The loop of `byte_mode`. An iteration reads four bytes or more, so that the number of bytes to
  -- read bounds the number of iterations.
  unfoldable pub byte_loop : ℕ → Sandbox W → Sandbox W
  byte_loop zero s = s
  byte_loop (suc fuel) s = elim (byte_step s) [ none ↦ s | some s' ↦ byte_loop fuel s' ]

  -- The start of `byte_mode` in a child whose protocol version is `version`.
  unfoldable pub accept_handshake : ℕ → Sandbox W → Sandbox W
  accept_handshake version s = elim (read_exact 3 s.unread) [
    | some (magic ∷ v ∷ _, rest) ↦
        if (magic == sandbox_magic) && (v == version)
        then record s { unread = rest; replies = s.replies ++ sandbox_ack ∷ [] }
        else record s { alive = false }
    | _ ↦ record s { alive = false }
  ]

-- A read of the host that finds too few bytes.
abbrev pub starved : {W A : Type 0} → Failure → Sandbox W → Answer A
starved f s = if s.alive then hangs else failed f

-- The end of `run_bytes`: the three reads and the check of the status.
unfoldable pub receive : {W : Type 0} → Sandbox W → Answer (List ℕ) × Sandbox W
receive s = elim (read_exact 1 s.replies) [
  | none ↦ (starved child_died s, s)
  | some (status, r₁) ↦ elim (read_exact 4 r₁) [
    | none ↦ (starved reply_interrupted s, record s { replies = [] })
    | some (len_buf, r₂) ↦ elim (read_exact (from_le_bytes len_buf) r₂) [
      | none ↦ (starved reply_incomplete s, record s { replies = [] })
      | some (payload, r₃) ↦ (
        if from_le_bytes status == 0 then answered payload else failed plugin_rejected,
        record s { replies = r₃ },
      )
    ]
  ]
]

module _ {W : Type 0} (plugin : Plugin W) where
  -- `Sandbox::run_bytes`. A write to a child that is dead fails.
  unfoldable pub run_bytes : List ℕ → Sandbox W → Answer (List ℕ) × Sandbox W
  run_bytes input s =
      if s.alive
      then (let unread = s.unread ++ to_le_bytes (length input) ++ input in
          receive (byte_loop plugin (length unread) (record s { unread = unread })))
      else (failed write_failed, s)

  -- `Sandbox::spawn_bytes`, where `init` is the state of a plugin that is just loaded. `restart` in
  -- byte mode does the same in place of the old child.
  unfoldable pub spawn_bytes : ℕ → W → Answer ⊤ × Sandbox W
  spawn_bytes version init =
      let s = accept_handshake plugin version (record {
        unread = sandbox_magic ∷ sandbox_protocol_version ∷ 10 ∷ [];
        replies = [];
        alive = true;
        world = init;
      }) in
      elim (read_exact 1 s.replies) [
        | none ↦ (starved handshake_failed s, s)
        | some (ack, rest) ↦ (
          if from_le_bytes ack == sandbox_ack then answered tt else failed protocol_mismatch,
          record s { replies = rest },
        )
      ]

  unfoldable pub restart : ℕ → W → Sandbox W → Answer ⊤ × Sandbox W
  restart version init s = spawn_bytes version init
