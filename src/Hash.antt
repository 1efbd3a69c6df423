-- ===== src/Hash.antt =====
-- FNV-1a with 64 bits, which src/compile.rs takes over the bytes of a source and src/runtime.rs over
-- the numbers of a layout.
pub mod Xor
pub mod Distinct
use Prim.Native.Nat.{bit_xor}
use proc_mw.Common.{ℕ, ◌*◌, ◌%◌, ◌^◌, ◌<◌, ⊤, List, [], ◌∷◌}

abbrev pub offset_basis : ℕ
offset_basis = 0xcbf29ce484222325

abbrev pub prime : ℕ
prime = 0x100000001b3

-- One round of the loop: `h ^= x; h = h.wrapping_mul(prime)`.
abbrev pub round : ℕ → ℕ → ℕ
round h x = bit_xor h x * prime % 2 ^ 64

unfoldable pub fnv_from : ℕ → List ℕ → ℕ
fnv_from h [] = h
fnv_from h (x ∷ xs) = fnv_from (round h x) xs

-- The words are numbers below 2 ^ 64.
abbrev pub AllWords : List ℕ → Type 0
AllWords [] = ⊤
AllWords (x ∷ xs) = (x < 2 ^ 64) × AllWords xs
