-- ===== src/Sandbox/Frames.antt =====
-- The bytes on the pipes of src/sandbox.rs and src/bin/mw_exec.rs: little-endian lengths, and reads
-- of a given number of bytes. A byte is a number below 256.
use proc_mw.Common.{
  ℕ, zero, suc, ◌+◌, ◌*◌, ◌%◌, ◌^◌, ◌≡◌, refl, ap, Option, none, some, List, [], ◌∷◌, ◌++◌, length,
  arith,
}
use Prim.Native.Nat.{◌/◌}

-- `(n as u32).to_le_bytes()`
unfoldable pub to_le_bytes : ℕ → List ℕ
to_le_bytes n = n % 256 ∷ n / 256 % 256 ∷ n / 65536 % 256 ∷ n / 16777216 % 256 ∷ []

-- `u32::from_le_bytes`
unfoldable pub from_le_bytes : List ℕ → ℕ
from_le_bytes [] = 0
from_le_bytes (b ∷ bs) = b + 256 * from_le_bytes bs

pub from_le_bytes-to_le_bytes : (n : ℕ) → from_le_bytes (to_le_bytes n) ≡ n % 2 ^ 32
unfolding from_le_bytes to_le_bytes
from_le_bytes-to_le_bytes n = omega arith

-- `read_exact`: so many bytes and what is left, or nothing if there are fewer.
unfoldable pub read_exact : ℕ → List ℕ → Option (List ℕ × List ℕ)
read_exact zero bs = some ([], bs)
read_exact (suc n) [] = none
read_exact (suc n) (b ∷ bs) = elim (read_exact n bs) [
  | none ↦ none
  | some (got, rest) ↦ some (b ∷ got, rest)
]

pub read_exact-append : (xs ys : List ℕ) → read_exact (length xs) (xs ++ ys) ≡ some (xs, ys)
unfolding read_exact
read_exact-append [] ys = refl
read_exact-append (x ∷ xs) ys = rw (read_exact-append xs ys)

-- A read of some bytes leaves less.
pub read_exact_shrinks :
    (n : ℕ) (bs got rest : List ℕ)
    → read_exact n bs ≡ some (got, rest)
    → length rest + n ≡ length bs
unfolding read_exact
read_exact_shrinks zero bs got rest h = ground arith
read_exact_shrinks (suc n) [] got rest h = cc
read_exact_shrinks (suc n) (b ∷ bs) got rest h =
    after (read_exact n bs) refl (read_exact_shrinks n bs) h
  where
    after :
        (r : Option (List ℕ × List ℕ))
        → read_exact n bs ≡ r
        → ((g t : List ℕ) → read_exact n bs ≡ some (g, t) → length t + n ≡ length bs)
        → (elim r as (λ _. Option (List ℕ × List ℕ)) [
          | none ↦ none
          | some (g, t) ↦ some (b ∷ g, t)
        ])
          ≡ some (got, rest)
        → length rest + suc n ≡ length (b ∷ bs)
    after none p ih e = cc
    after (some (g, t)) p ih e =
        let same : t ≡ rest = ground (arith, e) in
        omega (arith, ih g t p, ap (λ (l : List ℕ). length l) same)
