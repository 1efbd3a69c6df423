-- ===== src/Int.antt =====
-- Signed integers over the native numbers, and Rust's `i32` as an integer with its range.
-- `+=` on an `i32` panics on overflow where overflow checks are compiled in, and wraps otherwise.
use proc_mw.Common.{
  ℕ, suc, ◌+◌, ◌-◌, ◌*◌, ◌%◌, ◌^◌, ◌≤◌, ◌<◌, ◌≡◌, refl, Bool, true, false, Option, none, some, ◌&&◌,
  arith, ltb, leb, if◌then◌else◌,
}

-- `negsuc n` is -(n + 1).
pub data ℤ : Type 0 where
  pos : ℕ → ℤ
  negsuc : ℕ → ℤ

abbrev pub pos_part : ℤ → ℕ
pos_part (pos n) = n
pos_part (negsuc n) = 0

abbrev pub neg_part : ℤ → ℕ
neg_part (pos n) = 0
neg_part (negsuc n) = suc n

-- a - b, as an integer.
abbrev pub sub_ℕ : ℕ → ℕ → ℤ
sub_ℕ a b = if leb b a then pos (a - b) else negsuc (b - a - 1)

infixl 65 ◌+ℤ◌
infix 50 ◌≤ℤ◌
unfoldable pub ◌+ℤ◌ : ℤ → ℤ → ℤ
a +ℤ b = sub_ℕ (pos_part a + pos_part b) (neg_part a + neg_part b)

abbrev pub ◌≤ℤ◌ : ℤ → ℤ → Type 0
a ≤ℤ b = pos_part a + neg_part b ≤ pos_part b + neg_part a

abbrev pub ltb_ℤ : ℤ → ℤ → Bool
ltb_ℤ a b = ltb (pos_part a + neg_part b) (pos_part b + neg_part a)

pub +ℤ_parts :
    (a b : ℤ)
    → pos_part (a +ℤ b) + neg_part a + neg_part b ≡ neg_part (a +ℤ b) + pos_part a + pos_part b
unfolding ◌+ℤ◌
+ℤ_parts a b = ground arith

pub eq_of_parts : (a b : ℤ) → pos_part a + neg_part b ≡ pos_part b + neg_part a → a ≡ b
eq_of_parts a b h = ground arith

pub ruleset int_laws = (arith, +ℤ_parts, eq_of_parts)

-- A value of type `i32`.
abbrev pub InRange : ℤ → Type 0
InRange a = (pos_part a < 2 ^ 31) × (neg_part a ≤ 2 ^ 31)

abbrev pub in_range : ℤ → Bool
in_range a = ltb (pos_part a) (2 ^ 31) && leb (neg_part a) (2 ^ 31)

-- The `i32` with the same bits as the low 32 bits of `a`, in two's complement.
abbrev pub of_bits : ℕ → ℤ
of_bits w = if ltb w (2 ^ 31) then pos w else negsuc (2 ^ 32 - w - 1)

unfoldable pub wrap : ℤ → ℤ
wrap (pos n) = of_bits (n % 2 ^ 32)
wrap (negsuc n) = of_bits (2 ^ 32 - 1 - n % 2 ^ 32)

pub wrap-InRange : (a : ℤ) → InRange (wrap a)
unfolding wrap
wrap-InRange (pos n) = ground arith
wrap-InRange (negsuc n) = ground arith

pub wrap_of_InRange : (a : ℤ) → InRange a → wrap a ≡ a
unfolding wrap
wrap_of_InRange (pos n) h = ground arith
wrap_of_InRange (negsuc n) h = ground arith

-- `a + b` on `i32`: `none` is the panic of a build with overflow checks.
unfoldable pub add_i32 : Bool → ℤ → ℤ → Option ℤ
add_i32 checked a b =
    if in_range (a +ℤ b) then some (a +ℤ b) else if checked then none else some (wrap (a +ℤ b))
