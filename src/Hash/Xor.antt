-- ===== src/Hash/Xor.antt =====
-- Exclusive or of native numbers at variables: the law for the lowest binary digit, and what follows
-- from it for the hashes.
use Prim.Native.Nat.{bit_xor, bit_xor-bitwise, digits, differ}
use proc_mw.Common.{ℕ, zero, suc, ◌+◌, ◌*◌, ◌/◌, ◌%◌, ◌^◌, ◌≤◌, ◌<◌, ◌≡◌, refl, ap, sym, ◌∙◌, arith}

abbrev run_digits : ℕ → ℕ → ℕ → ℕ
run_digits = digits (λ b. b) differ

-- Any count of digits that is enough gives the same.
enough_digits : (k l a b : ℕ) → a ≤ k → a ≤ l → run_digits k a b ≡ run_digits l a b
enough_digits zero zero zero b p q = refl
enough_digits zero zero (suc a) b p q = absurd (omega arith)
enough_digits zero (suc l) zero b p q = refl
enough_digits zero (suc l) (suc a) b p q = absurd (omega arith)
enough_digits (suc k) zero zero b p q = refl
enough_digits (suc k) zero (suc a) b p q = absurd (omega arith)
enough_digits (suc k) (suc l) zero b p q = refl
enough_digits (suc k) (suc l) (suc a) b p q =
    let half : suc a / 2 ≤ a = omega arith in
    ap (λ (n : ℕ). n * 2 + differ (suc a % 2) (b % 2))
      (enough_digits k l (suc a / 2) (b / 2) (omega arith) (omega arith))

zero-bit_xor : (b : ℕ) → bit_xor 0 b ≡ b
zero-bit_xor b = bit_xor-bitwise 0 b

pub bit_xor_step : (a b : ℕ) → bit_xor a b ≡ bit_xor (a / 2) (b / 2) * 2 + differ (a % 2) (b % 2)
bit_xor_step zero b = omega (arith, zero-bit_xor b, zero-bit_xor (b / 2))
bit_xor_step (suc a) b = omega (
  arith,
  bit_xor-bitwise (suc a) b,
  bit_xor-bitwise (suc a / 2) (b / 2),
  enough_digits a (suc a / 2) (suc a / 2) (b / 2) (omega arith) (omega arith),
)

differ-lt : (x y : ℕ) → x < 2 → y < 2 → differ x y < 2
differ-lt zero y p q = q
differ-lt (suc zero) zero p q = omega arith
differ-lt (suc zero) (suc y) p q = omega arith
differ-lt (suc (suc x)) y p q = absurd (omega arith)

differ-left_cancel : (x y z : ℕ) → x < 2 → y < 2 → z < 2 → differ x y ≡ differ x z → y ≡ z
differ-left_cancel zero y z p q r e = e
differ-left_cancel (suc zero) zero zero p q r e = refl
differ-left_cancel (suc zero) zero (suc z) p q r e = absurd (omega (arith, e))
differ-left_cancel (suc zero) (suc y) zero p q r e = absurd (omega (arith, e))
differ-left_cancel (suc zero) (suc y) (suc z) p q r e = omega arith
differ-left_cancel (suc (suc x)) y z p q r e = absurd (omega arith)

differ_comm : (x y : ℕ) → differ x y ≡ differ y x
differ_comm zero zero = refl
differ_comm zero (suc y) = refl
differ_comm (suc x) zero = refl
differ_comm (suc x) (suc y) = differ_comm x y

-- The proofs go by halving, with a bound on the numbers.
comm_below : (n a b : ℕ) → a ≤ n → b ≤ n → bit_xor a b ≡ bit_xor b a
comm_below zero zero zero p q = refl
comm_below zero zero (suc b) p q = absurd (omega arith)
comm_below zero (suc a) b p q = absurd (omega arith)
comm_below (suc n) a b p q = omega (
  arith,
  bit_xor_step a b,
  bit_xor_step b a,
  differ_comm (a % 2) (b % 2),
  comm_below n (a / 2) (b / 2) (omega arith) (omega arith),
)

pub bit_xor_comm : (a b : ℕ) → bit_xor a b ≡ bit_xor b a
bit_xor_comm a b = comm_below (a + b) a b (omega arith) (omega arith)

left_cancel_below : (n a b c : ℕ) → b ≤ n → c ≤ n → bit_xor a b ≡ bit_xor a c → b ≡ c
left_cancel_below zero a b c p q e = omega arith
left_cancel_below (suc n) a b c p q e =
    let bit_b = differ-lt (a % 2) (b % 2) (omega arith) (omega arith) in
    let bit_c = differ-lt (a % 2) (c % 2) (omega arith) (omega arith) in
    let whole : bit_xor (a / 2) (b / 2) * 2 + differ (a % 2) (b % 2)
        ≡ bit_xor (a / 2) (c / 2) * 2 + differ (a % 2) (c % 2) =
      sym (bit_xor_step a b) ∙ e ∙ bit_xor_step a c in
    let low : b % 2 ≡ c % 2 =
      differ-left_cancel (a % 2) (b % 2) (c % 2) (omega arith) (omega arith) (omega arith)
        (omega (arith, whole, bit_b, bit_c)) in
    let high : b / 2 ≡ c / 2 =
      left_cancel_below n (a / 2) (b / 2) (c / 2) (omega arith) (omega arith)
        (omega (arith, whole, bit_b, bit_c)) in
    omega (arith, low, high)

pub bit_xor-left_cancel : (a b c : ℕ) → bit_xor a b ≡ bit_xor a c → b ≡ c
bit_xor-left_cancel a b c e = left_cancel_below (b + c) a b c (omega arith) (omega arith) e

pub bit_xor-right_cancel : (a b c : ℕ) → bit_xor a c ≡ bit_xor b c → a ≡ b
bit_xor-right_cancel a b c e = bit_xor-left_cancel c a b (bit_xor_comm c a ∙ e ∙ bit_xor_comm b c)

pub bit_xor-lt : (w a b : ℕ) → a < 2 ^ w → b < 2 ^ w → bit_xor a b < 2 ^ w
bit_xor-lt zero zero b p q = omega (arith, zero-bit_xor b)
bit_xor-lt zero (suc a) b p q = absurd (omega arith)
bit_xor-lt (suc w) a b p q = omega (
  arith,
  bit_xor_step a b,
  differ-lt (a % 2) (b % 2) (omega arith) (omega arith),
  bit_xor-lt w (a / 2) (b / 2) (omega arith) (omega arith),
)
