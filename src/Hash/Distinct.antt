-- ===== src/Hash/Distinct.antt =====
-- FNV-1a tells sequences apart that differ in one word.
use Prim.Native.Nat.{bit_xor}
use proc_mw.Common.{ℕ, ◌*◌, ◌%◌, ◌^◌, ◌<◌, ◌≡◌, ap, sym, ◌∙◌, List, [], ◌∷◌, ◌++◌, arith}
use proc_mw.Hash.{prime, round, fnv_from, AllWords}
use proc_mw.Hash.Xor.{bit_xor-left_cancel, bit_xor-right_cancel, bit_xor-lt}

-- The inverse of the prime modulo 2 ^ 64.
abbrev inverse : ℕ
inverse = 0xce965057aff6957b

undo : (x : ℕ) → x < 2 ^ 64 → x * prime % 2 ^ 64 * inverse % 2 ^ 64 ≡ x
undo x lt = omega arith

mul_prime_cancel :
    (x y : ℕ) → x < 2 ^ 64 → y < 2 ^ 64 → x * prime % 2 ^ 64 ≡ y * prime % 2 ^ 64 → x ≡ y
mul_prime_cancel x y p q e = sym (undo x p) ∙ ap (λ (z : ℕ). z * inverse % 2 ^ 64) e ∙ undo y q

round-lt : (h x : ℕ) → round h x < 2 ^ 64
round-lt h x = omega arith

round-cancel_word :
    (h x y : ℕ) → h < 2 ^ 64 → x < 2 ^ 64 → y < 2 ^ 64 → round h x ≡ round h y → x ≡ y
round-cancel_word h x y p q r e =
    bit_xor-left_cancel h x y (
      mul_prime_cancel (bit_xor h x) (bit_xor h y) (bit_xor-lt 64 h x p q) (bit_xor-lt 64 h y p r)
        e)

round-cancel_state :
    (h k x : ℕ) → h < 2 ^ 64 → k < 2 ^ 64 → x < 2 ^ 64 → round h x ≡ round k x → h ≡ k
round-cancel_state h k x p q r e =
    bit_xor-right_cancel h k x (
      mul_prime_cancel (bit_xor h x) (bit_xor k x) (bit_xor-lt 64 h x p r) (bit_xor-lt 64 k x q r)
        e)

fnv_from-cancel_state :
    (h k : ℕ) (xs : List ℕ)
    → h < 2 ^ 64
    → k < 2 ^ 64
    → AllWords xs
    → fnv_from h xs ≡ fnv_from k xs
    → h ≡ k
unfolding fnv_from
fnv_from-cancel_state h k [] p q ws e = e
fnv_from-cancel_state h k (x ∷ xs) p q (lt, ws) e =
    round-cancel_state h k x p q lt
      (fnv_from-cancel_state (round h x) (round k x) xs (round-lt h x) (round-lt k x) ws e)

pub fnv_from-one_word :
    (h : ℕ) (pre post : List ℕ) (x y : ℕ)
    → h < 2 ^ 64
    → x < 2 ^ 64
    → y < 2 ^ 64
    → AllWords post
    → fnv_from h (pre ++ x ∷ post) ≡ fnv_from h (pre ++ y ∷ post)
    → x ≡ y
unfolding fnv_from
fnv_from-one_word h [] post x y p q r ws e =
    round-cancel_word h x y p q r
      (fnv_from-cancel_state (round h x) (round h y) post (round-lt h x) (round-lt h y) ws e)
fnv_from-one_word h (z ∷ pre) post x y p q r ws e =
    fnv_from-one_word (round h z) pre post x y (round-lt h z) q r ws e

pub fnv_from-lt : (h : ℕ) (xs : List ℕ) → h < 2 ^ 64 → fnv_from h xs < 2 ^ 64
unfolding fnv_from
fnv_from-lt h [] lt = lt
fnv_from-lt h (x ∷ xs) lt = fnv_from-lt (round h x) xs (round-lt h x)
