-- ===== src/Domains/Bounds.antt =====
-- The results of the handlers, and the inputs on which they do not wrap around.
use proc_mw.Common.{
  ℕ, zero, suc, ◌+◌, ◌*◌, ◌%◌, ◌^◌, ◌≤◌, ◌<◌, ◌≡◌, ap, subst, some, get_elem?, arith,
}
use proc_mw.Int.{ℤ, pos, negsuc, pos_part, neg_part, ◌+ℤ◌, sub_ℕ, wrap_of_InRange}
use proc_mw.Domains.{times, rem, wrapping_add, wrapping_sub, wrapping_mul, factor, handler, domains}

rem_parts :
    (a : ℤ) → (pos_part (rem a 97) ≡ pos_part a % 97) × (neg_part (rem a 97) ≡ neg_part a % 97)
rem_parts (pos n) = ground arith
rem_parts (negsuc n) = ground arith

domain_of : (d : ℕ) {h : ℕ → ℤ → ℤ} → get_elem? domains d ≡ some h → (d < 10) × (handler d ≡ h)
domain_of zero {h} e = (omega arith, cc)
domain_of (suc zero) {h} e = (omega arith, cc)
domain_of (suc (suc zero)) {h} e = (omega arith, cc)
domain_of (suc (suc (suc zero))) {h} e = (omega arith, cc)
domain_of (suc (suc (suc (suc zero)))) {h} e = (omega arith, cc)
domain_of (suc (suc (suc (suc (suc zero))))) {h} e = (omega arith, cc)
domain_of (suc (suc (suc (suc (suc (suc zero)))))) {h} e = (omega arith, cc)
domain_of (suc (suc (suc (suc (suc (suc (suc zero))))))) {h} e = (omega arith, cc)
domain_of (suc (suc (suc (suc (suc (suc (suc (suc zero)))))))) {h} e = (omega arith, cc)
domain_of (suc (suc (suc (suc (suc (suc (suc (suc (suc zero))))))))) {h} e = (omega arith, cc)
domain_of (suc (suc (suc (suc (suc (suc (suc (suc (suc (suc d)))))))))) {h} e = cc

mul_le : (a b k : ℕ) → a ≤ b → a * k ≤ b * k
mul_le a b zero h = omega arith
mul_le a b (suc k) h = omega (arith, mul_le a b k h)

times_parts :
    (a : ℤ) (k : ℕ)
    → (pos_part (times a k) ≡ pos_part a * k) × (neg_part (times a k) ≡ neg_part a * k)
times_parts (pos n) k = ground arith
times_parts (negsuc n) k = ground arith

-- A product whose factors are small is not wrapped, and a sum.
mul_small :
    (a : ℤ) (b k : ℕ)
    → pos_part a ≤ b
    → neg_part a ≤ b
    → b * k < 2 ^ 31
    → (wrapping_mul a k ≡ times a k)
      × (pos_part (times a k) ≤ b * k)
      × (neg_part (times a k) ≤ b * k)
mul_small a b k p n small =
    let parts = times_parts a k in
    let pk = mul_le (pos_part a) b k p in
    let nk = mul_le (neg_part a) b k n in
    (
      wrap_of_InRange (times a k) (omega (arith, parts, pk, nk)),
      omega (arith, parts, pk),
      omega (arith, parts, nk),
    )

add_small :
    (a : ℤ) (b k : ℕ)
    → pos_part a ≤ b
    → neg_part a ≤ b
    → b + k < 2 ^ 31
    → (wrapping_add a k ≡ a +ℤ pos k)
      × (pos_part (a +ℤ pos k) ≤ b + k)
      × (neg_part (a +ℤ pos k) ≤ b)
unfolding ◌+ℤ◌
add_small a b k p n small =
    (wrap_of_InRange (a +ℤ pos k) (ground arith), ground arith, ground arith)

sub_small :
    (a : ℤ) (b k : ℕ)
    → pos_part a ≤ b
    → neg_part a ≤ b
    → b + k < 2 ^ 31
    → wrapping_sub a k ≡ (a +ℤ sub_ℕ 0 k)
unfolding ◌+ℤ◌
sub_small a b k p n small = wrap_of_InRange (a +ℤ sub_ℕ 0 k) (ground arith)

-- ((input (d + 1) + f) f - (11 d + i)), as an integer, where f is 3 more than the remainder of i by 7
abbrev pub exact : ℕ → ℕ → ℤ → ℤ
exact d i input = times (times input (d + 1) +ℤ pos (i % 7 + 3)) (i % 7 + 3) +ℤ sub_ℕ 0 (d * 11 + i)

handler-eq-exact :
    (d i : ℕ) (input : ℤ)
    → d < 10
    → suc i < 500
    → pos_part input ≤ 20_000_000
    → neg_part input ≤ 20_000_000
    → handler d (suc i) input ≡ rem (exact d (suc i) input) 97
unfolding handler
handler-eq-exact d i input dl il p n =
    let f = factor (suc i) in
    let (e₁, p₁, n₁) = mul_small input 20_000_000 (d + 1) p n (omega arith) in
    let (e₂, p₂, n₂) =
      add_small (times input (d + 1)) 200_000_000 f (omega arith) (omega arith) (omega arith) in
    let (e₃, p₃, n₃) =
      mul_small (times input (d + 1) +ℤ pos f) 200_000_009 f (omega (arith, p₂)) (omega (arith, n₂))
        (omega arith) in
    rw (e₁, e₂, e₃)
      (ap (λ (a : ℤ). rem a 97)
        (sub_small (times (times input (d + 1) +ℤ pos f) f) 1_800_000_081 (d * 11 + suc i)
          (omega (arith, p₃)) (omega (arith, n₃)) (omega arith)))

-- On inputs from -20,000,000 to 20,000,000 no operation of a handler wraps around: handler `i` of domain `d`, for
-- `i` from 1 to 499, returns the remainder by 97 of the exact value of (input (d + 1) + f) f - (11 d + i),
-- where f is i % 7 + 3, with the sign of that value.
pub domains-eq-exact :
    (d i : ℕ) (input : ℤ) {h : ℕ → ℤ → ℤ}
    → get_elem? domains d ≡ some h
    → 0 < i
    → i < 500
    → pos_part input ≤ 20_000_000
    → neg_part input ≤ 20_000_000
    → (pos_part (h i input) ≡ pos_part (exact d i input) % 97)
      × (neg_part (h i input) ≡ neg_part (exact d i input) % 97)
domains-eq-exact d zero input e z il p n = absurd (omega arith)
domains-eq-exact d (suc i) input {h} e z il p n =
    let (dl, same) = domain_of d e in
    subst
      (λ (g : ℕ → ℤ → ℤ).
        (pos_part (g (suc i) input) ≡ pos_part (exact d (suc i) input) % 97)
        × (neg_part (g (suc i) input) ≡ neg_part (exact d (suc i) input) % 97))
      same (rw (handler-eq-exact d i input dl il p n) (rem_parts (exact d (suc i) input)))
