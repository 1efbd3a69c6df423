-- ===== src/Domains.antt =====
-- labs/scales/large_multi/domains: ten crates, domain_0 to domain_9, of 500 handlers each. The handlers
-- of a crate are written out one by one, and differ in their number only: handler `i` of crate `d` is
-- `handler d i`, and the crate is the function from the number of a handler, below 500, to the handler.
pub mod Bounds
mod Tests
use proc_mw.Common.{ℕ, zero, suc, ◌+◌, ◌*◌, ◌%◌, List, [], ◌∷◌}
use proc_mw.Int.{ℤ, pos, negsuc, ◌+ℤ◌, sub_ℕ, wrap}

-- a * k, for a constant `k` that is not negative
abbrev pub times : ℤ → ℕ → ℤ
times (pos n) k = pos (n * k)
times (negsuc n) k = sub_ℕ 0 (suc n * k)

-- `wrapping_rem` with a positive divisor: the sign is the dividend's
abbrev pub rem : ℤ → ℕ → ℤ
rem (pos n) m = pos (n % m)
rem (negsuc n) m = sub_ℕ 0 (suc n % m)

abbrev pub wrapping_add : ℤ → ℕ → ℤ
wrapping_add a k = wrap (a +ℤ pos k)

abbrev pub wrapping_sub : ℤ → ℕ → ℤ
wrapping_sub a k = wrap (a +ℤ sub_ℕ 0 k)

abbrev pub wrapping_mul : ℤ → ℕ → ℤ
wrapping_mul a k = wrap (times a k)

abbrev pub factor : ℕ → ℕ
factor i = i % 7 + 3

unfoldable pub handler : ℕ → ℕ → ℤ → ℤ
handler d zero input = wrapping_add input (d + 1)
handler d (suc i) input =
    let base = wrapping_mul input (d + 1) in
    let s = wrapping_mul (wrapping_add base (factor (suc i))) (factor (suc i)) in
    rem (wrapping_sub s (d * 11 + suc i)) 97

abbrev pub domain_0 : ℕ → ℤ → ℤ
domain_0 = handler 0

abbrev pub domain_1 : ℕ → ℤ → ℤ
domain_1 = handler 1

abbrev pub domain_2 : ℕ → ℤ → ℤ
domain_2 = handler 2

abbrev pub domain_3 : ℕ → ℤ → ℤ
domain_3 = handler 3

abbrev pub domain_4 : ℕ → ℤ → ℤ
domain_4 = handler 4

abbrev pub domain_5 : ℕ → ℤ → ℤ
domain_5 = handler 5

abbrev pub domain_6 : ℕ → ℤ → ℤ
domain_6 = handler 6

abbrev pub domain_7 : ℕ → ℤ → ℤ
domain_7 = handler 7

abbrev pub domain_8 : ℕ → ℤ → ℤ
domain_8 = handler 8

abbrev pub domain_9 : ℕ → ℤ → ℤ
domain_9 = handler 9

abbrev pub domains : List (ℕ → ℤ → ℤ)
domains =
    domain_0 ∷ domain_1 ∷ domain_2 ∷ domain_3 ∷ domain_4 ∷ domain_5 ∷ domain_6 ∷ domain_7 ∷ domain_8
    ∷ domain_9 ∷ []
