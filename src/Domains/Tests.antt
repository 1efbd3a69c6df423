-- ===== src/Domains/Tests.antt =====
-- The handlers of the domains at concrete inputs.
use proc_mw.Common.{◌≡◌, refl, arith}
use proc_mw.Int.{pos, negsuc, pos_part, neg_part, ◌+ℤ◌, wrap}
use proc_mw.Domains.{handler, domain_3}
use proc_mw.Domains.Bounds.{domains-eq-exact}

run : Unit {0}
unfolding handler ◌+ℤ◌ wrap
run = tt

-- ((10 * 4 + 4) * 4 - 34) % 97, and a negative remainder
results : (domain_3 1 (pos 10) ≡ pos 45) × (domain_3 1 (negsuc 9) ≡ negsuc 80)
unfolding run
results = (refl, refl)

-- Handler 2 of domain 3, at an input that is negative
domains-eq-exact_example :
    (pos_part (domain_3 2 (negsuc 9_999_999)) ≡ 0) × (neg_part (domain_3 2 (negsuc 9_999_999)) ≡ 75)
unfolding ◌+ℤ◌
domains-eq-exact_example =
    domains-eq-exact 3 2 (negsuc 9_999_999) refl (omega arith) (omega arith) (omega arith)
      (omega arith)
