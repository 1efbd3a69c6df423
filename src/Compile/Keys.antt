-- ===== src/Compile/Keys.antt =====
-- Which builds have different keys in the cache.
use proc_mw.Common.{ℕ, ◌^◌, ◌<◌, ◌≡◌, ◌≢◌, List, ◌∷◌, ◌++◌, arith}
use proc_mw.Hash.{offset_basis, AllWords}
use proc_mw.Hash.Xor.{bit_xor-left_cancel, bit_xor-right_cancel}
use proc_mw.Hash.Distinct.{fnv_from-one_word}
use proc_mw.Compile.{fnv1a64, rotate_left_32, cache_key}

fnv1a64-one_word :
    (pre post : List ℕ) (x y : ℕ)
    → x < 2 ^ 64
    → y < 2 ^ 64
    → AllWords post
    → fnv1a64 (pre ++ x ∷ post) ≡ fnv1a64 (pre ++ y ∷ post)
    → x ≡ y
unfolding fnv1a64
fnv1a64-one_word pre post x y p q ws e =
    fnv_from-one_word offset_basis pre post x y (omega arith) p q ws e

rotate_left_32-cancel :
    (x y : ℕ) → x < 2 ^ 64 → y < 2 ^ 64 → rotate_left_32 x ≡ rotate_left_32 y → x ≡ y
rotate_left_32-cancel x y p q e = omega (arith, e)

-- With one toolchain, two sources that differ in one byte have different keys; and a source has
-- different keys with toolchains whose fingerprints, of 64 bits, are different.
pub cache_key_lem :
    (pre post : List ℕ) (x y fp fp' : ℕ)
    → x < 256
    → y < 256
    → AllWords post
    → fp < 2 ^ 64
    → fp' < 2 ^ 64
    → x ≢ y
    → fp ≢ fp'
    → (cache_key (pre ++ x ∷ post) fp ≢ cache_key (pre ++ y ∷ post) fp)
      × (cache_key (pre ++ x ∷ post) fp ≢ cache_key (pre ++ x ∷ post) fp')
unfolding cache_key
cache_key_lem pre post x y fp fp' p q ws r r' ne ne' = (
  (λ e. ne (
      fnv1a64-one_word pre post x y (omega arith) (omega arith) ws (
        bit_xor-right_cancel (fnv1a64 (pre ++ x ∷ post)) (fnv1a64 (pre ++ y ∷ post))
          (rotate_left_32 fp) e))),
  λ e. ne' (
      rotate_left_32-cancel fp fp' r r' (
        bit_xor-left_cancel (fnv1a64 (pre ++ x ∷ post)) (rotate_left_32 fp) (rotate_left_32 fp')
          e)),
)
