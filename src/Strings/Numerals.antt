-- ===== src/Strings/Numerals.antt =====
-- Numerals are read as they are written.
use native.Mathlib.Nat.{pow-suc}
use proc_mw.Common.{
  ℕ, zero, suc, ◌+◌, ◌-◌, ◌*◌, ◌/◌, ◌%◌, ◌^◌, ◌<◌, ◌≡◌, refl, ap, ◌∙◌, ⊤, true, false, Bool-cases,
  inl, inr, some, [], ◌∷◌, ltb, lt→ltb, ltb→lt, ◌==◌, arith,
}
use proc_mw.Strings.{
  Text, is_whitespace, is_digit, digits_from, parse_u32, digits_before, print_u32,
}
use proc_mw.Strings.Laws.{Absent, Solid}

abbrev pub AllDigits : Text → Type 0
AllDigits [] = ⊤
AllDigits (c ∷ s) = (is_digit c ≡ true) × AllDigits s

digit-is_digit : (n : ℕ) → n < 10 → is_digit (48 + n) ≡ true
digit-is_digit n h = ground arith

digits_before-AllDigits : (f n : ℕ) (s : Text) → AllDigits s → AllDigits (digits_before f n s)
unfolding digits_before
digits_before-AllDigits zero n s h = h
digits_before-AllDigits (suc f) n s h = elim (Bool-cases (ltb n 10)) [
  | inl e ↦ rw e (digit-is_digit n (ltb→lt n 10 e), h)
  | inr e ↦ rw e (
      digits_before-AllDigits f (n / 10) ((48 + n % 10) ∷ s)
        (digit-is_digit (n % 10) (omega arith), h))
]

pub print_u32-AllDigits : (n : ℕ) → AllDigits (print_u32 n)
unfolding print_u32
print_u32-AllDigits n = digits_before-AllDigits 10 n [] tt

pub AllDigits-Absent : (x : ℕ) (s : Text) → is_digit x ≡ false → AllDigits s → Absent x s
AllDigits-Absent x [] h k = tt
AllDigits-Absent x (c ∷ s) h (k, ks) = (ground arith, AllDigits-Absent x s h ks)

digit-Solid : (c : ℕ) → is_digit c ≡ true → is_whitespace c ≡ false
unfolding is_whitespace
digit-Solid c h = ground arith

pub AllDigits-Solid : (s : Text) → AllDigits s → Solid s
AllDigits-Solid [] h = tt
AllDigits-Solid (c ∷ s) (h, hs) = (digit-Solid c h, AllDigits-Solid s hs)

-- One step of the reader on the last digit
read_digit :
    (m d : ℕ) (s : Text)
    → d < 10
    → m * 10 + d < 2 ^ 32
    → digits_from m ((48 + d) ∷ s) ≡ digits_from (m * 10 + d) s
unfolding digits_from
read_digit m d s h k =
    let e : 48 + d - 48 ≡ d = omega arith in
    rw (e, digit-is_digit d h, lt→ltb (m * 10 + d) (2 ^ 32) k) refl

digits_from-digits_before :
    (f n : ℕ) (s : Text)
    → n < 10 ^ f
    → n < 2 ^ 32
    → digits_from 0 (digits_before f n s) ≡ digits_from n s
unfolding digits_before
digits_from-digits_before zero n s h k = let e : n ≡ 0 = omega arith in rw e refl
digits_from-digits_before (suc f) n s h k = elim (Bool-cases (ltb n 10)) [
  | inl e ↦ rw e (
      read_digit 0 n s (ltb→lt n 10 e) (omega arith)
      ∙ ap (λ (m : ℕ). digits_from m s) (omega arith))
  | inr e ↦
      (let whole : n / 10 * 10 + n % 10 ≡ n = omega arith in
        rw e (
          digits_from-digits_before f (n / 10) ((48 + n % 10) ∷ s) (omega (arith, pow-suc 10 f))
            (omega arith)
          ∙ read_digit (n / 10) (n % 10) s (omega arith) (omega arith)
          ∙ rw whole refl))
]

-- A numeral begins with a digit.
abbrev FirstIsDigit : Text → Type 0
FirstIsDigit [] = ⊥
FirstIsDigit (c ∷ s) = is_digit c ≡ true

digits_before-FirstIsDigit :
    (f n c : ℕ) (s : Text) → is_digit c ≡ true → FirstIsDigit (digits_before f n (c ∷ s))
unfolding digits_before
digits_before-FirstIsDigit zero n c s h = h
digits_before-FirstIsDigit (suc f) n c s h = elim (Bool-cases (ltb n 10)) [
  | inl e ↦ rw e (digit-is_digit n (ltb→lt n 10 e))
  | inr e ↦ rw e (
      digits_before-FirstIsDigit f (n / 10) (48 + n % 10) (c ∷ s)
        (digit-is_digit (n % 10) (omega arith)))
]

print_u32-FirstIsDigit : (n : ℕ) → FirstIsDigit (print_u32 n)
unfolding print_u32 digits_before
print_u32-FirstIsDigit n = elim (Bool-cases (ltb n 10)) [
  | inl e ↦ rw e (digit-is_digit n (ltb→lt n 10 e))
  | inr e ↦ rw e (
      digits_before-FirstIsDigit 9 (n / 10) (48 + n % 10) []
        (digit-is_digit (n % 10) (omega arith)))
]

parse_u32-FirstIsDigit : (s : Text) → FirstIsDigit s → parse_u32 s ≡ digits_from 0 s
unfolding parse_u32
parse_u32-FirstIsDigit [] h = absurd h
parse_u32-FirstIsDigit (c ∷ s) h = let e : (c == 43) ≡ false = ground arith in rw e refl

digits_from-print_u32 : (n : ℕ) → n < 2 ^ 32 → digits_from 0 (print_u32 n) ≡ some n
unfolding print_u32 digits_from
digits_from-print_u32 n h = digits_from-digits_before 10 n [] (omega arith) h

-- A `u32` is read as it is written.
pub parse_u32-print_u32 : (n : ℕ) → n < 2 ^ 32 → parse_u32 (print_u32 n) ≡ some n
parse_u32-print_u32 n h =
    parse_u32-FirstIsDigit (print_u32 n) (print_u32-FirstIsDigit n) ∙ digits_from-print_u32 n h
