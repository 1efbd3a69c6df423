-- ===== src/Strings.antt =====
-- What the program uses of Rust's texts, on lists of code points. A position in a text that the source
-- keeps as an index is here the pair of the parts on its two sides.
pub mod Laws
pub mod Numerals
use Prim.Native.Char.{code}
use proc_mw.Common.{
  ℕ, zero, suc, ◌+◌, ◌-◌, ◌*◌, ◌/◌, ◌%◌, ◌^◌, Bool, true, false, ◌&&◌, ◌||◌, Option, none, some,
  List, [], ◌∷◌, ◌++◌, reverse, String, ltb, leb, ◌==◌, if◌then◌else◌,
}

abbrev pub Text : Type 0
Text = List ℕ

-- The code points of a literal
abbrev pub codes : String → Text
codes String.[] = []
codes (String.◌∷◌ c s) = code c ∷ codes s

-- `char::is_whitespace`
unfoldable pub is_whitespace : ℕ → Bool
is_whitespace c =
    leb 9 c && leb c 13
    || c == 0x20
    || c == 0x85
    || c == 0xA0
    || c == 0x1680
    || leb 0x2000 c && leb c 0x200A
    || c == 0x2028
    || c == 0x2029
    || c == 0x202F
    || c == 0x205F
    || c == 0x3000

unfoldable pub trim_start : Text → Text
trim_start [] = []
trim_start (c ∷ s) = if is_whitespace c then trim_start s else c ∷ s

unfoldable pub trim_end : Text → Text
unfolding trim_start
trim_end s = reverse (trim_start (reverse s))

unfoldable pub trim : Text → Text
unfolding trim_end
trim s = trim_end (trim_start s)

-- The rest of a text that begins with the first
unfoldable pub strip_prefix : Text → Text → Option Text
strip_prefix [] s = some s
strip_prefix (p ∷ ps) [] = none
strip_prefix (p ∷ ps) (c ∷ s) = if p == c then strip_prefix ps s else none

abbrev pub cons_left : ℕ → Option (Text × Text) → Option (Text × Text)
cons_left c none = none
cons_left c (some (before, after)) = some (c ∷ before, after)

-- What stands before the first place where the first text occurs, and what after it: `find`
unfoldable pub split_at : Text → Text → Option (Text × Text)
unfolding strip_prefix
split_at p [] = elim (strip_prefix p []) [ none ↦ none | some rest ↦ some ([], rest) ]
split_at p (c ∷ s) = elim (strip_prefix p (c ∷ s)) [
  | none ↦ cons_left c (split_at p s)
  | some rest ↦ some ([], rest)
]

-- The same for one code point, from the left and from the right: `find` and `rfind`
unfoldable pub split_char : ℕ → Text → Option (Text × Text)
split_char x [] = none
split_char x (c ∷ s) = if c == x then some ([], s) else cons_left c (split_char x s)

abbrev pub later_split : ℕ → ℕ → Text → Option (Text × Text) → Option (Text × Text)
later_split x c s none = if c == x then some ([], s) else none
later_split x c s (some (before, after)) = some (c ∷ before, after)

unfoldable pub rsplit_char : ℕ → Text → Option (Text × Text)
rsplit_char x [] = none
rsplit_char x (c ∷ s) = later_split x c s (rsplit_char x s)

-- `lines`: a line feed ends a line, with a carriage return before it if there is one, and a last
-- line with no line feed is one if it is not empty.
abbrev pub end_line : Text → Text
end_line [] = []
end_line (c ∷ s) = if c == 13 then s else c ∷ s

abbrev pub last_line : Text → List Text
last_line [] = []
last_line (c ∷ s) = reverse (c ∷ s) ∷ []

-- With the current line so far, in reverse
unfoldable pub lines_from : Text → Text → List Text
lines_from line [] = last_line line
lines_from line (c ∷ s) =
    let rest = lines_from [] s in
    let more = lines_from (c ∷ line) s in if c == 10 then reverse (end_line line) ∷ rest else more

unfoldable pub lines : Text → List Text
unfolding lines_from
lines = lines_from []

abbrev pub is_digit : ℕ → Bool
is_digit c = leb 48 c && leb c 57

-- `parse::<u32>`: a plus sign may stand before the digits, of which there is one at least.
unfoldable pub digits_from : ℕ → Text → Option ℕ
digits_from n [] = some n
digits_from n (c ∷ s) =
    let rest = digits_from (n * 10 + (c - 48)) s in
    if is_digit c && ltb (n * 10 + (c - 48)) (2 ^ 32) then rest else none

unfoldable pub parse_digits : Text → Option ℕ
unfolding digits_from
parse_digits [] = none
parse_digits (c ∷ s) = digits_from 0 (c ∷ s)

unfoldable pub parse_u32 : Text → Option ℕ
unfolding parse_digits
parse_u32 [] = none
parse_u32 (c ∷ s) = if c == 43 then parse_digits s else parse_digits (c ∷ s)

-- The digits of a number, in front of a text; ten are enough for a `u32`.
unfoldable pub digits_before : ℕ → ℕ → Text → Text
digits_before zero n s = s
digits_before (suc f) n s =
    let more = digits_before f (n / 10) ((48 + n % 10) ∷ s) in
    if ltb n 10 then (48 + n) ∷ s else more

unfoldable pub print_u32 : ℕ → Text
unfolding digits_before
print_u32 n = digits_before 10 n []
