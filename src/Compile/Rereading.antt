-- ===== src/Compile/Rereading.antt =====
-- The diagnostics of src/compile.rs are read from the output of cargo as cargo writes it: a head on one
-- line, and the position on the next.
use mathlib.Core.List.{append_assoc, append-nil}
use proc_mw.Common.{
  ℕ, ◌≡◌, refl, ap, sym, subst, ◌∙◌, ⊤, ◌<◌, ◌^◌, false, Option-cases, inl, inr, Option, none, some,
  List, [], ◌∷◌, ◌++◌, map, ◌==◌, arith,
}
use proc_mw.Strings.{
  Text, codes, is_digit, is_whitespace, trim, trim_start, trim_end, strip_prefix, split_at, lines,
  lines_from, parse_u32, print_u32,
}
use proc_mw.Strings.Laws.{
  Absent, Absent-append, Absent-right, split_at_sound, trim-ends, trim_end-append, trim-Solid,
  trim_end-Solid, split_char-append, rsplit_char-append, lines-append, strip_prefix-append,
}
use proc_mw.Strings.Numerals.{
  print_u32-AllDigits, AllDigits-Absent, AllDigits-Solid, parse_u32-print_u32,
}
use proc_mw.Compile.Diagnostics.{
  Diag, trim_colons, push, read_head, read_position, locate, map_last, read_line, read_lines,
  extract_diagnostics,
}

pub record Printed : Type 0 where
  pub code : Text
  pub message : Text
  pub file : Text
  pub line : ℕ
  pub column : ℕ

-- The two lines of cargo
abbrev pub head_line : Printed → Text
head_line p = codes "error[" ++ (p.code ++ b']' ∷ (codes ": " ++ p.message))

abbrev pub position : Printed → Text
position p = b' ' ∷ (p.file ++ b':' ∷ (print_u32 p.line ++ b':' ∷ print_u32 p.column))

abbrev pub position_line : Printed → Text
position_line p = codes "  -->" ++ position p

abbrev pub print_all : List Printed → Text
print_all [] = []
print_all (p ∷ ps) = head_line p ++ b'\n' ∷ (position_line p ++ b'\n' ∷ print_all ps)

-- No part has a line end in it; the code has no closing bracket, and the file's name no opening one; the
-- message neither begins with a colon and a space nor ends by white space, and the line is a `u32`.
pub record IsPlain (p : Printed) : Type 0 where
  pub code_lines : Absent 10 p.code × Absent 13 p.code
  pub message_lines : Absent 10 p.message × Absent 13 p.message
  pub file_lines : Absent 10 p.file × Absent 13 p.file
  pub code_brackets : Absent b']' p.code
  pub file_brackets : Absent b'[' p.file
  pub message_starts : trim_colons p.message ≡ p.message
  pub message_ends : (m : Text) × (c : ℕ) × (is_whitespace c ≡ false) × (p.message ≡ m ++ c ∷ [])
  pub line_bound : p.line < 2 ^ 32

abbrev diag_of : Printed → Diag
diag_of p = record { code = p.code; message = p.message; line = some p.line }

-- A text without an opening bracket has no head in it.
split_at-marker : (s : Text) → Absent b'[' s → split_at (codes "error[") s ≡ none
split_at-marker s h = elim (Option-cases (split_at (codes "error[") s)) [
  | inl e ↦ e
  | inr ((x, y), e) ↦
      (let split : Absent b'[' (codes "error[" ++ y) =
          Absent-right b'[' x (codes "error[" ++ y)
            (subst (Absent b'[') (split_at_sound (codes "error[") s e) h) in
        let (same, _) = Absent-right b'[' (codes "error") (b'[' ∷ y) split in
        absurd (ground (arith, same)))
]

read_line-head :
    (out : List Diag) (rest : Text)
    → read_line out (codes "error[" ++ rest) ≡ push out (read_head rest)
unfolding read_line split_at strip_prefix
read_line-head out rest = refl

read_line-position :
    (out : List Diag) (rest : Text)
    → Absent b'[' rest
    → read_line out (codes "-->" ++ rest) ≡ some (map_last (locate (read_position rest)) out)
unfolding read_line
read_line-position out rest h =
    rw (split_at-marker (codes "-->" ++ rest) (refl, (refl, (refl, h))), read_line)
      (rw (strip_prefix-append (codes "-->") rest, read_line) refl)

trim-head_line : (p : Printed) → IsPlain p → trim (head_line p) ≡ head_line p
trim-head_line p h =
    let (m, c, solid, e) = h.message_ends in
    let before : Text = codes "rror[" ++ (p.code ++ b']' ∷ (codes ": " ++ m)) in
    let split : head_line p ≡ b'e' ∷ (before ++ c ∷ []) =
      ap (λ (t : Text). codes "error[" ++ (p.code ++ b']' ∷ (codes ": " ++ t))) e
      ∙ ap (λ (t : Text). codes "error[" ++ t)
          (sym (append_assoc p.code (b']' ∷ (codes ": " ++ m)) (c ∷ []))) in
    ap trim split ∙ trim-ends b'e' before c (unfold is_whitespace in refl) solid ∙ sym split

read_head-code :
    (code message : Text)
    → Absent b']' code
    → trim_colons message ≡ message
    → read_head (code ++ b']' ∷ (codes ": " ++ message))
      ≡ some (record { code = code; message = message; line = none })
unfolding read_head strip_prefix
read_head-code code message h e =
    rw (split_char-append b']' code (codes ": " ++ message) h, read_head)
      (ap
        (λ (t : Text). some (let d : Diag = record { code = code; message = t; line = none } in d))
        e)

read_head-line :
    (out : List Diag) (p : Printed)
    → IsPlain p
    → read_line out (trim (head_line p))
      ≡ some (out ++ record { code = p.code; message = p.message; line = none } ∷ [])
read_head-line out p h =
    ap (read_line out) (trim-head_line p h)
    ∙ read_line-head out (p.code ++ b']' ∷ (codes ": " ++ p.message))
    ∙ ap (push out) (read_head-code p.code p.message h.code_brackets h.message_starts)

-- The position up to the line, and the whole of it
abbrev up_to_line : Printed → Text
up_to_line p = b' ' ∷ (p.file ++ b':' ∷ print_u32 p.line)

position-split : (p : Printed) → position p ≡ up_to_line p ++ b':' ∷ print_u32 p.column
position-split p =
    sym (append_assoc (b' ' ∷ p.file) (b':' ∷ print_u32 p.line) (b':' ∷ print_u32 p.column))

trim-position_line : (p : Printed) → trim (position_line p) ≡ codes "-->" ++ position p
unfolding trim trim_start is_whitespace
trim-position_line p =
    ap (λ (t : Text). trim_end (codes "-->" ++ t)) (position-split p)
    ∙ trim_end-append (codes "-->" ++ up_to_line p) b':' (print_u32 p.column) refl
    ∙ ap (λ (t : Text). codes "-->" ++ (up_to_line p ++ b':' ∷ t))
        (trim_end-Solid (print_u32 p.column)
          (AllDigits-Solid (print_u32 p.column) (print_u32-AllDigits p.column)))
    ∙ ap (λ (t : Text). codes "-->" ++ t) (sym (position-split p))

numeral-Absent : (x n : ℕ) → is_digit x ≡ false → Absent x (print_u32 n)
numeral-Absent x n h = AllDigits-Absent x (print_u32 n) h (print_u32-AllDigits n)

position-Absent :
    (x : ℕ) (p : Printed)
    → is_digit x ≡ false
    → ((b' ' == x) ≡ false)
    → ((b':' == x) ≡ false)
    → Absent x p.file
    → Absent x (position p)
position-Absent x p h s c f = (
  s,
  Absent-append x p.file (b':' ∷ (print_u32 p.line ++ b':' ∷ print_u32 p.column)) f (
    c,
    Absent-append x (print_u32 p.line) (b':' ∷ print_u32 p.column) (numeral-Absent x p.line h)
        (c, numeral-Absent x p.column h),
  ),
)

read_position_lem : (p : Printed) → p.line < 2 ^ 32 → read_position (position p) ≡ some p.line
unfolding read_position
read_position_lem p h = rw (position-split p) (
    rw
      (
        rsplit_char-append b':' (up_to_line p) (print_u32 p.column)
            (numeral-Absent b':' p.column refl),
        read_position,
      )
      (rw
        (rsplit_char-append b':' (b' ' ∷ p.file) (print_u32 p.line)
          (numeral-Absent b':' p.line refl))
        (ap parse_u32 (
            trim-Solid (print_u32 p.line)
              (AllDigits-Solid (print_u32 p.line) (print_u32-AllDigits p.line)))
          ∙ parse_u32-print_u32 p.line h)))

read_position-line :
    (out : List Diag) (p : Printed)
    → IsPlain p
    → read_line out (trim (position_line p)) ≡ some (map_last (locate (some p.line)) out)
read_position-line out p h =
    ap (read_line out) (trim-position_line p)
    ∙ read_line-position out (position p) (position-Absent b'[' p refl refl refl h.file_brackets)
    ∙ ap (λ (n : Option ℕ). some (map_last (locate n) out)) (read_position_lem p h.line_bound)

map_last-append :
    (f : Diag → Diag) (out : List Diag) (d : Diag) → map_last f (out ++ d ∷ []) ≡ out ++ f d ∷ []
map_last-append f [] d = refl
map_last-append f (e ∷ []) d = refl
map_last-append f (e ∷ e' ∷ out) d =
    ap (λ (ds : List Diag). e ∷ ds) (map_last-append f (e' ∷ out) d)

read_two :
    (out : List Diag) (p : Printed) (ls : List Text)
    → IsPlain p
    → read_lines out (head_line p ∷ position_line p ∷ ls) ≡ read_lines (out ++ diag_of p ∷ []) ls
unfolding read_lines
read_two out p ls h =
    let d : Diag = record { code = p.code; message = p.message; line = none } in
    rw (read_head-line out p h, read_lines)
      (rw (read_position-line (out ++ d ∷ []) p h, read_lines)
        (ap (λ (ds : List Diag). read_lines ds ls)
          (map_last-append (locate (some p.line)) out d ∙ (unfold locate in refl))))

lines-print_all :
    (p : Printed) (ps : List Printed)
    → IsPlain p
    → lines (print_all (p ∷ ps)) ≡ head_line p ∷ position_line p ∷ lines (print_all ps)
lines-print_all p ps h =
    lines-append (head_line p) (position_line p ++ b'\n' ∷ print_all ps)
      (
        refl,
        (
          refl,
          (
            refl,
            (refl, (refl, (refl, head-Absent 10 refl refl refl h.code_lines.0 h.message_lines.0))),
          ),
        ),
      )
      (
        refl,
        (
          refl,
          (
            refl,
            (refl, (refl, (refl, head-Absent 13 refl refl refl h.code_lines.1 h.message_lines.1))),
          ),
        ),
      )
    ∙ ap (λ (ls : List Text). head_line p ∷ ls)
        (lines-append (position_line p) (print_all ps)
          (refl, (refl, (refl, (refl, (refl, position-Absent 10 p refl refl refl h.file_lines.0)))))
          (
            refl,
            (refl, (refl, (refl, (refl, position-Absent 13 p refl refl refl h.file_lines.1)))),
          ))
  where
    head-Absent :
        (x : ℕ)
        → ((b']' == x) ≡ false)
        → ((b':' == x) ≡ false)
        → ((b' ' == x) ≡ false)
        → Absent x p.code
        → Absent x p.message
        → Absent x (p.code ++ b']' ∷ (codes ": " ++ p.message))
    head-Absent x a b c k m =
        Absent-append x p.code (b']' ∷ (codes ": " ++ p.message)) k (a, (b, (c, m)))

abbrev pub AllPlain : List Printed → Type 0
AllPlain [] = ⊤
AllPlain (p ∷ ps) = IsPlain p × AllPlain ps

read_lines-print_all :
    (out : List Diag) (ps : List Printed)
    → AllPlain ps
    → read_lines out (lines (print_all ps)) ≡ some (out ++ map diag_of ps)
read_lines-print_all out [] h = unfold read_lines lines lines_from in ap some (sym (append-nil out))
read_lines-print_all out (p ∷ ps) (h, hs) =
    ap (read_lines out) (lines-print_all p ps h)
    ∙ read_two out p (lines (print_all ps)) h
    ∙ read_lines-print_all (out ++ diag_of p ∷ []) ps hs
    ∙ ap some (append_assoc out (diag_of p ∷ []) (map diag_of ps))

-- Let errors be printed as cargo does, a head and the line of its position for each, where the texts have
-- no line end in them, a code has no closing bracket and a file's name no opening one, a message is not empty
-- and neither begins with a colon and a space nor ends by white space, and the number of a line is a `u32`.
-- Then `extract_diagnostics` does not panic, and finds exactly these errors in their order, each with its
-- code, its message and its line.
pub extract_diagnostics-print_all :
    (ps : List Printed)
    → AllPlain ps
    → extract_diagnostics (print_all ps)
      ≡ some (map (λ p. record { code = p.code; message = p.message; line = some p.line }) ps)
unfolding extract_diagnostics
extract_diagnostics-print_all ps h = read_lines-print_all [] ps h
