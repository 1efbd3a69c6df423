-- ===== src/Strings/Laws.antt =====
-- Texts taken apart again where they were put together.
use mathlib.Core.List.{reverse-append, reverse-reverse, reverse-cons, append_assoc, append-nil}
use proc_mw.Common.{
  ℕ, ◌≡◌, refl, ap, sym, subst, ◌∙◌, ◌≡⟨◌⟩◌, ◌∎, ⊤, false, Bool-cases, Option-cases, inl, inr,
  Option, none, some, [], ◌∷◌, ◌++◌, reverse, ◌==◌, ==_iff, arith,
}
use proc_mw.Strings.{
  Text, is_whitespace, trim_start, trim_end, trim, strip_prefix, cons_left, split_at, split_char,
  rsplit_char, end_line, lines_from, lines,
}

-- A code point does not stand in a text.
abbrev pub Absent : ℕ → Text → Type 0
Absent x [] = ⊤
Absent x (c ∷ s) = ((c == x) ≡ false) × Absent x s

pub Absent-append : (x : ℕ) (s t : Text) → Absent x s → Absent x t → Absent x (s ++ t)
Absent-append x [] t h k = k
Absent-append x (c ∷ s) t (h, hs) k = (h, Absent-append x s t hs k)

pub Absent-left : (x : ℕ) (s t : Text) → Absent x (s ++ t) → Absent x s
Absent-left x [] t h = tt
Absent-left x (c ∷ s) t (h, hs) = (h, Absent-left x s t hs)

pub Absent-right : (x : ℕ) (s t : Text) → Absent x (s ++ t) → Absent x t
Absent-right x [] t h = h
Absent-right x (c ∷ s) t (h, hs) = Absent-right x s t hs

pub Absent-reverse : (x : ℕ) (s : Text) → Absent x s → Absent x (reverse s)
Absent-reverse x [] h = tt
Absent-reverse x (c ∷ s) (h, hs) =
    rw (reverse-cons c s) (Absent-append x (reverse s) (c ∷ []) (Absent-reverse x s hs) (h, tt))

-- Trimming stops at a code point that is no white space.
pub trim_start-append :
    (s : Text) (c : ℕ) (t : Text)
    → is_whitespace c ≡ false
    → trim_start (s ++ c ∷ t) ≡ trim_start s ++ c ∷ t
unfolding trim_start
trim_start-append [] c t h = rw h refl
trim_start-append (b ∷ s) c t h = elim (Bool-cases (is_whitespace b)) [
  | inl e ↦ rw e (trim_start-append s c t h)
  | inr e ↦ rw e refl
]

pub trim_end-append :
    (s : Text) (c : ℕ) (t : Text)
    → is_whitespace c ≡ false
    → trim_end (s ++ c ∷ t) ≡ s ++ c ∷ trim_end t
unfolding trim_end
trim_end-append s c t h =
    reverse (trim_start (reverse (s ++ c ∷ t)))
    ≡⟨ ap (λ (r : Text). reverse (trim_start r))
        (reverse-append s (c ∷ t)
          ∙ ap (λ (r : Text). r ++ reverse s) (reverse-cons c t)
          ∙ append_assoc (reverse t) (c ∷ []) (reverse s)) ⟩
      reverse (trim_start (reverse t ++ c ∷ reverse s))
    ≡⟨ ap reverse (trim_start-append (reverse t) c (reverse s) h) ⟩
      reverse (trim_start (reverse t) ++ c ∷ reverse s)
    ≡⟨ reverse-append (trim_start (reverse t)) (c ∷ reverse s) ⟩
      reverse (c ∷ reverse s) ++ reverse (trim_start (reverse t))
    ≡⟨ ap (λ (r : Text). r ++ reverse (trim_start (reverse t)))
        (reverse-cons c (reverse s) ∙ ap (λ (r : Text). r ++ c ∷ []) (reverse-reverse s))
      ∙ append_assoc s (c ∷ []) (reverse (trim_start (reverse t))) ⟩
      s ++ c ∷ reverse (trim_start (reverse t)) ∎

pub trim_start-Absent : (x : ℕ) (s : Text) → Absent x s → Absent x (trim_start s)
unfolding trim_start
trim_start-Absent x [] h = tt
trim_start-Absent x (c ∷ s) (h, hs) = elim (Bool-cases (is_whitespace c)) [
  | inl e ↦ rw e (trim_start-Absent x s hs)
  | inr e ↦ rw e (h, hs)
]

pub trim-Absent : (x : ℕ) (s : Text) → Absent x s → Absent x (trim s)
unfolding trim trim_end
trim-Absent x s h = Absent-reverse x (trim_start (reverse (trim_start s))) (
    trim_start-Absent x (reverse (trim_start s))
      (Absent-reverse x (trim_start s) (trim_start-Absent x s h)))

-- `strip_prefix` undoes a concatenation.
pub strip_prefix-append : (p s : Text) → strip_prefix p (p ++ s) ≡ some s
unfolding strip_prefix
strip_prefix-append [] s = refl
strip_prefix-append (c ∷ p) s = rw ((==_iff c c).1 refl) (strip_prefix-append p s)

pub strip_prefix_sound : (p s : Text) {r : Text} → strip_prefix p s ≡ some r → s ≡ p ++ r
unfolding strip_prefix
strip_prefix_sound [] s h = ground (arith, h)
strip_prefix_sound (c ∷ p) [] h = absurd (ground (arith, h))
strip_prefix_sound (c ∷ p) (d ∷ s) {r} h = elim (Bool-cases (c == d)) [
  | inl e ↦ ground (arith, (==_iff c d).0 e, strip_prefix_sound p s {r = r} (rw e at h))
  | inr e ↦ absurd (ground (arith, rw e at h))
]

-- A text that contains `p` is split, at a place where `p` stands.
pub split_at-append :
    (p a b : Text) → (x : Text) × (y : Text) × (split_at p (a ++ (p ++ b)) ≡ some (x, y))
unfolding split_at
split_at-append p [] b = first p b
  where
    first : (p b : Text) → (x : Text) × (y : Text) × (split_at p (p ++ b) ≡ some (x, y))
    first [] [] = ([], [], unfold strip_prefix in refl)
    first [] (c ∷ b) = ([], c ∷ b, unfold strip_prefix in refl)
    first (c ∷ p) b = ([], b, rw (strip_prefix-append (c ∷ p) b, split_at) refl)
split_at-append p (c ∷ a) b =
    let (x, y, e) = split_at-append p a b in
    elim (Option-cases (strip_prefix p (c ∷ (a ++ (p ++ b))))) [
      | inl n ↦ (c ∷ x, y, rw (n, e, split_at) refl)
      | inr (r, s) ↦ ([], r, rw (s, split_at) refl)
    ]

pub split_at_sound : (p s : Text) {x y : Text} → split_at p s ≡ some (x, y) → s ≡ x ++ (p ++ y)
unfolding split_at
split_at_sound p [] {x} {y} h = elim (Option-cases (strip_prefix p [])) [
  | inl e ↦ absurd (ground (arith, rw (e, split_at) at h))
  | inr (r, e) ↦ ground (arith, rw (e, split_at) at h, strip_prefix_sound p [] e)
]
split_at_sound p (c ∷ s) {x} {y} h = elim (Option-cases (strip_prefix p (c ∷ s))) [
  | inl e ↦ later (split_at p s) (λ u v q. split_at_sound p s q) (rw (e, split_at) at h)
  | inr (r, e) ↦ ground (arith, rw (e, split_at) at h, strip_prefix_sound p (c ∷ s) e)
]
  where
    later :
        (o : Option (Text × Text))
        → ((u v : Text) → o ≡ some (u, v) → s ≡ u ++ (p ++ v))
        → cons_left c o ≡ some (x, y)
        → c ∷ s ≡ x ++ (p ++ y)
    later none ih e = absurd (ground (arith, e))
    later (some (u, v)) ih e = ground (arith, e, ih u v refl)

pub split_at-Absent :
    (p s : Text) (z : ℕ) {x y : Text} → split_at p s ≡ some (x, y) → Absent z s → Absent z y
split_at-Absent p s z {x} {y} h k =
    Absent-right z p y (Absent-right z x (p ++ y) (subst (Absent z) (split_at_sound p s h) k))

-- `find` of a code point
pub split_char-Absent : (x : ℕ) (s : Text) → Absent x s → split_char x s ≡ none
unfolding split_char
split_char-Absent x [] h = refl
split_char-Absent x (c ∷ s) (h, hs) = rw (h, split_char-Absent x s hs) refl

pub split_char-append : (x : ℕ) (s t : Text) → Absent x s → split_char x (s ++ x ∷ t) ≡ some (s, t)
unfolding split_char
split_char-append x [] t h = rw ((==_iff x x).1 refl) refl
split_char-append x (c ∷ s) t (h, hs) = rw (h, split_char-append x s t hs) refl

rsplit_char-Absent : (x : ℕ) (s : Text) → Absent x s → rsplit_char x s ≡ none
unfolding rsplit_char
rsplit_char-Absent x [] h = refl
rsplit_char-Absent x (c ∷ s) (h, hs) = rw (rsplit_char-Absent x s hs, h) refl

pub rsplit_char-append :
    (x : ℕ) (s t : Text) → Absent x t → rsplit_char x (s ++ x ∷ t) ≡ some (s, t)
unfolding rsplit_char
rsplit_char-append x [] t h = rw (rsplit_char-Absent x t h, (==_iff x x).1 refl) refl
rsplit_char-append x (c ∷ s) t h = rw (rsplit_char-append x s t h) refl

-- What stands between two code points that are no white space is not trimmed.
pub trim-between :
    (a : Text) (c : ℕ) (m : Text) (d : ℕ) (b : Text)
    → is_whitespace c ≡ false
    → is_whitespace d ≡ false
    → trim (a ++ c ∷ (m ++ d ∷ b)) ≡ trim_start a ++ c ∷ (m ++ d ∷ trim_end b)
unfolding trim
trim-between a c m d b h k =
    ap trim_end
      (trim_start-append a c (m ++ d ∷ b) h ∙ sym (append_assoc (trim_start a) (c ∷ m) (d ∷ b)))
    ∙ trim_end-append (trim_start a ++ c ∷ m) d b k
    ∙ append_assoc (trim_start a) (c ∷ m) (d ∷ trim_end b)

pub trim-ends :
    (c : ℕ) (m : Text) (d : ℕ)
    → is_whitespace c ≡ false
    → is_whitespace d ≡ false
    → trim (c ∷ (m ++ d ∷ [])) ≡ c ∷ (m ++ d ∷ [])
unfolding trim_start trim_end
trim-ends c m d h k = trim-between [] c m d [] h k

-- A text with no white space in it
abbrev pub Solid : Text → Type 0
Solid [] = ⊤
Solid (c ∷ s) = (is_whitespace c ≡ false) × Solid s

Solid-append : (s t : Text) → Solid s → Solid t → Solid (s ++ t)
Solid-append [] t h k = k
Solid-append (c ∷ s) t (h, hs) k = (h, Solid-append s t hs k)

Solid-reverse : (s : Text) → Solid s → Solid (reverse s)
Solid-reverse [] h = tt
Solid-reverse (c ∷ s) (h, hs) =
    rw (reverse-cons c s) (Solid-append (reverse s) (c ∷ []) (Solid-reverse s hs) (h, tt))

trim_start-Solid : (s : Text) → Solid s → trim_start s ≡ s
unfolding trim_start
trim_start-Solid [] h = refl
trim_start-Solid (c ∷ s) (h, hs) = rw h refl

pub trim_end-Solid : (s : Text) → Solid s → trim_end s ≡ s
unfolding trim_end
trim_end-Solid s h =
    ap reverse (trim_start-Solid (reverse s) (Solid-reverse s h)) ∙ reverse-reverse s

pub trim-Solid : (s : Text) → Solid s → trim s ≡ s
unfolding trim
trim-Solid s h = ap trim_end (trim_start-Solid s h) ∙ trim_end-Solid s h

-- The lines of a text that begins with a line
end_line-Absent : (s : Text) → Absent 13 s → end_line s ≡ s
end_line-Absent [] h = refl
end_line-Absent (c ∷ s) (h, hs) = rw h refl

lines_from-append :
    (l : Text) (line s : Text)
    → Absent 10 l
    → Absent 13 l
    → Absent 13 line
    → lines_from line (l ++ 10 ∷ s) ≡ (reverse line ++ l) ∷ lines_from [] s
unfolding lines_from
lines_from-append [] line s h k m =
    ap (λ (t : Text). reverse t ∷ lines_from [] s) (end_line-Absent line m)
    ∙ ap (λ (t : Text). t ∷ lines_from [] s) (sym (append-nil (reverse line)))
lines_from-append (c ∷ l) line s (h, hs) (k, ks) m =
    rw h (lines_from-append l (c ∷ line) s hs ks (k, m))
    ∙ ap (λ (t : Text). t ∷ lines_from [] s)
        (ap (λ (t : Text). t ++ l) (reverse-cons c line) ∙ append_assoc (reverse line) (c ∷ []) l)

pub lines-append : (l s : Text) → Absent 10 l → Absent 13 l → lines (l ++ 10 ∷ s) ≡ l ∷ lines s
unfolding lines
lines-append l s h k = lines_from-append l [] s h k tt
