-- ===== src/Migrate/Heads.antt =====
-- Function heads as text, one per line, and which of them the search of src/migrate.rs is to find.
use mathlib.Core.List.{append_assoc}
use proc_mw.Common.{
  ℕ, ◌≡◌, refl, ap, ◌∙◌, ⊤, Bool, true, false, not, ◌&&◌, ◌||◌, Option, none, some, List, [], ◌∷◌,
  ◌++◌, ◌==◌, if◌then◌else◌,
}
use proc_mw.Strings.{Text, codes, cons_left, split_char}
use proc_mw.Strings.Laws.{Absent}
use proc_mw.Migrate.{is_some, is_public_name}

-- `fn name<generics>(params) -> output {`, without what there is none of
pub record Head : Type 0 where
  pub name : Text
  pub generics : Option Text
  pub params : List Text
  pub output : Option Text

abbrev pub commas : List Text → Text
commas [] = []
commas (p ∷ []) = p
commas (p ∷ q ∷ ps) = p ++ (codes ", " ++ commas (q ∷ ps))

abbrev pub arrow : Option Text → Text
arrow none = []
arrow (some ty) = codes " -> " ++ ty

abbrev pub angled : Option Text → Text
angled none = []
angled (some g) = b'<' ∷ (g ++ b'>' ∷ [])

abbrev pub head_line : Head → Text
head_line f =
    codes "fn "
    ++ ((f.name ++ angled f.generics)
        ++ b'(' ∷ (commas f.params ++ b')' ∷ (arrow f.output ++ codes " {")))

abbrev pub print_all : List Head → Text
print_all [] = []
print_all (f ∷ fs) = head_line f ++ b'\n' ∷ print_all fs

-- A text with none of these code points in it.
abbrev pub AllAbsent : List ℕ → Text → Type 0
AllAbsent [] s = ⊤
AllAbsent (x ∷ xs) s = Absent x s × AllAbsent xs s

abbrev pub AllPlain : List Text → Type 0
AllPlain [] = ⊤
AllPlain (p ∷ ps) = AllAbsent (10 ∷ 13 ∷ b'-' ∷ []) p × AllPlain ps

abbrev pub OutputPlain : Option Text → Type 0
OutputPlain none = ⊤
OutputPlain (some ty) = AllAbsent (10 ∷ 13 ∷ []) ty

abbrev pub GenericsPlain : Option Text → Type 0
GenericsPlain none = ⊤
GenericsPlain (some g) = AllAbsent (10 ∷ 13 ∷ b'-' ∷ b'(' ∷ []) g

-- The name has no character that ends one, and no hyphen; the generics have neither a parenthesis nor a hyphen,
-- and the parameters no hyphen, so that none of these has an arrow; and nothing has a line end in it.
pub record IsHead (f : Head) : Type 0 where
  pub name_plain : AllAbsent (10 ∷ 13 ∷ b'-' ∷ b'(' ∷ b' ' ∷ b'<' ∷ []) f.name
  pub generics_plain : GenericsPlain f.generics
  pub params_plain : AllPlain f.params
  pub output_plain : OutputPlain f.output

abbrev pub AllHeads : List Head → Type 0
AllHeads [] = ⊤
AllHeads (f ∷ fs) = IsHead f × AllHeads fs

abbrev pub has_comma : Text → Bool
has_comma [] = false
has_comma (c ∷ s) = (c == b',') || has_comma s

abbrev pub at_most_one : List Text → Bool
at_most_one [] = true
at_most_one (_ ∷ []) = true
at_most_one (_ ∷ _ ∷ _) = false

abbrev pub no_comma : List Text → Bool
no_comma [] = true
no_comma (p ∷ ps) = not (has_comma p) && no_comma ps

-- A return type with no comma in it
abbrev pub plain_output : Option Text → Bool
plain_output none = false
plain_output (some ty) = not (has_comma ty)

-- At most one parameter, no comma in it, a return type with no comma in it, and a name that does not begin by an
-- underscore
abbrev pub is_found : Head → Bool
is_found f =
    at_most_one f.params && no_comma f.params && plain_output f.output && is_public_name f.name

abbrev pub all_found : List Head → List Text
all_found [] = []
all_found (f ∷ fs) = if is_found f then f.name ∷ all_found fs else all_found fs

some_cons_left : (c : ℕ) (o : Option (Text × Text)) → is_some (cons_left c o) ≡ is_some o
some_cons_left c none = refl
some_cons_left c (some (a, b)) = refl

comma_step :
    (b : Bool) (c : ℕ) (s : Text)
    → is_some (split_char b',' s) ≡ has_comma s
    → is_some (if b then some ([], s) else cons_left c (split_char b',' s)) ≡ (b || has_comma s)
comma_step true c s e = refl
comma_step false c s e = some_cons_left c (split_char b',' s) ∙ e

-- The search for a comma, and the commas in a line
pub split_char-comma : (s : Text) → is_some (split_char b',' s) ≡ has_comma s
unfolding split_char
split_char-comma [] = refl
split_char-comma (c ∷ s) = comma_step (c == b',') c s (split_char-comma s)

or_assoc : (a b c : Bool) → a || (b || c) ≡ (a || b) || c
or_assoc true b c = refl
or_assoc false b c = refl

pub has_comma-append : (s t : Text) → has_comma (s ++ t) ≡ (has_comma s || has_comma t)
has_comma-append [] t = refl
has_comma-append (c ∷ s) t =
    ap (λ (b : Bool). (c == b',') || b) (has_comma-append s t)
    ∙ or_assoc (c == b',') (has_comma s) (has_comma t)

not_or : (a b : Bool) → not (a || b) ≡ ((not a && true) && not b)
not_or true b = refl
not_or false b = refl

not_or_true : (a : Bool) → not (a || true) ≡ false
not_or_true true = refl
not_or_true false = refl

pub has_comma-params :
    (ps : List Text) (rest : Text)
    → not (has_comma (commas ps ++ rest))
      ≡ ((at_most_one ps && no_comma ps) && not (has_comma rest))
has_comma-params [] rest = refl
has_comma-params (p ∷ []) rest =
    ap not (has_comma-append p rest) ∙ not_or (has_comma p) (has_comma rest)
has_comma-params (p ∷ q ∷ ps) rest =
    let more : Text = b',' ∷ b' ' ∷ commas (q ∷ ps) in
    ap (λ (t : Text). not (has_comma t)) (append_assoc p more rest)
    ∙ ap not (has_comma-append p (more ++ rest))
    ∙ not_or_true (has_comma p)

-- What stands behind the parameters
pub has_comma-end :
    (o : Option Text)
    → (is_some o && not (has_comma (b')' ∷ (arrow o ++ codes " {")))) ≡ plain_output o
has_comma-end none = refl
has_comma-end (some ty) = ap not (has_comma-append ty (codes " {") ∙ or_false (has_comma ty))
  where
    or_false : (b : Bool) → b || false ≡ b
    or_false true = refl
    or_false false = refl
