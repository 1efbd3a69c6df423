-- ===== src/Migrate/Handlers.antt =====
-- Which functions the search of src/migrate.rs finds in a source of one function head per line.
use mathlib.Core.List.{append_assoc}
use proc_mw.Common.{
  ℕ, ◌≡◌, refl, ap, sym, subst, ◌∙◌, Bool, true, false, not, ◌&&◌, Option-cases, inl, inr, Option,
  none, some, List, [], ◌∷◌, ◌++◌, ◌==◌, if◌then◌else◌, arith,
}
use proc_mw.Strings.{Text, codes, is_whitespace, trim, split_at, lines, lines_from}
use proc_mw.Strings.Laws.{
  Absent, Absent-append, Absent-right, trim-ends, split_char-append, lines-append, split_at-append,
  split_at_sound, strip_prefix-append,
}
use proc_mw.Migrate.{
  ends_name, name_of, single_param, is_public_name, is_some, candidate, keep_some, candidates_of,
  find_handler_candidates,
}
use proc_mw.Migrate.Heads.{
  Head, commas, arrow, angled, head_line, print_all, AllAbsent, AllPlain, OutputPlain,
  GenericsPlain, IsHead, AllHeads, has_comma, at_most_one, no_comma, is_found, all_found,
  split_char-comma, has_comma-params, has_comma-end,
}

name_of-append :
    (name : Text) (c : ℕ) (s : Text)
    → AllAbsent (b'(' ∷ b' ' ∷ b'<' ∷ []) name
    → ends_name c ≡ true
    → name_of (name ++ c ∷ s) ≡ name
unfolding name_of
name_of-append [] c s h e = rw e refl
name_of-append (d ∷ name) c s ((p, ps), ((q, qs), ((r, rs), _))) e =
    rw (p, q, r) (ap (λ (t : Text). d ∷ t) (name_of-append name c s (ps, (qs, (rs, tt))) e))

-- Without a hyphen there is no arrow.
no_arrow : (s : Text) → Absent b'-' s → is_some (split_at (codes "->") s) ≡ false
no_arrow s h = elim (Option-cases (split_at (codes "->") s)) [
  | inl e ↦ rw e refl
  | inr ((x, y), e) ↦
      (let (same, _) =
          Absent-right b'-' x (codes "->" ++ y)
            (subst (Absent b'-') (split_at_sound (codes "->") s e) h) in
        absurd (ground (arith, same)))
]

-- An arrow stays when text is put before it.
arrow_behind :
    (a s : Text)
    → is_some (split_at (codes "->") s) ≡ true
    → is_some (split_at (codes "->") (a ++ s)) ≡ true
arrow_behind a s h = elim (Option-cases (split_at (codes "->") s)) [
  | inl e ↦ absurd (ground (arith, rw e at h))
  | inr ((x, y), e) ↦
      (let moved : a ++ s ≡ (a ++ x) ++ (codes "->" ++ y) =
          ap (λ (t : Text). a ++ t) (split_at_sound (codes "->") s e)
          ∙ sym (append_assoc a x (codes "->" ++ y)) in
        let (u, v, q) = split_at-append (codes "->") (a ++ x) y in rw moved (rw q refl))
]

commas-Absent :
    (x : ℕ) (ps : List Text)
    → ((b',' == x) ≡ false)
    → ((b' ' == x) ≡ false)
    → ((p : Text) → AllAbsent (10 ∷ 13 ∷ b'-' ∷ []) p → Absent x p)
    → AllPlain ps
    → Absent x (commas ps)
commas-Absent x [] a b h k = tt
commas-Absent x (p ∷ []) a b h (k, ks) = h p k
commas-Absent x (p ∷ q ∷ ps) a b h (k, ks) =
    Absent-append x p (codes ", " ++ commas (q ∷ ps)) (h p k)
      (a, (b, commas-Absent x (q ∷ ps) a b h ks))

angled-Absent :
    (x : ℕ) (o : Option Text)
    → ((b'<' == x) ≡ false)
    → ((b'>' == x) ≡ false)
    → ((g : Text) → GenericsPlain (some g) → Absent x g)
    → GenericsPlain o
    → Absent x (angled o)
angled-Absent x none a b h k = tt
angled-Absent x (some g) a b h k = (a, Absent-append x g (b'>' ∷ []) (h g k) (b, tt))

abbrev named : Head → Text
named f = f.name ++ angled f.generics

module _ (f : Head) (h : IsHead f) where
  abbrev behind_params : Text
  behind_params = b')' ∷ (arrow f.output ++ codes " {")

  trim-head_line : trim (head_line f) ≡ head_line f
  trim-head_line =
      let last : Text = b'{' ∷ [] in
      let closed : Text = b')' ∷ (arrow f.output ++ codes " ") in
      let whole : (codes "n " ++ (named f ++ b'(' ∷ (commas f.params ++ closed))) ++ last
          ≡ codes "n " ++ (named f ++ b'(' ∷ (commas f.params ++ behind_params)) =
        ap (λ (t : Text). codes "n " ++ t)
          (append_assoc (named f) (b'(' ∷ (commas f.params ++ closed)) last
            ∙ ap (λ (t : Text). named f ++ b'(' ∷ t)
                (append_assoc (commas f.params) closed last
                  ∙ ap (λ (t : Text). commas f.params ++ b')' ∷ t)
                      (append_assoc (arrow f.output) (codes " ") last))) in
      ap (λ (t : Text). trim (b'f' ∷ t)) (sym whole)
      ∙ trim-ends b'f' (codes "n " ++ (named f ++ b'(' ∷ (commas f.params ++ closed))) b'{'
          (unfold is_whitespace in refl) (unfold is_whitespace in refl)
      ∙ ap (λ (t : Text). b'f' ∷ t) whole

  head_line-Absent :
      (x : ℕ)
      → Absent x (codes "fn (")
      → Absent x (named f)
      → Absent x (commas f.params)
      → Absent x behind_params
      → Absent x (head_line f)
  head_line-Absent x (a, (b, (c, (d, _)))) n ps r = (
    a,
    (
      b,
      (
        c,
        Absent-append x (named f) (b'(' ∷ (commas f.params ++ behind_params)) n
            (d, Absent-append x (commas f.params) behind_params ps r),
      ),
    ),
  )

-- What stands behind the parameters
end-Absent :
    (x : ℕ) (o : Option Text)
    → Absent x (codes ") -> {")
    → ((ty : Text) → OutputPlain (some ty) → Absent x ty)
    → OutputPlain o
    → Absent x (b')' ∷ (arrow o ++ codes " {"))
end-Absent x none (a, (b, (c, (d, (e, (f, _)))))) h k = (a, (b, (f, tt)))
end-Absent x (some ty) (a, (b, (c, (d, (e, (f, _)))))) h k =
    (a, (b, (c, (d, (e, Absent-append x ty (codes " {") (h ty k) (b, (f, tt)))))))

line-Absent : (f : Head) (h : IsHead f) → Absent 10 (head_line f) × Absent 13 (head_line f)
line-Absent f h = (
  head_line-Absent f h 10 (ground arith)
      (Absent-append 10 f.name (angled f.generics) h.name_plain.0
        (angled-Absent 10 f.generics refl refl (λ g k. k.0) h.generics_plain))
      (commas-Absent 10 f.params refl refl (λ p k. k.0) h.params_plain)
      (end-Absent 10 f.output (ground arith) (λ ty k. k.0) h.output_plain),
  head_line-Absent f h 13 (ground arith)
      (Absent-append 13 f.name (angled f.generics) h.name_plain.1.0
        (angled-Absent 13 f.generics refl refl (λ g k. k.1.0) h.generics_plain))
      (commas-Absent 13 f.params refl refl (λ p k. k.1.0) h.params_plain)
      (end-Absent 13 f.output (ground arith) (λ ty k. k.1.0) h.output_plain),
)

arrow-in_line :
    (name ps : Text) (o : Option Text)
    → Absent b'-' name
    → Absent b'-' ps
    → is_some (
        split_at
          (codes "->")
          (codes "fn " ++ (name ++ b'(' ∷ (ps ++ b')' ∷ (arrow o ++ codes " {")))))
      ≡ is_some o
arrow-in_line name ps none hn hp = no_arrow (codes "fn " ++ (name ++ b'(' ∷ (ps ++ codes ") {"))) (
  refl,
  (
    refl,
    (
      refl,
      Absent-append b'-' name (b'(' ∷ (ps ++ codes ") {")) hn
          (refl, Absent-append b'-' ps (codes ") {") hp (refl, (refl, (refl, tt)))),
    ),
  ),
)
arrow-in_line name ps (some ty) hn hp =
    let after : Text = b' ' ∷ (ty ++ codes " {") in
    let (x, y, e) = split_at-append (codes "->") [] after in
    let closed : Text = codes ") " ++ (codes "->" ++ after) in
    arrow_behind (codes "fn ") (name ++ b'(' ∷ (ps ++ closed)) (
      arrow_behind name (b'(' ∷ (ps ++ closed)) (
        arrow_behind (codes "(") (ps ++ closed)
          (arrow_behind ps closed (arrow_behind (codes ") ") (codes "->" ++ after) (rw e refl)))))

shuffle : (s a n b p : Bool) → (s && ((a && n) && b) && p) ≡ (a && n && (s && b) && p)
shuffle true true true b p = refl
shuffle true true false b p = refl
shuffle true false n b p = refl
shuffle false true true b p = refl
shuffle false true false b p = refl
shuffle false false n b p = refl

abbrev found : Head → Option Text
found f = if is_found f then some f.name else none

module _ (f : Head) (h : IsHead f) where
  line-single_param :
      single_param (head_line f)
      ≡ ((at_most_one f.params && no_comma f.params) && not (has_comma (behind_params f h)))
  unfolding single_param
  line-single_param =
      rw
        (
          split_char-append b'(' (codes "fn " ++ named f) (commas f.params ++ behind_params f h) (
            refl,
            (
              refl,
              (
                refl,
                Absent-append b'(' f.name (angled f.generics) h.name_plain.1.1.1.0
                    (angled-Absent b'(' f.generics refl refl (λ g k. k.1.1.1.0) h.generics_plain),
              ),
            ),
          ),
          single_param,
        )
        (ap not (split_char-comma (commas f.params ++ behind_params f h))
          ∙ has_comma-params f.params (behind_params f h))

  line-arrow : is_some (split_at (codes "->") (head_line f)) ≡ is_some f.output
  line-arrow =
      arrow-in_line (named f) (commas f.params) f.output
        (Absent-append b'-' f.name (angled f.generics) h.name_plain.1.1.0
          (angled-Absent b'-' f.generics refl refl (λ g k. k.1.1.0) h.generics_plain))
        (commas-Absent b'-' f.params refl refl (λ p k. k.1.1.0) h.params_plain)

  line-tests :
      (is_some (split_at (codes "->") (head_line f))
        && single_param (head_line f)
        && is_public_name f.name)
      ≡ is_found f
  line-tests =
      rw (line-arrow, line-single_param)
        (shuffle (is_some f.output) (at_most_one f.params) (no_comma f.params)
            (not (has_comma (behind_params f h))) (is_public_name f.name)
          ∙ ap
              (λ (b : Bool).
                at_most_one f.params && no_comma f.params && b && is_public_name f.name)
              (has_comma-end f.output))

-- The name ends where the generics or the parameters begin.
line-name :
    (f : Head) (h : IsHead f) (s : Text)
    → name_of ((f.name ++ angled f.generics) ++ b'(' ∷ s) ≡ f.name
line-name f h s = by_generics f.generics
  where
    by_generics : (o : Option Text) → name_of ((f.name ++ angled o) ++ b'(' ∷ s) ≡ f.name
    by_generics none =
        ap name_of (append_assoc f.name [] (b'(' ∷ s))
        ∙ name_of-append f.name b'(' s h.name_plain.1.1.1 refl
    by_generics (some g) =
        ap name_of (append_assoc f.name (angled (some g)) (b'(' ∷ s))
        ∙ name_of-append f.name b'<' ((g ++ b'>' ∷ []) ++ b'(' ∷ s) h.name_plain.1.1.1 refl

candidate-head_line : (f : Head) (h : IsHead f) → candidate (trim (head_line f)) ≡ found f
unfolding candidate
candidate-head_line f h =
    let behind : Text = commas f.params ++ behind_params f h in
    let rest : Text = named f ++ b'(' ∷ behind in
    ap candidate (trim-head_line f h)
    ∙ rw (strip_prefix-append (codes "fn ") rest, candidate)
        (rw (line-name f h behind)
          (ap (λ (b : Bool). if b then some f.name else none) (line-tests f h)))

keep-found :
    (b : Bool) (name : Text) (out : List Text)
    → keep_some (if b then some name else none) out ≡ (if b then name ∷ out else out)
keep-found true name out = refl
keep-found false name out = refl

-- Let a source be function heads, each on a line of its own, with no line end in their parts, where no name
-- has a hyphen, a space or a parenthesis or bracket that ends a name in it, generics have neither an opening
-- parenthesis nor a hyphen, and parameters have no hyphen. Then `find_handler_candidates` finds, in their
-- order, the names of exactly those that have a return type with no comma in it and at most one parameter,
-- with no comma in it, and whose name is not empty and does not begin by an underscore. In particular it
-- misses a handler that returns a `Result` of two types, and one whose parameter is a pair; and it finds one
-- without a parameter.
pub find_handler_candidates-print_all :
    (fs : List Head) → AllHeads fs → find_handler_candidates (print_all fs) ≡ all_found fs
unfolding find_handler_candidates candidates_of lines lines_from
find_handler_candidates-print_all [] h = refl
find_handler_candidates-print_all (f ∷ fs) (h, hs) =
    let (nl, cr) = line-Absent f h in
    ap candidates_of (lines-append (head_line f) (print_all fs) nl cr)
    ∙ ap (λ (o : Option Text). keep_some o (candidates_of (lines (print_all fs))))
        (candidate-head_line f h)
    ∙ ap (keep_some (found f)) (find_handler_candidates-print_all fs hs)
    ∙ keep-found (is_found f) f.name (all_found fs)
