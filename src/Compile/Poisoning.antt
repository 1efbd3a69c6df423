-- ===== src/Compile/Poisoning.antt =====
-- A line of cargo's output that the reader of diagnostics in src/compile.rs panics on, and what the
-- panic does to the builds after it: it unwinds while the lock of the builds is held.
use proc_mw.Common.{
  ℕ, ◌+◌, ◌%◌, ◌^◌, ◌≡◌, refl, ap, subst, ◌∙◌, ⊤, Bool, true, false, none, some, List, [], ◌∷◌,
  ◌++◌, String, Option-cases, inl, inr, if◌then◌else◌, arith,
}
use proc_mw.Strings.{Text, codes, is_whitespace, trim, trim_start, trim_end, split_at, lines}
use proc_mw.Strings.Laws.{
  Absent, trim-between, trim-Absent, split_at-append, split_at-Absent, split_char-Absent,
}
use proc_mw.Effect.{Ended, ok, err, panicked, then_run, ◌>>=◌, ◌>>◌}
use proc_mw.Compile.{
  crate_dir, manifest, source, CompileError, mkdir_failed, write_failed, Platform, Statics, Io,
  try_io, run_mode, lock_builds, finish_build, write_crate, build_crate, build_plugin_with_deps,
}
use proc_mw.Compile.Diagnostics.{Diag, read_head, read_line, read_lines, extract_diagnostics}

abbrev marker : Text
marker = codes "error["

read_line-split :
    (out : List Diag) (t x y : Text)
    → split_at marker t ≡ some (x, y)
    → Absent b']' y
    → read_line out t ≡ none
unfolding read_line
read_line-split out t x y e h = rw (e, read_line) (rw (split_char-Absent b']' y h, read_head) refl)

-- A line with a marker and no closing bracket
read_line_panics :
    (out : List Diag) (a b : Text)
    → Absent b']' (a ++ (marker ++ b))
    → read_line out (trim (a ++ (marker ++ b))) ≡ none
read_line_panics out a b h =
    let trimmed : trim (a ++ (marker ++ b)) ≡ trim_start a ++ (marker ++ trim_end b) =
      trim-between a b'e' (codes "rror") b'[' b (unfold is_whitespace in refl)
        (unfold is_whitespace in refl) in
    let (x, y, e) = split_at-append marker (trim_start a) (trim_end b) in
    let absent : Absent b']' y =
      split_at-Absent marker (trim_start a ++ (marker ++ trim_end b)) b']' e
        (subst (Absent b']') trimmed (trim-Absent b']' (a ++ (marker ++ b)) h)) in
    ap (read_line out) trimmed
    ∙ read_line-split out (trim_start a ++ (marker ++ trim_end b)) x y e absent

read_lines_panics :
    (out : List Diag) (ls ms : List Text) (l : Text)
    → ((out' : List Diag) → read_line out' (trim l) ≡ none)
    → read_lines out (ls ++ l ∷ ms) ≡ none
unfolding read_lines
read_lines_panics out [] ms l h = rw (h out, read_lines) refl
read_lines_panics out (k ∷ ls) ms l h = elim (Option-cases (read_line out (trim k))) [
  | inl e ↦ rw (e, read_lines) refl
  | inr (out', e) ↦ rw (e, read_lines) (read_lines_panics out' ls ms l h)
]

-- Let a line of a text have `error[` in it, and no closing bracket. Then reading its diagnostics panics,
-- whatever the other lines are.
pub extract_diagnostics_panics :
    (stderr : Text) (ls ms : List Text) (a b : Text)
    → lines stderr ≡ ls ++ (a ++ (codes "error[" ++ b)) ∷ ms
    → Absent b']' (a ++ (codes "error[" ++ b))
    → extract_diagnostics stderr ≡ none
unfolding extract_diagnostics
extract_diagnostics_panics stderr ls ms a b e h =
    rw e (read_lines_panics [] ls ms (a ++ (marker ++ b)) (λ out. read_line_panics out a b h))

module _ {W : Type 0} (platform : Platform W) where
  -- A build whose crate has been written, and whose last run of cargo has failed with this output
  build_panics :
      (name : String) (middleware_source : List ℕ) (n : ℕ) (stderr : List ℕ) (s : Statics) (w : W)
      → extract_diagnostics (platform.chars stderr) ≡ none
      → finish_build platform name middleware_source n (false, stderr) s w
        ≡ (panicked, record s { lock_poisoned = true }, w)
  unfolding finish_build
  build_panics name middleware_source n stderr s w e = rw e refl

  -- A call that has no result, and that leaves the lock poisoned.
  abbrev pub IsBlocked : {A : Type 0} → Ended CompileError A × Statics × W → Type 0
  IsBlocked (ok _, s, w) = ⊥
  IsBlocked (err _, s, w) = s.lock_poisoned ≡ true
  IsBlocked (panicked, s, w) = s.lock_poisoned ≡ true

  bind-IsBlocked :
      {A B : Type 0} (x : Ended CompileError A × Statics × W) (f : A → Io platform B)
      → IsBlocked x
      → IsBlocked (then_run f x)
  bind-IsBlocked (ok _, s, w) f h = absurd h
  bind-IsBlocked (err _, s, w) f h = h
  bind-IsBlocked (panicked, s, w) f h = h

  try_then-IsBlocked :
      {A : Type 0} (op : W → Bool × W) (e : CompileError) (k : Io platform A) (s : Statics) (w : W)
      → s.lock_poisoned ≡ true
      → ((v : W) → IsBlocked (k s v))
      → IsBlocked ((try_io platform op e >> k) s w)
  try_then-IsBlocked {A} op e k s w h hk = after (op w)
    where
      after :
          (x : Bool × W)
          → IsBlocked (
              then_run {E = CompileError} {A = ⊤} {B = A}
                (λ _. k)
                (if x.0 then ok tt else err e, s, x.1))
      after (true, v) = hk v
      after (false, v) = h

  lock_builds-IsBlocked :
      (s : Statics) (w : W) → s.lock_poisoned ≡ true → IsBlocked (lock_builds platform s w)
  lock_builds-IsBlocked s w h = blocked s.lock_poisoned h
    where
      blocked : (b : Bool) → b ≡ true → IsBlocked {A = ⊤} (if b then panicked else ok tt, s, w)
      blocked true e = h
      blocked false e = absurd (ground (arith, e))

  -- A build that begins with the lock poisoned
  pub build_plugin_with_deps-IsBlocked :
      (name : String) (middleware_source deps : List ℕ) (s : Statics) (w : W)
      → s.lock_poisoned ≡ true
      → IsBlocked (build_plugin_with_deps platform name middleware_source deps s w)
  unfolding build_plugin_with_deps build_crate
  build_plugin_with_deps-IsBlocked name middleware_source deps s w h =
      let n = s.counter in
      let s' : Statics = record s { counter = (s.counter + 1) % 2 ^ 32 } in
      let dir = crate_dir name n in
      let toml = manifest name n (if platform.is_blank deps then none else some deps) in
      let lock : Io platform ⊤ = lock_builds platform in
      let write_source =
        try_io platform (platform.write_file dir (source middleware_source)) write_failed in
      let write_toml = try_io platform (platform.write_file dir toml) write_failed in
      bind-IsBlocked (write_crate platform name n middleware_source deps s' w)
        (λ _.
          run_mode platform (platform.is_blank deps) dir
          >>= finish_build platform name middleware_source n)
        (try_then-IsBlocked (platform.create_dir_all dir) mkdir_failed
          (write_toml >> (write_source >> lock)) s' w h
          (λ v.
            try_then-IsBlocked (platform.write_file dir toml) write_failed (write_source >> lock) s'
              v h
              (λ u.
                try_then-IsBlocked (platform.write_file dir (source middleware_source)) write_failed
                  lock s' u h (λ t. lock_builds-IsBlocked s' t h))))

  -- Let cargo fail on a crate that has been written, and let a line of what it prints have `error[` in it
  -- and no closing bracket. Then the build panics and poisons the lock of the builds; the next build,
  -- whatever its source is and whatever has become of the files, ends with no path and leaves the lock
  -- poisoned again.
  pub build_plugin_with_deps_poisons :
      (name name' : String) (middleware_source deps middleware_source' deps' stderr : List ℕ)
      (ls ms : List Text) (a b : Text) (s s₁ s₂ : Statics) (w w₁ w₂ v : W)
      → write_crate platform name s.counter middleware_source deps
          (record s { counter = (s.counter + 1) % 2 ^ 32 })
          w
        ≡ (ok tt, s₁, w₁)
      → run_mode platform (platform.is_blank deps) (crate_dir name s.counter) s₁ w₁
        ≡ (ok (false, stderr), s₂, w₂)
      → lines (platform.chars stderr) ≡ ls ++ (a ++ (codes "error[" ++ b)) ∷ ms
      → Absent b']' (a ++ (codes "error[" ++ b))
      → (build_plugin_with_deps platform name middleware_source deps s w
          ≡ (panicked, record s₂ { lock_poisoned = true }, w₂))
        × IsBlocked (
            build_plugin_with_deps platform name' middleware_source' deps'
              (record s₂ { lock_poisoned = true })
              v)
  build_plugin_with_deps_poisons name name' middleware_source deps middleware_source' deps' stderr
        ls ms a b s s₁ s₂ w w₁ w₂ v written run has_line absent =
      (
        (unfold build_plugin_with_deps build_crate in
            rw (written, run)
              (build_panics name middleware_source s.counter stderr s₂ w₂
                (extract_diagnostics_panics (platform.chars stderr) ls ms a b has_line absent))),
        build_plugin_with_deps-IsBlocked name' middleware_source' deps'
            (record s₂ { lock_poisoned = true }) v refl,
      )
