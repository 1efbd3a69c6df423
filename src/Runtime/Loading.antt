-- ===== src/Runtime/Loading.antt =====
-- Which libraries are loaded.
use proc_mw.Common.{
  ℕ, ◌≡◌, refl, ap, sym, ◌∙◌, ◌↔◌, subst, Option, none, some, String, ◌==◌, ==_iff, true,
  Bool-cases, inl, inr, arith,
}
use proc_mw.Int.{ℤ, pos, negsuc}
use proc_mw.Effect.{Ended, ok, err, panicked}
use proc_mw.Runtime.{
  EnterRequest, ExitRequest, Library, Loader, LoadError, layout_mismatch, version_mismatch,
  is_abi_version, get_sym, PluginOpaque, take_symbols, check_version, call_version, load_opened,
  load_as, load_opaque, compare_layout, call_layout, check_layout, load_with_layout,
}

module _ {W R : Type 0} (loader : Loader W R) where
  -- The library at `path` is there, reports version 1, and exports a layout fingerprint and an enter
  -- function; `p` has the library and its functions. `w₁` is the state when the library has been
  -- opened, `w₂` when it has told its version, and `w₃` when it has told its fingerprint.
  pub record IsSound (path : String) (expected : ℕ) (w : W) (p : PluginOpaque W R) (w₃ : W)
      : Type 0 where
    pub w₁ : W
    pub w₂ : W
    pub ver_fn : W → ℤ × W
    pub fp_fn : W → ℕ × W
    pub opened : loader.dlopen_lib path w ≡ (some p.lib, w₁)
    pub has_version : get_sym loader.macos p.lib.get_i32 "proc_mw_abi_version" ≡ some ver_fn
    pub version : ver_fn w₁ ≡ (pos 1, w₂)
    pub has_enter : get_sym loader.macos p.lib.enter_request "mw_enter" ≡ some p.enter
    pub has_exit : get_sym loader.macos p.lib.exit_request "mw_exit" ≡ p.exit
    pub abi_version : p.abi_version ≡ pos 1
    pub has_fingerprint :
        get_sym loader.macos p.lib.get_u64 "proc_mw_layout_fingerprint" ≡ some fp_fn
    pub fingerprint : fp_fn w₂ ≡ (expected, w₃)

  abbrev Outcome : Type 0
  Outcome = Ended LoadError (PluginOpaque W R) × W

  abbrev fingerprint_of : PluginOpaque W R → Option (W → ℕ × W)
  fingerprint_of p = get_sym loader.macos p.lib.get_u64 "proc_mw_layout_fingerprint"

  -- `x` is a plugin, and its fingerprint is the expected one.
  abbrev IsPrinted : ℕ → Outcome → PluginOpaque W R → W → Type 0
  IsPrinted expected x p w₃ =
      (w₂ : W) × (fp_fn : W → ℕ × W) × (x ≡ (ok p, w₂))
      × (fingerprint_of p ≡ some fp_fn)
      × (fp_fn w₂ ≡ (expected, w₃))

  ok_parts :
      {E A : Type 0} {a b : A} {v v' : W}
      → ◌≡◌ {A = Ended E A × W} (ok a, v) (ok b, v')
      → (a ≡ b) × (v ≡ v')
  ok_parts h = (ground arith, ground arith)

  compared :
      (expected : ℕ) (q p : PluginOpaque W R) (w w₃ : W) (f : W → ℕ × W) (y : ℕ × W)
      → fingerprint_of q ≡ some f
      → f w ≡ y
      → compare_layout loader expected q y ≡ (ok p, w₃)
      → IsPrinted expected (ok q, w) p w₃
  compared expected q p w w₃ f (fp, w') g e k = elim (Bool-cases (fp == expected)) [
    | inl b ↦
        (let k' : ◌≡◌ {A = Outcome} (ok q, w') (ok p, w₃) = rw b at k in
          let (same, same_state) = ok_parts k' in
          (
            w,
            f,
            ap (λ (r : PluginOpaque W R). (ok r, w)) same,
            ap fingerprint_of (sym same) ∙ g,
            e ∙ (let here : fp ≡ expected = (==_iff fp expected).0 b in rw (here, same_state) refl),
          ))
    | inr b ↦
        (let k' : ◌≡◌ {A = Outcome} (err (layout_mismatch fp), w') (ok p, w₃) = rw b at k in
          absurd (ground arith))
  ]

  layout_sound :
      (expected : ℕ) (x : Outcome) (p : PluginOpaque W R) (w₃ : W)
      → check_layout loader expected x ≡ (ok p, w₃)
      → IsPrinted expected x p w₃
  layout_sound expected (err e, w) p w₃ h = absurd (ground arith)
  layout_sound expected (panicked, w) p w₃ h = absurd (ground arith)
  layout_sound expected (ok q, w) p w₃ h = after (fingerprint_of q) refl h
    where
      after :
          (o : Option (W → ℕ × W))
          → fingerprint_of q ≡ o
          → call_layout loader expected q o w ≡ (ok p, w₃)
          → IsPrinted expected (ok q, w) p w₃
      after none g k = absurd (ground arith)
      after (some f) g k = compared expected q p w w₃ f (f w) g refl k

  enter_of : Library W R → String → Option (EnterRequest W R)
  enter_of lib = lib.enter_request

  exit_of : Library W R → String → Option (ExitRequest W R)
  exit_of lib = lib.exit_request

  -- `p` has the functions that were found, the library and the version.
  abbrev IsTaken :
      Library W R
      → ℤ
      → Option (EnterRequest W R)
      → Option (ExitRequest W R)
      → PluginOpaque W R
      → Type 0
  IsTaken lib ver enter exit p =
      (lib ≡ p.lib) × (p.abi_version ≡ ver) × (enter ≡ some p.enter) × (exit ≡ p.exit)

  taken :
      (lib : Library W R) (ver : ℤ) (enter : Option (EnterRequest W R))
      (exit : Option (ExitRequest W R)) (p : PluginOpaque W R) (w w₂ : W)
      → ◌≡◌ {A = Outcome} (take_symbols loader enter_of exit_of lib ver enter exit, w) (ok p, w₂)
      → IsTaken lib ver enter exit p × (w ≡ w₂)
  taken lib ver none exit p w w₂ h = absurd (ground arith)
  taken lib ver (some f) exit p w w₂ h =
      let (same, same_state) = ok_parts h in
      (
        (
          ap (λ (r : PluginOpaque W R). r.lib) same,
          sym (ap (λ (r : PluginOpaque W R). r.abi_version) same),
          ap (λ (r : PluginOpaque W R). some r.enter) same,
          ap (λ (r : PluginOpaque W R). r.exit) same,
        ),
        same_state,
      )

  is_abi_version_lem : (ver : ℤ) → is_abi_version ver ≡ true → ver ≡ pos 1
  is_abi_version_lem (pos n) h = ap pos ((==_iff n 1).0 h)
  is_abi_version_lem (negsuc n) h = absurd (ground arith)

  -- The library `lib`, open in the state `w₁`, has version 1 and the functions of `p`.
  abbrev HasFunctions : Library W R → W → PluginOpaque W R → W → Type 0
  HasFunctions lib w₁ p w₂ =
      (ver_fn : W → ℤ × W) × (get_sym loader.macos lib.get_i32 "proc_mw_abi_version" ≡ some ver_fn)
      × (ver_fn w₁ ≡ (pos 1, w₂))
      × IsTaken lib (pos 1) (get_sym loader.macos (enter_of lib) "mw_enter")
          (get_sym loader.macos (exit_of lib) "mw_exit") p

  version_sound :
      (lib : Library W R) (ver : ℤ) (w w₂ : W) (p : PluginOpaque W R)
      → check_version loader enter_of exit_of lib (ver, w) ≡ (ok p, w₂)
      → (ver ≡ pos 1)
        × IsTaken lib
            (pos 1)
            (get_sym loader.macos (enter_of lib) "mw_enter")
            (get_sym loader.macos (exit_of lib) "mw_exit")
            p
        × (w ≡ w₂)
  unfolding check_version
  version_sound lib ver w w₂ p h =
      let enter = get_sym loader.macos (enter_of lib) "mw_enter" in
      let exit = get_sym loader.macos (exit_of lib) "mw_exit" in
      elim (Bool-cases (is_abi_version ver)) [
        | inl b ↦
            (let one = is_abi_version_lem ver b in
              let h' : ◌≡◌ {A = Outcome}
                  (take_symbols loader enter_of exit_of lib ver enter exit, w) (ok p, w₂) =
                rw b at h in
              let (t, same_state) = taken lib ver enter exit p w w₂ h' in
              (one, subst (λ (v : ℤ). IsTaken lib v enter exit p) one t, same_state))
        | inr b ↦
            (let h' : ◌≡◌ {A = Outcome} (err (version_mismatch ver), w) (ok p, w₂) = rw b at h in
              absurd (ground arith))
      ]

  functions_sound :
      (lib : Library W R) (w₁ w₂ : W) (p : PluginOpaque W R)
      → load_opened loader enter_of exit_of "" (some lib, w₁) ≡ (ok p, w₂)
      → HasFunctions lib w₁ p w₂
  unfolding load_opened
  functions_sound lib w₁ w₂ p h =
      after (get_sym loader.macos lib.get_i32 "proc_mw_abi_version") refl h
    where
      called :
          (ver_fn : W → ℤ × W) (y : ℤ × W)
          → get_sym loader.macos lib.get_i32 "proc_mw_abi_version" ≡ some ver_fn
          → ver_fn w₁ ≡ y
          → check_version loader enter_of exit_of lib y ≡ (ok p, w₂)
          → HasFunctions lib w₁ p w₂
      called ver_fn (ver, w) g e k =
          let (one, t, same_state) = version_sound lib ver w w₂ p k in
          (ver_fn, g, e ∙ rw (one, same_state) refl, t)

      after :
          (o : Option (W → ℤ × W))
          → get_sym loader.macos lib.get_i32 "proc_mw_abi_version" ≡ o
          → call_version loader enter_of exit_of lib o w₁ ≡ (ok p, w₂)
          → HasFunctions lib w₁ p w₂
      after none g k = absurd (ground arith)
      after (some ver_fn) g k = called ver_fn (ver_fn w₁) g refl k

  load_sound :
      (path : String) (w w₂ : W) (p : PluginOpaque W R)
      → load_opaque loader path w ≡ (ok p, w₂)
      → (w₁ : W) × (loader.dlopen_lib path w ≡ (some p.lib, w₁)) × HasFunctions p.lib w₁ p w₂
  unfolding load_opaque load_as load_opened enter_of exit_of
  load_sound path w w₂ p h = after (loader.dlopen_lib path w) refl h
    where
      after :
          (x : Option (Library W R) × W)
          → loader.dlopen_lib path w ≡ x
          → load_opened loader enter_of exit_of path x ≡ (ok p, w₂)
          → (w₁ : W) × (loader.dlopen_lib path w ≡ (some p.lib, w₁)) × HasFunctions p.lib w₁ p w₂
      after (none, w₁) e k = absurd (ground arith)
      after (some lib, w₁) e k =
          let f = functions_sound lib w₁ w₂ p k in
          let same : lib ≡ p.lib = f.3.0 in
          (
            w₁,
            e ∙ ap (λ (l : Library W R). (some l, w₁)) same,
            subst (λ (l : Library W R). HasFunctions l w₁ p w₂) same f,
          )

  loads :
      {path : String} {expected : ℕ} {w w₃ : W} {p : PluginOpaque W R}
      (s : IsSound path expected w p w₃)
      → load_opaque loader path w ≡ (ok p, s.w₂)
  unfolding load_opaque load_as load_opened check_version enter_of exit_of
  loads {path} {p = p} s =
      ap (load_opened loader enter_of exit_of path) s.opened
      ∙ ap (λ (o : Option (W → ℤ × W)). call_version loader enter_of exit_of p.lib o s.w₁)
          s.has_version
      ∙ ap (check_version loader enter_of exit_of p.lib) s.version
      ∙ ap
          (λ (o : Option (EnterRequest W R)). made (
            take_symbols loader enter_of exit_of p.lib (pos 1) o
              (get_sym loader.macos (exit_of p.lib) "mw_exit")))
          s.has_enter
      ∙ ap
          (λ (o : Option (ExitRequest W R)).
            made (take_symbols loader enter_of exit_of p.lib (pos 1) (some p.enter) o))
          s.has_exit
      ∙ ap (λ (v : ℤ). made (take_symbols loader enter_of exit_of p.lib v (some p.enter) p.exit))
          (sym s.abi_version)
    where
      made : Ended LoadError (PluginOpaque W R) → Outcome
      made x = (x, s.w₂)

  -- `load_with_layout` succeeds with a plugin exactly if the library at the path can be opened,
  -- reports version 1, and exports an enter function and, when asked after that, the expected
  -- fingerprint; the plugin then has the library and the functions that it exports under the names
  -- of the contract.
  pub load_with_layout-eq-ok_iff :
      (path : String) (expected : ℕ) (w : W) (p : PluginOpaque W R) (w₃ : W)
      → (load_with_layout loader path expected w ≡ (ok p, w₃)) ↔ IsSound path expected w p w₃
  unfolding load_with_layout enter_of exit_of
  load_with_layout-eq-ok_iff path expected w p w₃ = (to, from)
    where
      to : load_with_layout loader path expected w ≡ (ok p, w₃) → IsSound path expected w p w₃
      to h =
          let (w₂, fp_fn, loaded, has_fp, fp) =
            layout_sound expected (load_opaque loader path w) p w₃ h in
          let (w₁, found, (ver_fn, has_ver, ver, (same, one, enter, exit))) =
            load_sound path w w₂ p loaded in
          record {
            w₁ = w₁;
            w₂ = w₂;
            ver_fn = ver_fn;
            fp_fn = fp_fn;
            opened = found;
            has_version = has_ver;
            version = ver;
            has_enter = enter;
            has_exit = exit;
            abi_version = one;
            has_fingerprint = has_fp;
            fingerprint = fp;
          }

      from : IsSound path expected w p w₃ → load_with_layout loader path expected w ≡ (ok p, w₃)
      from s =
          ap (check_layout loader expected) (loads s)
          ∙ ap (λ (o : Option (W → ℕ × W)). call_layout loader expected p o s.w₂) s.has_fingerprint
          ∙ ap (compare_layout loader expected p) s.fingerprint
          ∙ (let b : (expected == expected) ≡ true = (==_iff expected expected).1 refl in rw b refl)
