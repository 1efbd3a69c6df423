-- ===== src/Compile/Unchanged.antt =====
-- What a build leaves of the statics of src/compile.rs as it is.
use proc_mw.Common.{
  ℕ, ◌≡◌, refl, ◌∙◌, ⊤, Bool, true, false, Option, none, some, List, String, if◌then◌else◌,
}
use proc_mw.Effect.{Ended, ok, err, panicked, pure, then_run, fail, ◌>>=◌, ◌>>◌}
use proc_mw.Compile.{
  BuildPath, crate_dir, cached, temporary, manifest, source, CompileError, mkdir_failed,
  write_failed, cargo_missing, copy_failed, rename_failed, Platform, Statics, Io, try_io, drop_io,
  next_number, run_cargo, or_online, lock_builds, finish_build, write_crate, run_mode, build_crate,
  store_as, build_plugin_with_deps, store, panic_locked, report,
}
use proc_mw.Compile.Diagnostics.{Diag, extract_diagnostics}

module _ {W X : Type 0} (platform : Platform W) (view : Statics → X) where
  -- The operation leaves what `view` shows of the statics as it is.
  abbrev pub Keeps : {A : Type 0} → Io platform A → Type 0
  Keeps m = (s : Statics) (w : W) → view (m s w).1 ≡ view s

  pub bind-Keeps :
      {A B : Type 0} (m : Io platform A) (f : A → Io platform B)
      → Keeps m
      → ((a : A) → Keeps (f a))
      → Keeps (m >>= f)
  bind-Keeps {A} {B} m f hm hf s w = after (m s w) (hm s w)
    where
      after :
          (x : Ended CompileError A × Statics × W)
          → view x.1 ≡ view s
          → view (then_run {E = CompileError} {A = A} {B = B} f x).1 ≡ view s
      after (ok a, s', w') e = hf a s' w' ∙ e
      after (err x, s', w') e = e
      after (panicked, s', w') e = e

  run_cargo-Keeps : (dir : BuildPath) (offline : Bool) → Keeps (run_cargo platform dir offline)
  unfolding run_cargo
  run_cargo-Keeps dir offline s w = after (platform.cargo_build offline dir w)
    where
      after :
          (x : Option (Bool × List ℕ) × W)
          → view
              (elim x.0 as (λ _. Ended CompileError (Bool × List ℕ) × Statics × W) [
                | some o ↦ (ok o, s, x.1)
                | none ↦
                    (drop_io platform (platform.remove_dir_all dir) >> fail cargo_missing) s x.1
              ]).1
            ≡ view s
      after (some o, w') = refl
      after (none, w') = refl

  or_online-Keeps :
      (dir : BuildPath) (s : Statics) (x : Ended CompileError (Bool × List ℕ) × Statics × W)
      → view x.1 ≡ view s
      → view (or_online platform dir x).1 ≡ view s
  or_online-Keeps dir s (ok (true, out), s', w) e = e
  or_online-Keeps dir s (ok (false, out), s', w) e = run_cargo-Keeps dir false s' w ∙ e
  or_online-Keeps dir s (err x, s', w) e = run_cargo-Keeps dir false s' w ∙ e
  or_online-Keeps dir s (panicked, s', w) e = e

  -- A view that does not show whether the lock is poisoned.
  abbrev pub Unlocked : Type 0
  Unlocked = Keeps (panic_locked platform)

  finish_build-Keeps :
      (name : String) (middleware_source : List ℕ) (n : ℕ) (out : Bool × List ℕ)
      → Unlocked
      → Keeps (finish_build platform name middleware_source n out)
  unfolding finish_build
  finish_build-Keeps name middleware_source n (true, out) h s w = refl
  finish_build-Keeps name middleware_source n (false, out) h s w =
      after (extract_diagnostics (platform.chars out))
    where
      after :
          (o : Option (List Diag))
          → view (report platform (crate_dir name n) middleware_source o s w).1 ≡ view s
      after none = h s w
      after (some diags) = refl

  run_mode-Keeps : (blank : Bool) (dir : BuildPath) → Keeps (run_mode platform blank dir)
  unfolding run_mode
  run_mode-Keeps true dir s w = run_cargo-Keeps dir true s w
  run_mode-Keeps false dir s w =
      or_online-Keeps dir s (run_cargo platform dir true s w) (run_cargo-Keeps dir true s w)

  try_then-Keeps :
      {A : Type 0} (op : W → Bool × W) (e : CompileError) (k : Io platform A)
      → Keeps k
      → Keeps (try_io platform op e >> k)
  try_then-Keeps op e k h = bind-Keeps (try_io platform op e) (λ _. k) (λ s w. refl) (λ _. h)

  write_crate-Keeps :
      (name : String) (n : ℕ) (middleware_source deps : List ℕ)
      → Keeps (write_crate platform name n middleware_source deps)
  write_crate-Keeps name n middleware_source deps =
      let dir = crate_dir name n in
      let toml = manifest name n (if platform.is_blank deps then none else some deps) in
      let lock : Io platform ⊤ = lock_builds platform in
      let write_source =
        try_io platform (platform.write_file dir (source middleware_source)) write_failed in
      let write_toml = try_io platform (platform.write_file dir toml) write_failed in
      try_then-Keeps (platform.create_dir_all dir) mkdir_failed
        (write_toml >> (write_source >> lock))
        (try_then-Keeps (platform.write_file dir toml) write_failed (write_source >> lock) (
          try_then-Keeps (platform.write_file dir (source middleware_source)) write_failed lock
            (λ s w. refl)))

  build_crate-Keeps :
      (name : String) (middleware_source deps : List ℕ) (n : ℕ)
      → Unlocked
      → Keeps (build_crate platform name middleware_source deps n)
  unfolding build_crate
  build_crate-Keeps name middleware_source deps n locked =
      let run = run_mode platform (platform.is_blank deps) (crate_dir name n) in
      let finish : Bool × List ℕ → Io platform BuildPath =
        finish_build platform name middleware_source n in
      bind-Keeps (write_crate platform name n middleware_source deps) (λ _. run >>= finish)
        (write_crate-Keeps name n middleware_source deps)
        (λ _.
          bind-Keeps run finish (run_mode-Keeps (platform.is_blank deps) (crate_dir name n))
            (λ out. finish_build-Keeps name middleware_source n out locked))

  -- A view that does not show the counter.
  abbrev pub Uncounted : Type 0
  Uncounted = Keeps (next_number platform)

  pub build_plugin_with_deps-Keeps :
      (name : String) (middleware_source deps : List ℕ)
      → Uncounted
      → Unlocked
      → Keeps (build_plugin_with_deps platform name middleware_source deps)
  unfolding build_plugin_with_deps
  build_plugin_with_deps-Keeps name middleware_source deps counted locked =
      bind-Keeps (next_number platform) (build_crate platform name middleware_source deps) counted
        (λ n. build_crate-Keeps name middleware_source deps n locked)

  store_as-Keeps :
      (name : String) (hash : ℕ) (so : BuildPath) (n : ℕ) → Keeps (store_as platform name hash so n)
  unfolding store_as
  store_as-Keeps name hash so n =
      let done : Io platform BuildPath = pure (cached name hash) in
      let move = platform.rename (temporary name hash n) (cached name hash) in
      try_then-Keeps (platform.copy so (temporary name hash n)) copy_failed
        (try_io platform move rename_failed >> done)
        (try_then-Keeps move rename_failed done (λ s w. refl))

  pub store-Keeps :
      (name : String) (hash : ℕ) (so : BuildPath) → Uncounted → Keeps (store platform name hash so)
  unfolding store
  store-Keeps name hash so counted =
      bind-Keeps (next_number platform) (store_as platform name hash so) counted
        (store_as-Keeps name hash so)
