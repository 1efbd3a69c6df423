-- ===== src/Compile/Reuse.antt =====
-- A build that has been cached is not repeated.
use proc_mw.Common.{
  ℕ, ◌+◌, ◌%◌, ◌^◌, ◌≡◌, refl, ap, sym, ◌∙◌, subst, ⊤, Bool, true, false, Bool-cases, inl, inr,
  Option, none, some, List, [], String, if◌then◌else◌,
}
use proc_mw.Effect.{Ended, ok, err, panicked, pure, then_run, ◌>>=◌, ◌>>◌}
use proc_mw.Compile.{
  BuildPath, cache_dir, cached, temporary, CompileError, copy_failed, rename_failed,
  mkdir_cache_failed, Platform, Statics, cache_key, fnv1a64, Io, try_io, get_or_init,
  toolchain_fingerprint, build_plugin, store_as, store, look_up, build_cached, build_plugin_cached,
}
use proc_mw.Compile.Unchanged.{Keeps, bind-Keeps, build_plugin_with_deps-Keeps, store-Keeps}

-- A file that has been moved somewhere is there, and making a directory removes nothing.
pub record IsFileSystem {W : Type 0} (platform : Platform W) : Type 0 where
  pub moves :
      (p q : BuildPath) (w : W)
      → (platform.rename p q w).0 ≡ true
      → platform.exists q (platform.rename p q w).1 ≡ true
  pub creates :
      (d p : BuildPath) (w : W)
      → platform.exists p w ≡ true
      → platform.exists p (platform.create_dir_all d w).1 ≡ true

-- The statics after a hit.
abbrev pub hit : Statics → Statics
hit s = record s {
  cache_hits = (s.cache_hits + 1) % 2 ^ 64;
  total_builds = (s.total_builds + 1) % 2 ^ 64;
}

module _ {W : Type 0} (platform : Platform W) where
  -- If it ends with a value, `Q` holds of that and of the state.
  abbrev EndsWith :
      {A : Type 0} → (A → Statics → W → Type 0) → Ended CompileError A × Statics × W → Type 0
  EndsWith Q (ok a, s, w) = Q a s w
  EndsWith Q (err _, s, w) = ⊤
  EndsWith Q (panicked, s, w) = ⊤

  then_run-EndsWith :
      {A B : Type 0} (Q : B → Statics → W → Type 0) (f : A → Io platform B)
      (x : Ended CompileError A × Statics × W)
      → ((a : A) (s : Statics) (w : W) → EndsWith Q (f a s w))
      → EndsWith Q (then_run f x)
  then_run-EndsWith Q f (ok a, s, w) h = h a s w
  then_run-EndsWith Q f (err e, s, w) h = tt
  then_run-EndsWith Q f (panicked, s, w) h = tt

  abbrev IsStored : String → ℕ → BuildPath → Statics → W → Type 0
  IsStored name hash p s w = (p ≡ cached name hash) × (platform.exists p w ≡ true)

  module _ (fs : IsFileSystem platform) (name : String) where
    store_as_stores :
        (hash : ℕ) (so : BuildPath) (n : ℕ) (s : Statics) (w : W)
        → EndsWith (IsStored name hash) (store_as platform name hash so n s w)
    unfolding store_as
    store_as_stores hash so n s w = after_copy (platform.copy so tmp w)
      where
        tmp : BuildPath
        tmp = temporary name hash n

        move : W → Bool × W
        move = platform.rename tmp (cached name hash)

        rest : Io platform BuildPath
        rest = try_io platform move rename_failed >> pure (cached name hash)

        after_move :
            (w' : W) (b : Bool)
            → (move w').0 ≡ b
            → EndsWith (IsStored name hash) (
                then_run
                  (λ _. pure (cached name hash))
                  (if b then ok tt else err rename_failed, s, (move w').1))
        after_move w' true e = (refl, fs.moves tmp (cached name hash) w' e)
        after_move w' false e = tt

        after_copy :
            (x : Bool × W)
            → EndsWith
                (IsStored name hash)
                (then_run (λ _. rest) (if x.0 then ok tt else err copy_failed, s, x.1))
        after_copy (true, w') = after_move w' (move w').0 refl
        after_copy (false, w') = tt

    look_up_stores :
        (hash : ℕ) (build : Io platform BuildPath) (s : Statics) (w : W)
        → EndsWith (IsStored name hash) (look_up platform name hash build s w)
    unfolding look_up store
    look_up_stores hash build s w = elim (Bool-cases (platform.exists (cached name hash) w)) [
      | inl e ↦ rw e (refl, e)
      | inr e ↦
          (let s' : Statics = record s { total_builds = (s.total_builds + 1) % 2 ^ 64 } in
            rw e (
              then_run-EndsWith (IsStored name hash) (store platform name hash) (build s' w)
                (λ so t v.
                  store_as_stores hash so t.counter
                    (record t { counter = (t.counter + 1) % 2 ^ 32 }) v)))
    ]

  -- The toolchain's fingerprint, which a build leaves as it is.
  abbrev fingerprint : Statics → Option ℕ
  fingerprint s = s.toolchain_fp

  look_up-Keeps :
      (name : String) (hash : ℕ) (build : Io platform BuildPath) (s : Statics) (w : W)
      → Keeps platform fingerprint build
      → fingerprint (look_up platform name hash build s w).1 ≡ fingerprint s
  unfolding look_up
  look_up-Keeps name hash build s w h = elim (Bool-cases (platform.exists (cached name hash) w)) [
    | inl e ↦ rw e refl
    | inr e ↦
        (let s' : Statics = record s { total_builds = (s.total_builds + 1) % 2 ^ 64 } in
          rw e (
            bind-Keeps platform fingerprint build (store platform name hash) h
              (λ so. store-Keeps platform fingerprint name hash so (λ _ _. refl)) s' w))
  ]

  -- The result is in the cache, under the key that the toolchain's fingerprint gives.
  abbrev IsCached : String → List ℕ → BuildPath → Statics → W → Type 0
  IsCached name key p s w =
      (fp : ℕ) × (s.toolchain_fp ≡ some fp)
      × (p ≡ cached name (cache_key key fp))
      × (platform.exists (cached name (cache_key key fp)) w ≡ true)

  stored-IsCached :
      (name : String) (key : List ℕ) (fp : ℕ) (x : Ended CompileError BuildPath × Statics × W)
      → EndsWith (IsStored name (cache_key key fp)) x
      → x.1.toolchain_fp ≡ some fp
      → EndsWith (IsCached name key) x
  stored-IsCached name key fp (ok p, s, w) (same, there) e =
      (fp, e, same, subst (λ (q : BuildPath). platform.exists q w ≡ true) same there)
  stored-IsCached name key fp (err x, s, w) h e = tt
  stored-IsCached name key fp (panicked, s, w) h e = tt

  module _ (fs : IsFileSystem platform) (name : String) (key : List ℕ)
      (build : Io platform BuildPath) (keeps : Keeps platform fingerprint build) where
    abbrev after_fingerprint : ℕ → Io platform BuildPath
    after_fingerprint fp = look_up platform name (cache_key key fp) build

    looked_up :
        (fp : ℕ) (s : Statics) (w : W)
        → s.toolchain_fp ≡ some fp
        → EndsWith (IsCached name key) (after_fingerprint fp s w)
    looked_up fp s w e =
        stored-IsCached name key fp (after_fingerprint fp s w)
          (look_up_stores fs name (cache_key key fp) build s w)
          (look_up-Keeps name (cache_key key fp) build s w keeps ∙ e)

    fingerprinted :
        (o : Option ℕ) (s : Statics) (w : W)
        → s.toolchain_fp ≡ o
        → EndsWith (IsCached name key) ((get_or_init platform o >>= after_fingerprint) s w)
    fingerprinted (some fp) s w e = looked_up fp s w e
    fingerprinted none s w e =
        let (version, w') = platform.rustc_version w in
        let fp = fnv1a64 version in looked_up fp (record s { toolchain_fp = some fp }) w' refl

    build_cached_stores :
        (s : Statics) (w : W)
        → EndsWith (IsCached name key) (build_cached platform name key build s w)
    unfolding build_cached toolchain_fingerprint
    build_cached_stores s w = after (platform.create_dir_all cache_dir w)
      where
        rest : Io platform BuildPath
        rest = toolchain_fingerprint platform >>= after_fingerprint

        after :
            (x : Bool × W)
            → EndsWith
                (IsCached name key)
                (then_run (λ _. rest) (if x.0 then ok tt else err mkdir_cache_failed, s, x.1))
        after (true, w') = fingerprinted s.toolchain_fp s w' refl
        after (false, w') = tt

  look_up_hits :
      (name : String) (hash : ℕ) (build : Io platform BuildPath) (s : Statics) (w : W)
      → platform.exists (cached name hash) w ≡ true
      → look_up platform name hash build s w ≡ (ok (cached name hash), hit s, w)
  unfolding look_up
  look_up_hits name hash build s w e = rw e refl

  cached_hits :
      (fs : IsFileSystem platform) (name : String) (key : List ℕ) (build : Io platform BuildPath)
      (p : BuildPath) (s : Statics) (w : W)
      → IsCached name key p s w
      → (platform.create_dir_all cache_dir w).0 ≡ true
      → build_cached platform name key build s w
        ≡ (ok p, hit s, (platform.create_dir_all cache_dir w).1)
  unfolding build_cached toolchain_fingerprint
  cached_hits fs name key build p s w (fp, known, same, there) made =
      let w₁ = (platform.create_dir_all cache_dir w).1 in
      ap (λ (b : Bool). then_run (λ _. rest) (if b then ok tt else err mkdir_cache_failed, s, w₁))
        made
      ∙ ap (λ (o : Option ℕ). (get_or_init platform o >>= found) s w₁) known
      ∙ look_up_hits name (cache_key key fp) build s w₁
          (fs.creates cache_dir (cached name (cache_key key fp)) w there)
      ∙ ap (λ (q : BuildPath). (ok q, hit s, w₁)) (sym same)
    where
      found : ℕ → Io platform BuildPath
      found k = look_up platform name (cache_key key k) build

      rest : Io platform BuildPath
      rest = toolchain_fingerprint platform >>= found

  -- Let a file that has been moved be where it was moved to, and let making a directory remove
  -- nothing. Once `build_plugin_cached` has ended with a path, and if the cache's directory can be
  -- made sure of again, the same call ends with the same path: it counts one request and one hit,
  -- and nothing is built or written.
  pub build_plugin_cached_again :
      (name : String) (middleware_source : List ℕ) (p : BuildPath) (s s' : Statics) (w w' : W)
      → IsFileSystem platform
      → build_plugin_cached platform name middleware_source s w ≡ (ok p, s', w')
      → (platform.create_dir_all cache_dir w').0 ≡ true
      → build_plugin_cached platform name middleware_source s' w'
        ≡ (ok p, hit s', (platform.create_dir_all cache_dir w').1)
  unfolding build_plugin_cached
  build_plugin_cached_again name middleware_source p s s' w w' fs ended made =
      let build = build_plugin platform name middleware_source in
      let keeps : Keeps platform fingerprint build =
        build_plugin_with_deps-Keeps platform fingerprint name middleware_source [] (λ _ _. refl)
          (λ _ _. refl) in
      cached_hits fs name middleware_source build p s' w'
        (subst (EndsWith (IsCached name middleware_source)) ended
          (build_cached_stores fs name middleware_source build keeps s w))
        made
