-- ===== src/Compile/Stats.antt =====
-- The counts of the requests and of the hits of the cache.
use proc_mw.Common.{
  ℕ, ◌+◌, ◌%◌, ◌^◌, ◌≤◌, ◌<◌, ◌≡◌, refl, ap, ⊤, Bool, true, false, Bool-cases, ◌⊎◌, inl, inr,
  Option, none, some, List, [], ◌++◌, String, if◌then◌else◌, arith,
}
use proc_mw.Effect.{ok, err, then_run, ◌>>=◌}
use proc_mw.Compile.{
  BuildPath, cache_dir, cached, CompileError, mkdir_cache_failed, Platform, Statics, separator,
  cache_key, Io, get_or_init, fnv1a64, toolchain_fingerprint, build_plugin, build_plugin_with_deps,
  build_plugin_cached, store, look_up, build_cached, build_plugin_with_deps_cached,
}
use proc_mw.Compile.Unchanged.{
  Keeps, Uncounted, Unlocked, bind-Keeps, build_plugin_with_deps-Keeps, store-Keeps,
}

abbrev pub IsCounted : Statics → Type 0
IsCounted s = s.cache_hits ≤ s.total_builds

module _ {W : Type 0} (platform : Platform W) where
  -- One request has been counted in `s'` since `s`, and at most one hit.
  abbrev HasCounted : Statics → Statics → Type 0
  HasCounted s s' =
      (s'.total_builds ≡ (s.total_builds + 1) % 2 ^ 64)
      × ((s'.cache_hits ≡ (s.cache_hits + 1) % 2 ^ 64) ⊎ (s'.cache_hits ≡ s.cache_hits))

  look_up_counts :
      (name : String) (hash : ℕ) (build : Io platform BuildPath) (s : Statics) (w : W)
      → Keeps platform (λ t. t.total_builds) build
      → Keeps platform (λ t. t.cache_hits) build
      → HasCounted s (look_up platform name hash build s w).1
  unfolding look_up
  look_up_counts name hash build s w h k =
      elim (Bool-cases (platform.exists (cached name hash) w)) [
        | inl e ↦ rw e (refl, inl refl)
        | inr e ↦
            (let s' : Statics = record s { total_builds = (s.total_builds + 1) % 2 ^ 64 } in
              rw e (
                bind-Keeps platform (λ t. t.total_builds) build (store platform name hash) h
                    (λ so. store-Keeps platform (λ t. t.total_builds) name hash so (λ _ _. refl)) s'
                    w,
                inr (
                    bind-Keeps platform (λ t. t.cache_hits) build (store platform name hash) k
                      (λ so. store-Keeps platform (λ t. t.cache_hits) name hash so (λ _ _. refl)) s'
                      w),
              ))
      ]

  -- What follows the creation of the cache's directory
  fingerprinted_counts :
      (o : Option ℕ) (name : String) (key : List ℕ) (build : Io platform BuildPath) (s : Statics)
      (w : W)
      → Keeps platform (λ t. t.total_builds) build
      → Keeps platform (λ t. t.cache_hits) build
      → HasCounted s
          ((get_or_init platform o >>= λ fp. look_up platform name (cache_key key fp) build) s w).1
  fingerprinted_counts (some fp) name key build s w h k =
      look_up_counts name (cache_key key fp) build s w h k
  fingerprinted_counts none name key build s w h k =
      let (version, w') = platform.rustc_version w in
      let fp = fnv1a64 version in
      look_up_counts name (cache_key key fp) build (record s { toolchain_fp = some fp }) w' h k

  build_cached_counts :
      (name : String) (key : List ℕ) (build : Io platform BuildPath) (s : Statics) (w : W)
      → Keeps platform (λ t. t.total_builds) build
      → Keeps platform (λ t. t.cache_hits) build
      → HasCounted s (build_cached platform name key build s w).1
        ⊎ ((build_cached platform name key build s w).1 ≡ s)
  unfolding build_cached toolchain_fingerprint
  build_cached_counts name key build s w h k = after (platform.create_dir_all cache_dir w)
    where
      rest : Io platform BuildPath
      rest = toolchain_fingerprint platform >>= λ fp. look_up platform name (cache_key key fp) build

      after :
          (x : Bool × W)
          → let y =
              then_run {E = CompileError} {A = ⊤} {B = BuildPath}
                (λ _. rest)
                (if x.0 then ok tt else err mkdir_cache_failed, s, x.1) in
            HasCounted s y.1 ⊎ (y.1 ≡ s)
      after (true, w') = inl (fingerprinted_counts s.toolchain_fp name key build s w' h k)
      after (false, w') = inr refl

  -- Let the hits be at most as many as the requests, fewer than 2 ^ 64 - 1. Then this still holds
  -- after a cached build, with dependencies or without, which counts at most one request; however
  -- it ends, by a path, an error or a panic.
  pub pipeline-IsCounted :
      (name : String) (middleware_source deps : List ℕ) (s : Statics) (w : W)
      → IsCounted s
      → s.total_builds + 1 < 2 ^ 64
      → let s₁ = (build_plugin_cached platform name middleware_source s w).1 in
        let s₂ = (build_plugin_with_deps_cached platform name middleware_source deps s w).1 in
        (IsCounted s₁ × (s₁.total_builds ≤ s.total_builds + 1))
        × (IsCounted s₂ × (s₂.total_builds ≤ s.total_builds + 1))
  unfolding build_plugin_cached build_plugin_with_deps_cached
  pipeline-IsCounted name middleware_source deps s w le lt = (
    counted (
        build_cached_counts name middleware_source (build_plugin platform name middleware_source) s
          w (keeps (λ t. t.total_builds) [] (λ _ _. refl) (λ _ _. refl))
          (keeps (λ t. t.cache_hits) [] (λ _ _. refl) (λ _ _. refl))),
    counted (
        build_cached_counts name (middleware_source ++ separator ++ deps)
          (build_plugin_with_deps platform name middleware_source deps) s w
          (keeps (λ t. t.total_builds) deps (λ _ _. refl) (λ _ _. refl))
          (keeps (λ t. t.cache_hits) deps (λ _ _. refl) (λ _ _. refl))),
  )
    where
      keeps :
          (view : Statics → ℕ) (ds : List ℕ)
          → Uncounted platform view
          → Unlocked platform view
          → Keeps platform view (build_plugin_with_deps platform name middleware_source ds)
      keeps view ds c l = build_plugin_with_deps-Keeps platform view name middleware_source ds c l

      counted :
          {s' : Statics}
          → HasCounted s s' ⊎ (s' ≡ s)
          → IsCounted s' × (s'.total_builds ≤ s.total_builds + 1)
      counted (inl (t, inl h)) = (omega arith, omega arith)
      counted (inl (t, inr h)) = (omega arith, omega arith)
      counted {s'} (inr e) =
          let t : s'.total_builds ≡ s.total_builds = ap (λ (x : Statics). x.total_builds) e in
          let h : s'.cache_hits ≡ s.cache_hits = ap (λ (x : Statics). x.cache_hits) e in
          (omega (arith, le), omega arith)
