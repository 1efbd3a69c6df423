-- ===== src/Compile/Tests.antt =====
-- The theorems on src/compile.rs at concrete builds. The file system holds one file of the cache or none.
use mathlib.Core.List.{Perm}
use proc_mw.Common.{
  ℕ, ◌+◌, ◌≤◌, ◌≡◌, ◌≢◌, refl, Bool, true, false, none, some, List, [], ◌∷◌, arith, if◌then◌else◌,
}
use proc_mw.Effect.{ok}
use proc_mw.Hash.{fnv_from}
use proc_mw.Compile.{
  BuildPath, cached, Platform, Statics, fnv1a64, cache_key, toolchain_fingerprint, run_cargo,
  run_mode, finish_build, build_crate, build_plugin_with_deps, store_as, store, look_up,
  build_cached, build_plugin_cached, build_plugin_with_deps_cached,
}
use proc_mw.Compile.Keys.{cache_key_lem}
use proc_mw.Compile.Stats.{IsCounted, pipeline-IsCounted}
use proc_mw.Compile.Reuse.{IsFileSystem, hit, build_plugin_cached_again}
use proc_mw.Compile.Cleanup.{Entry, sort_by_age, sum_sizes, evict, cache_cleanup}
use proc_mw.Compile.Evicting.{IsByAge, IsEvicted, cache_cleanup_lem}

abbrev in_cache : BuildPath → Bool
in_cache (cached _ _) = true
in_cache _ = false

abbrev platform : Platform Bool
platform = record {
  create_dir_all = λ _ w. (true, w);
  write_file = λ _ _ w. (true, w);
  remove_dir_all = λ _ w. (true, w);
  exists = λ p w. if in_cache p then w else false;
  copy = λ _ _ w. (true, w);
  rename = λ _ q w. (in_cache q, if in_cache q then true else w);
  cargo_build = λ _ _ w. (some (true, []), w);
  rustc_version = λ w. (49 ∷ 46 ∷ [], w);
  chars = λ s. s;
  is_blank = λ deps. elim deps [ [] ↦ true | _ ∷ _ ↦ false ];
}

platform-IsFileSystem : IsFileSystem platform
platform-IsFileSystem = record { moves = λ p q w h. moved q w h; creates = λ d p w h. h }
  where
    moved :
        (q : BuildPath) (w : Bool)
        → in_cache q ≡ true
        → (if in_cache q then (if in_cache q then true else w) else false) ≡ true
    moved q w h = rw h refl

abbrev start : Statics
start = record {
  counter = 0;
  total_builds = 0;
  cache_hits = 0;
  toolchain_fp = none;
  lock_poisoned = false;
}

run : Unit {0}
unfolding fnv1a64 fnv_from cache_key toolchain_fingerprint run_cargo run_mode finish_build
    build_crate build_plugin_with_deps store_as store look_up build_cached build_plugin_cached
    build_plugin_with_deps_cached sort_by_age sum_sizes evict cache_cleanup
run = tt

abbrev version_hash : ℕ
version_hash = fnv1a64 (49 ∷ 46 ∷ [])

abbrev key_of_97 : ℕ
key_of_97 = cache_key (97 ∷ []) version_hash

abbrev after_first : Statics
after_first = record start { counter = 2; total_builds = 1; toolchain_fp = some version_hash }

-- A first request builds and stores, a second one takes the file.
first_build :
    build_plugin_cached platform "a" (97 ∷ []) start false
    ≡ (ok (cached "a" key_of_97), after_first, true)
unfolding run
first_build = refl

build_plugin_cached_again_example :
    build_plugin_cached platform "a" (97 ∷ []) after_first true
    ≡ (ok (cached "a" key_of_97), hit after_first, true)
build_plugin_cached_again_example =
    build_plugin_cached_again platform "a" (97 ∷ []) (cached "a" key_of_97) start after_first false
      true platform-IsFileSystem first_build refl

pipeline-IsCounted_example :
    let s₁ = (build_plugin_cached platform "a" (97 ∷ []) start false).1 in
    let s₂ = (build_plugin_with_deps_cached platform "a" (97 ∷ []) (98 ∷ []) start false).1 in
    (IsCounted s₁ × (s₁.total_builds ≤ 0 + 1)) × (IsCounted s₂ × (s₂.total_builds ≤ 0 + 1))
pipeline-IsCounted_example =
    pipeline-IsCounted platform "a" (97 ∷ []) (98 ∷ []) start false (omega arith) (omega arith)

cache_key_lem_example :
    (cache_key (102 ∷ 110 ∷ 49 ∷ []) 7 ≢ cache_key (102 ∷ 110 ∷ 50 ∷ []) 7)
    × (cache_key (102 ∷ 110 ∷ 49 ∷ []) 7 ≢ cache_key (102 ∷ 110 ∷ 49 ∷ []) 8)
cache_key_lem_example =
    cache_key_lem (102 ∷ 110 ∷ []) [] 49 50 7 8 (omega arith) (omega arith) tt (omega arith)
      (omega arith) (λ e. omega (arith, e)) (λ e. omega (arith, e))

abbrev entry : ℕ → ℕ → ℕ → Entry
entry k bytes time = record { path = cached "a" k; size = bytes; mtime = some time }

abbrev entries : List Entry
entries = entry 1 40 30 ∷ entry 2 50 10 ∷ entry 3 60 20 ∷ []

-- The state counts the files that have been removed.
abbrev remove_file : BuildPath → ℕ → Bool × ℕ
remove_file p w = (true, w + 1)

cleanups :
    (cache_cleanup true remove_file 100 (some entries) 0 ≡ (ok 1, 1))
    × (cache_cleanup true remove_file 5 (some entries) 0 ≡ (ok 2, 2))
    × (cache_cleanup true remove_file 150 (some entries) 0 ≡ (ok 0, 0))
    × (cache_cleanup true remove_file 5 none 0 ≡ (ok 0, 0))
unfolding run
cleanups = (refl, refl, refl, refl)

cache_cleanup_lem_example :
    Perm (sort_by_age entries) entries
    × IsByAge (sort_by_age entries)
    × IsEvicted true remove_file 100
        (sort_by_age entries)
        0
        0
        (cache_cleanup true remove_file 100 (some entries) 0)
cache_cleanup_lem_example =
    cache_cleanup_lem true remove_file 100 entries 0 (omega arith) (λ p v. refl)
