-- ===== src/Compile.antt =====
-- src/compile.rs: plugins are built from source by cargo, and the results cached. The file system and
-- cargo are parameters; the statics of the module are the state of `Act`. A path is a number or a text
-- of the caller's and one of the forms below, which the formats of the source keep apart.
pub mod Keys
pub mod Unchanged
pub mod Reuse
pub mod Stats
pub mod Cleanup
pub mod Evicting
pub mod Target
pub mod Diagnostics
pub mod Poisoning
pub mod Rereading
mod Tests
mod DiagnosticsTests
use Prim.Native.Nat.{bit_xor}
use proc_mw.Common.{
  ℕ, ◌+◌, ◌*◌, ◌/◌, ◌%◌, ◌^◌, ⊤, Bool, true, false, not, Option, none, some, List, [], ◌∷◌, ◌++◌,
  String, length, if◌then◌else◌,
}
use proc_mw.Effect.{Ended, ok, err, panicked, Act, pure, fail, panic, ◌>>=◌, ◌>>◌}
use proc_mw.Hash.{offset_basis, fnv_from}
use proc_mw.Strings.{Text}
use proc_mw.Compile.Diagnostics.{Diag, extract_diagnostics, render_diags}

-- The directories `{out_dir}/{name}_{n}`, and the files `lib{name}_{n}.so` in the shared target and
-- `{name}_{hash:016x}.so` and `{name}_{hash:016x}.tmp.{n}` in the cache
pub data BuildPath : Type 0 where
  cache_dir : BuildPath
  crate_dir built : String → ℕ → BuildPath
  cached : String → ℕ → BuildPath
  temporary : String → ℕ → ℕ → BuildPath

-- `Cargo.toml` for a crate with dependencies or without, and a source
pub data Contents : Type 0 where
  manifest : String → ℕ → Option (List ℕ) → Contents
  source : List ℕ → Contents

pub data CompileError : Type 0 where
  mkdir_failed write_failed cargo_missing mkdir_cache_failed copy_failed rename_failed :
      CompileError
  failed : ℕ → Text → CompileError

-- What the code asks of the file system and of cargo: each file operation tells whether it succeeded.
-- `cargo_build offline dir` is nothing if cargo could not be started, and else whether it succeeded and
-- what it wrote to its standard error. `chars` is `from_utf8_lossy`: the code points of bytes.
-- `rustc_version` is the hash of what `rustc --version` prints.
pub record Platform (W : Type 0) : Type 0 where
  pub create_dir_all : BuildPath → W → Bool × W
  pub write_file : BuildPath → Contents → W → Bool × W
  pub remove_dir_all : BuildPath → W → Bool × W
  pub exists : BuildPath → W → Bool
  pub copy : BuildPath → BuildPath → W → Bool × W
  pub rename : BuildPath → BuildPath → W → Bool × W
  pub cargo_build : Bool → BuildPath → W → Option (Bool × List ℕ) × W
  pub rustc_version : W → List ℕ × W
  pub chars : List ℕ → Text
  pub is_blank : List ℕ → Bool

-- `COUNTER`, `TOTAL_BUILDS`, `CACHE_HITS`, `TOOLCHAIN_FP`, and whether `BUILD_LOCK` is poisoned
pub record Statics : Type 0 where
  pub counter : ℕ
  pub total_builds : ℕ
  pub cache_hits : ℕ
  pub toolchain_fp : Option ℕ
  pub lock_poisoned : Bool

-- What the cache is asked for: a source, or a source with dependencies.
abbrev pub separator : List ℕ
separator = 10 ∷ 45 ∷ 45 ∷ 45 ∷ 68 ∷ 69 ∷ 80 ∷ 83 ∷ 45 ∷ 45 ∷ 45 ∷ 10 ∷ []

unfoldable pub fnv1a64 : List ℕ → ℕ
fnv1a64 data' = fnv_from offset_basis data'

abbrev pub rotate_left_32 : ℕ → ℕ
rotate_left_32 x = x * 2 ^ 32 % 2 ^ 64 + x / 2 ^ 32

unfoldable pub cache_key : List ℕ → ℕ → ℕ
cache_key key fp = bit_xor (fnv1a64 key) (rotate_left_32 fp)

module _ {W : Type 0} (platform : Platform W) where
  abbrev pub Io : Type 0 → Type 0
  Io A = Act W Statics CompileError A

  -- A file operation with `?` behind it, and one whose result is dropped.
  abbrev pub try_io : (W → Bool × W) → CompileError → Io ⊤
  try_io op e s w = let (done, w') = op w in (if done then ok tt else err e, s, w')

  abbrev pub drop_io : (W → Bool × W) → Io ⊤
  drop_io op s w = (ok tt, s, (op w).1)

  -- `COUNTER.fetch_add(1)`, and the counts of the requests and of the hits
  abbrev pub next_number : Io ℕ
  next_number s w = (ok s.counter, record s { counter = (s.counter + 1) % 2 ^ 32 }, w)

  abbrev pub count_request : Io ⊤
  count_request s w = (ok tt, record s { total_builds = (s.total_builds + 1) % 2 ^ 64 }, w)

  abbrev pub count_hit : Io ⊤
  count_hit s w = (ok tt, record s { cache_hits = (s.cache_hits + 1) % 2 ^ 64 }, w)

  -- `toolchain_fingerprint`, which asks rustc once
  abbrev pub get_or_init : Option ℕ → Io ℕ
  get_or_init (some fp) s w = (ok fp, s, w)
  get_or_init none s w =
      let (version, w') = platform.rustc_version w in
      let fp = fnv1a64 version in (ok fp, record s { toolchain_fp = some fp }, w')

  unfoldable pub toolchain_fingerprint : Io ℕ
  toolchain_fingerprint s w = get_or_init s.toolchain_fp s w

  -- The closure `run`, for the crate in `dir`
  unfoldable pub run_cargo : BuildPath → Bool → Io (Bool × List ℕ)
  run_cargo dir offline s w =
      let (out, w') = platform.cargo_build offline dir w in
      elim out [
        | some o ↦ (ok o, s, w')
        | none ↦ (drop_io (platform.remove_dir_all dir) >> fail cargo_missing) s w'
      ]

  -- With dependencies: offline first, and online if that has failed
  abbrev pub or_online :
      BuildPath
      → Ended CompileError (Bool × List ℕ) × Statics × W
      → Ended CompileError (Bool × List ℕ) × Statics × W
  or_online dir (ok (true, out), s, w) = (ok (true, out), s, w)
  or_online dir (ok (false, out), s, w) = run_cargo dir false s w
  or_online dir (err e, s, w) = run_cargo dir false s w
  or_online dir (panicked, s, w) = (panicked, s, w)

  abbrev pub lock_builds : Io ⊤
  lock_builds s w = (if s.lock_poisoned then panicked else ok tt, s, w)

  -- A panic while the lock is held
  abbrev pub panic_locked : Io BuildPath
  panic_locked s w = (panicked, record s { lock_poisoned = true }, w)

  -- The error of a failed build, with the number of its diagnostics and their text
  unfoldable pub report : BuildPath → List ℕ → Option (List Diag) → Io BuildPath
  report dir middleware_source none = panic_locked
  report dir middleware_source (some diags) = do
    drop_io (platform.remove_dir_all dir)
    fail (failed (length diags) (render_diags diags (platform.chars middleware_source)))

  -- What follows the run, with the lock held
  unfoldable pub finish_build : String → List ℕ → ℕ → Bool × List ℕ → Io BuildPath
  unfolding report
  finish_build name middleware_source n (true, stderr) = do
    drop_io (platform.remove_dir_all (crate_dir name n))
    pure (built name n)
  finish_build name middleware_source n (false, stderr) =
      report (crate_dir name n) middleware_source (extract_diagnostics (platform.chars stderr))

  -- The crate's files; then the lock is taken.
  abbrev pub write_crate : String → ℕ → List ℕ → List ℕ → Io ⊤
  write_crate name n middleware_source deps = do
    let dir = crate_dir name n
    try_io (platform.create_dir_all dir) mkdir_failed
    try_io
        (platform.write_file dir
          (manifest name n (if platform.is_blank deps then none else some deps)))
        write_failed
    try_io (platform.write_file dir (source middleware_source)) write_failed
    lock_builds

  -- The run without dependencies, and with them
  unfoldable pub run_mode : Bool → BuildPath → Io (Bool × List ℕ)
  unfolding run_cargo
  run_mode true dir s w = run_cargo dir true s w
  run_mode false dir s w = or_online dir (run_cargo dir true s w)

  unfoldable pub build_crate : String → List ℕ → List ℕ → ℕ → Io BuildPath
  unfolding run_mode finish_build
  build_crate name middleware_source deps n = do
    write_crate name n middleware_source deps
    out ← run_mode (platform.is_blank deps) (crate_dir name n)
    finish_build name middleware_source n out

  unfoldable pub build_plugin_with_deps : String → List ℕ → List ℕ → Io BuildPath
  unfolding build_crate
  build_plugin_with_deps name middleware_source deps = do
    n ← next_number
    build_crate name middleware_source deps n

  abbrev pub build_plugin : String → List ℕ → Io BuildPath
  build_plugin name middleware_source = build_plugin_with_deps name middleware_source []

  -- What the two cached builds do, for the bytes that the cache's key is of, and the build.
  unfoldable pub store_as : String → ℕ → BuildPath → ℕ → Io BuildPath
  store_as name hash so n = do
    try_io (platform.copy so (temporary name hash n)) copy_failed
    try_io (platform.rename (temporary name hash n) (cached name hash)) rename_failed
    pure (cached name hash)

  unfoldable pub store : String → ℕ → BuildPath → Io BuildPath
  unfolding store_as
  store name hash so = do n ← next_number; store_as name hash so n

  unfoldable pub look_up : String → ℕ → Io BuildPath → Io BuildPath
  look_up name hash build s w =
      if platform.exists (cached name hash) w
      then (do count_hit; count_request; pure (cached name hash)) s w
      else (do count_request; so ← build; store name hash so) s w

  unfoldable pub build_cached : String → List ℕ → Io BuildPath → Io BuildPath
  unfolding toolchain_fingerprint store look_up
  build_cached name key build = do
    try_io (platform.create_dir_all cache_dir) mkdir_cache_failed
    fp ← toolchain_fingerprint
    look_up name (cache_key key fp) build

  unfoldable pub build_plugin_cached : String → List ℕ → Io BuildPath
  unfolding build_cached build_plugin_with_deps
  build_plugin_cached name middleware_source =
      build_cached name middleware_source (build_plugin name middleware_source)

  unfoldable pub build_plugin_with_deps_cached : String → List ℕ → List ℕ → Io BuildPath
  unfolding build_cached build_plugin_with_deps
  build_plugin_with_deps_cached name middleware_source deps =
      build_cached name (middleware_source ++ separator ++ deps)
        (build_plugin_with_deps name middleware_source deps)

-- `pipeline_stats`
abbrev pub pipeline_stats : Statics → ℕ × ℕ
pipeline_stats s = (s.total_builds, s.cache_hits)
