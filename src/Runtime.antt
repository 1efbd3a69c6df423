-- ===== src/Runtime.antt =====
-- src/runtime.rs: plugins, the checks at their loading, and the layout fingerprints. The libraries
-- that a plugin is loaded from, and the loader of the operating system, are parameters.
pub mod Registry
pub mod Loading
pub mod Layout
mod Tests
use Prim.Native.Nat.{bit_or}
use Prim.Native.String.{◌++◌}
use proc_mw.Common.{
  ℕ, ◌*◌, ◌%◌, ◌^◌, ◌==◌, ⊤, Bool, true, false, Option, none, some, List, [], ◌∷◌, String,
  if◌then◌else◌,
}
use proc_mw.Int.{ℤ, pos, negsuc}
use proc_mw.Effect.{Ended, ok, err, panicked}
use proc_mw.Dispatch.{Node, extern}
use proc_mw.Opaque.{OpaqueNode, thin}
use proc_mw.Hash.{offset_basis, fnv_from}

-- The functions of a plugin for the typed chain, and for a type-erased chain over requests of type `R`.
abbrev pub EnterNumbers : Type 0 → Type 0
EnterNumbers W = ℤ → ℤ → W → ℤ × ℤ × ℤ × W

abbrev pub ExitNumber : Type 0 → Type 0
ExitNumber W = ℤ → W → ℤ × W

-- The second pointer of an enter hook is null, or points to other memory than the request, for a response; here
-- the bytes of it.
abbrev pub Memory : Type 0
Memory = Option (List ℕ)

abbrev pub EnterRequest : Type 0 → Type 0 → Type 0
EnterRequest W R = R → Memory → W → ℤ × R × Memory × W

abbrev pub ExitRequest : Type 0 → Type 0 → Type 0
ExitRequest W R = R → W → R × W

-- What `libloading::Library::get` finds under a name, for each type that the code asks for.
pub record Library (W R : Type 0) : Type 0 where
  pub handle : ℕ
  pub get_i32 : String → Option (W → ℤ × W)
  pub get_u64 : String → Option (W → ℕ × W)
  pub set_u64 : String → Option (ℕ → W → W)
  pub enter_numbers : String → Option (EnterNumbers W)
  pub exit_number : String → Option (ExitNumber W)
  pub enter_request : String → Option (EnterRequest W R)
  pub exit_request : String → Option (ExitRequest W R)

-- `libloading::Library::new`, and whether the target is macOS.
pub record Loader (W R : Type 0) : Type 0 where
  pub dlopen_lib : String → W → Option (Library W R) × W
  pub macos : Bool

pub data LoadError : Type 0 where
  dlopen : String → LoadError
  missing_version missing_enter missing_fingerprint : LoadError
  version_mismatch : ℤ → LoadError
  layout_mismatch : ℕ → LoadError

-- `PLUGIN_ABI_VERSION` is 1
abbrev pub is_abi_version : ℤ → Bool
is_abi_version (pos n) = n == 1
is_abi_version (negsuc n) = false

unfoldable pub get_sym : {F : Type 0} → Bool → (String → Option F) → String → Option F
get_sym macos get name = elim (get name) [
  | some f ↦ some f
  | none ↦ if macos then get ("_" ++ name) else none
]

-- `Plugin`, with functions of the types `F` and `G`, and `PluginOpaque`.
pub record Loaded (W R F G : Type 0) : Type 0 where
  pub lib : Library W R
  pub abi_version : ℤ
  pub enter : F
  pub exit : Option G

abbrev pub Plugin : Type 0 → Type 0 → Type 0
Plugin W R = Loaded W R (EnterNumbers W) (ExitNumber W)

abbrev pub PluginOpaque : Type 0 → Type 0 → Type 0
PluginOpaque W R = Loaded W R (EnterRequest W R) (ExitRequest W R)

module _ {W R : Type 0} (loader : Loader W R) where
  module _ {F G : Type 0} (enter_of : Library W R → String → Option F)
      (exit_of : Library W R → String → Option G) where
    -- The functions, when the version is right.
    abbrev pub take_symbols :
        Library W R → ℤ → Option F → Option G → Ended LoadError (Loaded W R F G)
    take_symbols lib ver none exit = err missing_enter
    take_symbols lib ver (some enter) exit =
        ok (record { lib = lib; abi_version = ver; enter = enter; exit = exit })

    -- What follows the call of the plugin's version function.
    unfoldable pub check_version : Library W R → ℤ × W → Ended LoadError (Loaded W R F G) × W
    check_version lib (ver, w) =
        if is_abi_version ver
        then (
          take_symbols lib ver (get_sym loader.macos (enter_of lib) "mw_enter")
              (get_sym loader.macos (exit_of lib) "mw_exit"),
          w,
        )
        else (err (version_mismatch ver), w)

    abbrev pub call_version :
        Library W R → Option (W → ℤ × W) → W → Ended LoadError (Loaded W R F G) × W
    call_version lib none w = (err missing_version, w)
    call_version lib (some ver_fn) w = check_version lib (ver_fn w)

    unfoldable pub load_opened :
        String → Option (Library W R) × W → Ended LoadError (Loaded W R F G) × W
    load_opened path (none, w) = (err (dlopen path), w)
    load_opened path (some lib, w) =
        call_version lib (get_sym loader.macos lib.get_i32 "proc_mw_abi_version") w

    unfoldable pub load_as : String → W → Ended LoadError (Loaded W R F G) × W
    unfolding load_opened
    load_as path w = load_opened path (loader.dlopen_lib path w)

  -- `Plugin::load` and `PluginOpaque::load`
  unfoldable pub load : String → W → Ended LoadError (Plugin W R) × W
  unfolding load_as
  load = load_as (λ lib. lib.enter_numbers) (λ lib. lib.exit_number)

  unfoldable pub load_opaque : String → W → Ended LoadError (PluginOpaque W R) × W
  unfolding load_as
  load_opaque = load_as (λ lib. lib.enter_request) (λ lib. lib.exit_request)

  abbrev pub compare_layout : ℕ → PluginOpaque W R → ℕ × W → Ended LoadError (PluginOpaque W R) × W
  compare_layout expected p (fp, w) = (if fp == expected then ok p else err (layout_mismatch fp), w)

  abbrev pub call_layout :
      ℕ → PluginOpaque W R → Option (W → ℕ × W) → W → Ended LoadError (PluginOpaque W R) × W
  call_layout expected p none w = (err missing_fingerprint, w)
  call_layout expected p (some fp_fn) w = compare_layout expected p (fp_fn w)

  abbrev pub check_layout :
      ℕ → Ended LoadError (PluginOpaque W R) × W → Ended LoadError (PluginOpaque W R) × W
  check_layout expected (ok p, w) =
      call_layout expected p (get_sym loader.macos p.lib.get_u64 "proc_mw_layout_fingerprint") w
  check_layout expected (err e, w) = (err e, w)
  check_layout expected (panicked, w) = (panicked, w)

  unfoldable pub load_with_layout : String → ℕ → W → Ended LoadError (PluginOpaque W R) × W
  unfolding load_opaque
  load_with_layout path expected w = check_layout expected (load_opaque path w)

  -- `get_extra_symbol_u64` and `set_extra_symbol_u64`
  unfoldable pub get_extra_symbol_u64 : PluginOpaque W R → String → W → Option ℕ × W
  get_extra_symbol_u64 p name w = elim (get_sym loader.macos p.lib.get_u64 name) [
    | none ↦ (none, w)
    | some f ↦ (let (n, w') = f w in (some n, w'))
  ]

  unfoldable pub set_extra_symbol_u64 : PluginOpaque W R → String → ℕ → W → Option ⊤ × W
  set_extra_symbol_u64 p name value w = elim (get_sym loader.macos p.lib.set_u64 name) [
    | none ↦ (none, w)
    | some f ↦ (some tt, f value w)
  ]

module _ {W R : Type 0} where
  abbrev pub to_node : Plugin W R → Node W
  to_node p = extern (record { enter = p.enter; exit = p.exit; keepalive = p.lib.handle })

  -- `PluginOpaque::call`
  unfoldable pub call : PluginOpaque W R → R → Memory → W → ℤ × R × Memory × W
  call p req resp w = p.enter req resp w

  abbrev pub without_response : ℤ × R × Memory × W → ℤ × R × W
  without_response (code, req, _, w) = (code, req, w)

  -- `PluginOpaque::to_node`: a chain enters the node with null as the second pointer.
  abbrev pub to_opaque_node : PluginOpaque W R → OpaqueNode W R
  to_opaque_node p = thin (record {
    enter = λ req w. without_response (p.enter req none w);
    exit = p.exit;
    keepalive = p.lib.handle;
  })

-- `layout_fingerprint::<T>()`, for a type of this size and alignment
unfoldable pub layout_fingerprint : ℕ → ℕ → ℕ
layout_fingerprint size align = bit_or (size * 2 ^ 32 % 2 ^ 64) align

-- A field's offset, size and alignment, field by field
abbrev pub words : List (ℕ × ℕ × ℕ) → List ℕ
words [] = []
words ((off, sz, al) ∷ fields) = off ∷ sz ∷ al ∷ words fields

unfoldable pub layout_fingerprint_of : List (ℕ × ℕ × ℕ) → ℕ
layout_fingerprint_of fields = fnv_from offset_basis (words fields)
