-- ===== src/Runtime/Tests.antt =====
-- The theorems on src/runtime.rs at a concrete loader and registry. The shared state counts the calls
-- of foreign functions; the target is macOS, where the exported names begin with an underscore.
use text.Mathlib.Text
use text.Mathlib.TextEquality.{eq_iff}
use proc_mw.Hash.{fnv_from}
use proc_mw.Common.{
  ℕ, ◌+◌, ◌≡◌, ◌≢◌, ◌↔◌, refl, true, false, Option, none, some, List, [], ◌∷◌, String,
  if◌then◌else◌, arith,
}
use proc_mw.Int.{pos}
use proc_mw.Effect.{ok, err}
use proc_mw.Cell.{Cell, whole}
use proc_mw.Runtime.{
  EnterRequest, Library, Loader, layout_mismatch, get_sym, PluginOpaque, check_version, load_opened,
  load_as, load_opaque, load_with_layout, get_extra_symbol_u64, call, to_opaque_node,
  layout_fingerprint, layout_fingerprint_of,
}
use proc_mw.Runtime.Registry.{
  Registry, new_registry, insert, get, register, get_node, len, register_lem,
}
use proc_mw.Runtime.Layout.{IsOneOff, load_with_layout_refuses}
use proc_mw.Runtime.Loading.{IsSound, load_with_layout-eq-ok_iff}

-- { a: u64, b: u8 } and { b: u8, a: u64 }, and the first with another alignment of `b`.
abbrev first_layout : List (ℕ × ℕ × ℕ)
first_layout = (0, 8, 8) ∷ (8, 1, 1) ∷ []

abbrev second_layout : List (ℕ × ℕ × ℕ)
second_layout = (0, 1, 1) ∷ (8, 8, 8) ∷ []

abbrev third_layout : List (ℕ × ℕ × ℕ)
third_layout = (0, 8, 8) ∷ (8, 1, 2) ∷ []

abbrev enter_fn : EnterRequest ℕ ℕ
enter_fn r resp w = (pos 0, r + 1, resp, w + 1)

abbrev exported : {F : Type 0} → String → F → String → Option F
exported name f asked = if Text.◌==◌ asked name then some f else none

abbrev library : Library ℕ ℕ
library = record {
  handle = 7;
  get_i32 = exported "_proc_mw_abi_version" (λ w. (pos 1, w + 1));
  get_u64 = exported "_proc_mw_layout_fingerprint" (λ w. (0xb07, w + 1));
  set_u64 = λ _. none;
  enter_numbers = λ _. none;
  exit_number = λ _. none;
  enter_request = exported "_mw_enter" enter_fn;
  exit_request = λ _. none;
}

abbrev loader : Loader ℕ ℕ
loader = record { dlopen_lib = λ path w. (some library, w); macos = true }

abbrev plugin : PluginOpaque ℕ ℕ
plugin = record { lib = library; abi_version = pos 1; enter = enter_fn; exit = none }

run : Unit {0}
unfolding get_sym check_version load_opened load_as load_opaque load_with_layout
    layout_fingerprint_of layout_fingerprint get_extra_symbol_u64 insert get register get_node len
    fnv_from
run = tt

results :
    (load_with_layout loader "p.so" 0xb07 0 ≡ (ok plugin, 2))
    × (load_with_layout loader "p.so" 0xb08 0 ≡ (err (layout_mismatch 0xb07), 2))
    × (get_extra_symbol_u64 loader plugin "proc_mw_layout_fingerprint" 5 ≡ (some 0xb07, 6))
    × (layout_fingerprint 16 8 ≡ 0x1000000008)
unfolding run
results = (refl, refl, refl, refl)

-- All of these have size 16 and alignment 8.
fingerprints : layout_fingerprint_of first_layout ≢ layout_fingerprint_of second_layout
unfolding run
fingerprints e = ground arith

load_with_layout-eq-ok_iff_example :
    (load_with_layout loader "p.so" 0xb07 0 ≡ (ok plugin, 2))
    ↔ IsSound loader "p.so" 0xb07 0 plugin 2
load_with_layout-eq-ok_iff_example = load_with_layout-eq-ok_iff loader "p.so" 0xb07 0 plugin 2

one_off : IsOneOff first_layout third_layout
one_off = record {
  pre = 0 ∷ 8 ∷ 8 ∷ 8 ∷ 1 ∷ [];
  post = [];
  here = 1;
  there = 2;
  fields_are = refl;
  changed_are = refl;
  here-lt = omega arith;
  there-lt = omega arith;
  post-AllWords = tt;
  differs = λ e. omega (arith, e);
}

abbrev first_library : Library ℕ ℕ
first_library = record library {
  get_u64 =
      exported "_proc_mw_layout_fingerprint" (λ w. (layout_fingerprint_of first_layout, w + 1));
}

abbrev first_loader : Loader ℕ ℕ
first_loader = record { dlopen_lib = λ path w. (some first_library, w); macos = true }

abbrev first_plugin : PluginOpaque ℕ ℕ
first_plugin = record plugin { lib = first_library }

load_with_layout_refuses_example :
    load_with_layout first_loader "p.so" (layout_fingerprint_of third_layout) 0
    ≡ (err (layout_mismatch (layout_fingerprint_of first_layout)), 2)
unfolding run
load_with_layout_refuses_example =
    load_with_layout_refuses first_loader "p.so" 0 1 2 first_plugin
      (λ w. (layout_fingerprint_of first_layout, w + 1)) third_layout first_layout refl refl refl
      one_off

abbrev registry : Cell (Registry ℕ ℕ) (Registry ℕ ℕ)
registry = whole

apart : ◌≢◌ {A = String} "b" "a"
apart e = (let h : false ≡ true = (eq_iff "b" "a").1 e in ground arith)

register_lem_example :
    (w' : Registry ℕ ℕ) × (register registry {S = ℕ} "a" plugin 5 new_registry ≡ (ok tt, 5, w'))
    × (get_node registry.get {S = ℕ} "a" 5 w' ≡ (ok (some (to_opaque_node plugin)), 5, w'))
    × ((get_node registry.get {S = ℕ} "b" 5 w').0
        ≡ (get_node registry.get {S = ℕ} "b" 5 new_registry).0)
    × (len registry.get {S = ℕ} 5 w' ≡ (ok 1, 5, w'))
unfolding run
register_lem_example = register_lem registry "a" "b" plugin 5 new_registry refl apart

-- A call with memory for a response, which this plugin leaves as it was
call_run : call plugin 3 (some (7 ∷ [])) 0 ≡ (pos 0, 4, some (7 ∷ []), 1)
unfolding call
call_run = refl
