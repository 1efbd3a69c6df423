-- ===== src/Compile/DiagnosticsTests.antt =====
-- Runs of the reader and of the writer of diagnostics of src/compile.rs, and their theorems at these inputs.
use proc_mw.Common.{◌≡◌, refl, ⊤, true, false, none, some, [], ◌∷◌, map, arith}
use proc_mw.Effect.{panicked}
use proc_mw.Strings.{
  codes, is_whitespace, trim_start, trim_end, trim, strip_prefix, split_at, split_char, rsplit_char,
  lines_from, lines, digits_from, parse_digits, parse_u32, digits_before, print_u32,
}
use proc_mw.Compile.{Platform, Statics, run_cargo, run_mode, build_plugin_with_deps}
use proc_mw.Compile.Diagnostics.{
  Diag, trim_colons, read_head, read_position, locate, read_line, read_lines, extract_diagnostics,
  render_from, render_diags, inject_shared_type, toolchain_report,
}
use proc_mw.Compile.Poisoning.{IsBlocked, build_plugin_with_deps_poisons}
use proc_mw.Compile.Rereading.{Printed, IsPlain, print_all, extract_diagnostics-print_all}

run : Unit {0}
unfolding is_whitespace trim_start trim_end trim strip_prefix split_at split_char rsplit_char
    lines_from lines digits_from parse_digits parse_u32 digits_before print_u32 trim_colons
    read_head read_position locate read_line read_lines extract_diagnostics render_from render_diags
    inject_shared_type toolchain_report
run = tt

abbrev mismatch : Diag
mismatch = record { code = codes "E0308"; message = codes "mismatched types"; line = some 2 }

abbrev printed : Printed
printed = record {
  code = codes "E0308";
  message = codes "mismatched types";
  file = codes "src/lib.rs";
  line = 2;
  column = 9;
}

printed-IsPlain : IsPlain printed
unfolding run
printed-IsPlain = record {
  code_lines = ground arith;
  message_lines = ground arith;
  file_lines = ground arith;
  code_brackets = ground arith;
  file_brackets = ground arith;
  message_starts = refl;
  message_ends = (codes "mismatched type", b's', refl, refl);
  line_bound = omega arith;
}

extract_diagnostics-print_all_example :
    extract_diagnostics (print_all (printed ∷ []))
    ≡ some (
        map (λ p. record { code = p.code; message = p.message; line = some p.line }) (printed ∷ []))
extract_diagnostics-print_all_example =
    extract_diagnostics-print_all (printed ∷ []) (printed-IsPlain, tt)

extracted :
    extract_diagnostics (
      codes "   Compiling p\r\nerror[E0308]: mismatched types\n  --> src/lib.rs:2:9\n  --> a:7:1\n")
    ≡ some (mismatch ∷ [])
unfolding run
extracted = refl

rendered :
    render_diags (mismatch ∷ []) (codes "fn f() {\n    1 + \"\"\n}")
    ≡ codes "  error[E0308] mismatched types\n      2 │     1 + \"\"\n"
unfolding run
rendered = refl

-- A message of one's own with an index that is not closed
unclosed : extract_diagnostics (codes "error: cannot find error[0 in this scope\n") ≡ none
unfolding run
unclosed = refl

abbrev platform : Platform ⊤
platform = record {
  create_dir_all = λ _ w. (true, w);
  write_file = λ _ _ w. (true, w);
  remove_dir_all = λ _ w. (true, w);
  exists = λ _ _. false;
  copy = λ _ _ w. (true, w);
  rename = λ _ _ w. (true, w);
  cargo_build = λ _ _ w. (some (false, codes "error[0"), w);
  rustc_version = λ w. ([], w);
  chars = λ s. s;
  is_blank = λ _. true;
}

abbrev start : Statics
start = record {
  counter = 0;
  total_builds = 0;
  cache_hits = 0;
  toolchain_fp = none;
  lock_poisoned = false;
}

build_plugin_with_deps_poisons_example :
    (build_plugin_with_deps platform "p" (codes "fn") [] start tt
      ≡ (panicked, record start { counter = 1; lock_poisoned = true }, tt))
    × IsBlocked platform (
        build_plugin_with_deps platform "q"
          (codes "fn f() {}")
          []
          (record start { counter = 1; lock_poisoned = true })
          tt)
build_plugin_with_deps_poisons_example =
    build_plugin_with_deps_poisons platform "p" "q" (codes "fn") [] (codes "fn f() {}") []
      (codes "error[0") [] [] [] (codes "0") start (record start { counter = 1 })
      (record start { counter = 1 }) tt tt tt tt refl (unfold run_mode run_cargo in refl)
      (unfold lines lines_from in refl) (ground arith)

injected :
    inject_shared_type (codes "struct S;") (codes "fn f() {}")
    ≡ codes
        "// 共享类型定义（编译管线注入；宿主经 include! 引入同一文件，同源）\nstruct S;\n// 中间件本体（运行期编译的任意 Rust）\nfn f() {}\n"
unfolding run
injected = refl

-- With cargo and without rustc
reported :
    (toolchain_report (λ bin (w : ⊤). (strip_prefix (codes "cargo") bin, w)) tt).0.usable ≡ false
unfolding run
reported = refl
