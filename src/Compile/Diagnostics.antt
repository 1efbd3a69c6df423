-- ===== src/Compile/Diagnostics.antt =====
-- The diagnostics of src/compile.rs: what cargo writes to its standard error, read line by line, and
-- written again with the lines of the plugin's source.
use proc_mw.Common.{
  ℕ, ◌-◌, Bool, true, false, ◌&&◌, Option, none, some, List, [], ◌∷◌, ◌++◌, get_elem?, length, ltb,
  if◌then◌else◌,
}
use proc_mw.Strings.{
  Text, codes, trim, strip_prefix, split_at, split_char, rsplit_char, lines, parse_u32, print_u32,
}

pub record Diag : Type 0 where
  pub code : Text
  pub message : Text
  pub line : Option ℕ

-- `trim_start_matches(": ")`
unfoldable pub trim_colons : Text → Text
trim_colons [] = []
trim_colons (b ∷ []) = b ∷ []
trim_colons (b ∷ c ∷ s) =
    let rest = trim_colons s in
    elim (strip_prefix (codes ": ") (b ∷ c ∷ [])) [ none ↦ b ∷ c ∷ s | some _ ↦ rest ]

-- A head, of what follows `error[`: with no bracket after it, the slice behind the end of the line
-- panics, which is `none`.
unfoldable pub read_head : Text → Option Diag
unfolding trim_colons
read_head after = elim (split_char b']' after) [
  | none ↦ none
  | some (code, rest) ↦ some (record { code = code; message = trim_colons rest; line = none })
]

-- The number between the last two colons of a position
abbrev pub line_number : Option (Text × Text) → Option ℕ
line_number none = none
line_number (some (_, n)) = parse_u32 (trim n)

unfoldable pub read_position : Text → Option ℕ
read_position rest = elim (rsplit_char b':' rest) [
  | none ↦ none
  | some (before, _) ↦ line_number (rsplit_char b':' before)
]

-- The first position after a head is the diagnostic's.
unfoldable pub locate : Option ℕ → Diag → Diag
locate n d = elim d.line [ none ↦ record d { line = n } | some _ ↦ d ]

abbrev pub map_last : (Diag → Diag) → List Diag → List Diag
map_last f [] = []
map_last f (d ∷ []) = f d ∷ []
map_last f (d ∷ e ∷ ds) = d ∷ map_last f (e ∷ ds)

abbrev pub push : List Diag → Option Diag → Option (List Diag)
push out none = none
push out (some d) = some (out ++ d ∷ [])

-- One line, trimmed, with the diagnostics so far
unfoldable pub read_line : List Diag → Text → Option (List Diag)
unfolding read_head read_position locate
read_line out t = elim (split_at (codes "error[") t) [
  | some (_, after) ↦ push out (read_head after)
  | none ↦ elim (strip_prefix (codes "-->") t) [
    | none ↦ some out
    | some rest ↦ some (map_last (locate (read_position rest)) out)
  ]
]

unfoldable pub read_lines : List Diag → List Text → Option (List Diag)
unfolding read_line
read_lines out [] = some out
read_lines out (l ∷ ls) = elim (read_line out (trim l)) [
  | none ↦ none
  | some out' ↦ read_lines out' ls
]

-- `none` is a panic.
unfoldable pub extract_diagnostics : Text → Option (List Diag)
unfolding read_lines
extract_diagnostics stderr = read_lines [] (lines stderr)

-- `{:>3}`
abbrev pub pad_3 : Text → Text
pad_3 s =
    if ltb (length s) 2 then codes "  " ++ s else if ltb (length s) 3 then codes " " ++ s else s

-- The line of the source, if there is a line of this number; 0 stands for the first one.
abbrev pub quote_line : List Text → Option ℕ → Text
quote_line source none = []
quote_line source (some n) = elim (get_elem? source (n - 1)) [
  | none ↦ []
  | some l ↦ codes "    " ++ (pad_3 (print_u32 n) ++ (codes " │ " ++ (l ++ codes "\n")))
]

unfoldable pub render_from : List Text → List Diag → Text
render_from source [] = []
render_from source (d ∷ ds) =
    codes "  error["
    ++ (d.code
        ++ (codes "] "
            ++ (d.message ++ (codes "\n" ++ (quote_line source d.line ++ render_from source ds)))))

unfoldable pub render_diags : List Diag → Text → Text
unfolding render_from
render_diags diags middleware_source = render_from (lines middleware_source) diags

-- `inject_shared_type`: the definition of the shared type, then the plugin's code, each behind a comment.
unfoldable pub inject_shared_type : Text → Text → Text
inject_shared_type shared_type_def middleware_body =
    codes "// 共享类型定义（编译管线注入；宿主经 include! 引入同一文件，同源）\n"
    ++ (shared_type_def
        ++ (codes "\n" ++ (codes "// 中间件本体（运行期编译的任意 Rust）\n" ++ (middleware_body ++ codes "\n"))))

-- `ToolchainReport` and `toolchain_report`, where `version_of` runs a program with `--version`: the text
-- that it prints, if it can be run and succeeds.
pub record ToolchainReport : Type 0 where
  pub cargo : Option Text
  pub rustc : Option Text
  pub offline_ready : Bool
  pub usable : Bool

abbrev pub is_some : Option Text → Bool
is_some none = false
is_some (some _) = true

module _ {W : Type 0} (version_of : Text → W → Option Text × W) where
  abbrev pub version : Text → W → Option Text × W
  version bin w =
      let (out, w') = version_of bin w in
      (elim out [ none ↦ none | some text ↦ some (trim text) ], w')

  unfoldable pub toolchain_report : W → ToolchainReport × W
  toolchain_report w =
      let (cargo, w₁) = version (codes "cargo") w in
      let (rustc, w₂) = version (codes "rustc") w₁ in
      let ready = is_some cargo && is_some rustc in
      (record { cargo = cargo; rustc = rustc; offline_ready = ready; usable = ready }, w₂)
