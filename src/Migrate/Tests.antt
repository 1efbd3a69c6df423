-- ===== src/Migrate/Tests.antt =====
-- Runs of the two searches of src/migrate.rs, an adopted handler, and the tool of labs/d8_migrate on a small
-- file.
use proc_mw.Common.{
  ℕ, ◌*◌, ◌≡◌, refl, ⊤, Bool, true, none, false, some, String, List, [], ◌∷◌, ◌++◌, arith,
}
use proc_mw.Effect.{ok}
use proc_mw.Cell.{whole}
use proc_mw.Metrics.{Counts, zero_counts, opaque_metrics}
use proc_mw.Opaque.{stateful, enter, exit, new_chain, exec, enter_all, exit_all, check_code}
use proc_mw.Strings.{
  Text, codes, is_whitespace, trim_start, trim_end, trim, strip_prefix, split_at, split_char,
  lines_from, lines,
}
use proc_mw.Migrate.{
  adopt, name_of, single_param, candidate, candidates_of, find_handler_candidates, syn_candidates,
  find_handler_candidates_syn,
}
use proc_mw.Migrate.Tool.{
  Block, Item, function, mw_timing, other, plain, wrapped, Syntax, norm, is_handler, is_timing,
  detect_cross_cutting, retain_untimed, strip_timing, wrap_handler, wrap_items, undocumented,
  strip_doc, migrate_ast,
}
use proc_mw.Migrate.Heads.{Head, print_all, AllHeads}
use proc_mw.Migrate.Handlers.{find_handler_candidates-print_all}

run : Unit {0}
unfolding is_whitespace trim_start trim_end trim strip_prefix split_at split_char lines_from lines
    name_of single_param candidate candidates_of find_handler_candidates syn_candidates
    find_handler_candidates_syn
run = tt

-- The source of the unit test
unit_test :
    find_handler_candidates (
      codes
        "\nfn handle_login(v: i64) -> i64 { v + 1000 }\nfn handle_get_user(v: i64) -> i64 { v * 2 }\nfn helper(a: i64, b: i64) -> i64 { a + b }\nfn main() { }\n")
    ≡ codes "handle_login" ∷ codes "handle_get_user" ∷ []
unfolding run
unit_test = refl

-- A function with no parameter is found, and so is a comment's arrow; a public one is not.
other_heads :
    find_handler_candidates
      (codes "fn now() -> u64 {\nfn log(v: u8) { // -> stderr\npub fn twice(v: u8) -> u8 {")
    ≡ codes "now" ∷ codes "log" ∷ []
unfolding run
other_heads = refl

syn_run :
    find_handler_candidates_syn
      (λ _. some (0 ∷ 1 ∷ 2 ∷ []))
      (λ n. some (record { ident = codes "f"; inputs = n; has_return = true }))
      (codes "")
    ≡ codes "f" ∷ []
unfolding run
syn_run = refl

abbrev now : Head
now = record { name = codes "now"; generics = none; params = []; output = some (codes "u64") }

abbrev twice : Head
twice = record {
  name = codes "twice";
  generics = some (codes "T");
  params = codes "v: T" ∷ [];
  output = some (codes "T");
}

abbrev checked : Head
checked = record {
  name = codes "checked";
  generics = none;
  params = codes "x: i64" ∷ [];
  output = some (codes "Result<i64, String>");
}

abbrev sources : List Head
sources = now ∷ twice ∷ checked ∷ []

sources-AllHeads : AllHeads sources
sources-AllHeads = (
  record {
    name_plain = ground arith;
    generics_plain = tt;
    params_plain = tt;
    output_plain = ground arith;
  },
  (
    record {
      name_plain = ground arith;
      generics_plain = ground arith;
      params_plain = ground arith;
      output_plain = ground arith;
    },
    (
      record {
        name_plain = ground arith;
        generics_plain = tt;
        params_plain = ground arith;
        output_plain = ground arith;
      },
      tt,
    ),
  ),
)

-- The handler that returns a `Result` of two types is missed.
find_handler_candidates-print_all_example :
    find_handler_candidates (print_all sources) ≡ codes "now" ∷ codes "twice" ∷ []
find_handler_candidates-print_all_example =
    find_handler_candidates-print_all sources sources-AllHeads

adopted :
    adopt
      (new_chain (stateful (opaque_metrics whole) ∷ []))
      21
      (λ v (u : Counts). (ok v, u))
      (λ (r : ℕ) u. (ok (r * 2), r, u))
      zero_counts
    ≡ (ok 42, record { calls = 1; successes = 1 })
unfolding adopt exec enter_all exit_all enter exit check_code
adopted = refl

-- Statements as their texts, with no `input`, no nested block and no nested item in them. An attribute is `true` if
-- it is a doc comment.
abbrev texts : Syntax Text Bool ⊤
texts = record {
  render_stmt = λ s. s;
  render_block = λ b. join_texts b;
  rename_input = λ b. b;
  visit_blocks = λ _ b. b;
  is_doc = λ a. a;
  visit_stmts = λ _ b. b;
  visit_nested = λ _ o. o;
}
  where
    join_texts : List Text → Text
    join_texts [] = []
    join_texts (s ∷ ss) = s ++ join_texts ss

abbrev fn_item : String → List Bool → Block Text → Item Text Bool ⊤
fn_item name attrs block = function (record {
  attrs = attrs;
  ident = codes name;
  inputs = 1;
  output = some (codes "i32");
  block = block;
})

-- A handler with timing, a function that is none, another item, and a handler without timing
abbrev legacy : List (Item Text Bool ⊤)
legacy =
    fn_item "handle_a" (true ∷ false ∷ [])
      (plain (codes "let t = Instant :: now () ;" ∷ codes "1" ∷ []))
    ∷ fn_item "helper" (true ∷ []) (plain (codes "2" ∷ []))
    ∷ other (some (true ∷ [])) tt
    ∷ fn_item "handle_b" [] (plain (codes "3" ∷ []))
    ∷ []

tool_run : migrate_ast texts 1 (true ∷ [], legacy) ≡ (
  (
    [],
    fn_item "handle_a" (false ∷ []) (wrapped true (codes "1" ∷ []))
        ∷ fn_item "helper" [] (plain (codes "2" ∷ []))
        ∷ other (some []) tt
        ∷ fn_item "handle_b" [] (wrapped false (codes "3" ∷ []))
        ∷ mw_timing
        ∷ [],
  ),
  codes "handle_a" ∷ codes "handle_b" ∷ [],
)
unfolding norm is_handler is_timing detect_cross_cutting retain_untimed strip_timing wrap_handler
    wrap_items undocumented strip_doc migrate_ast is_whitespace strip_prefix split_at
tool_run = refl
