-- ===== src/Migrate/Tool.antt =====
-- labs/d8_migrate/src/main.rs: the tool that wraps the handlers of a file in a chain. What syn and quote do
-- are parameters: the parts of a file, their text, and the visits to the expressions and blocks in a body.
use proc_mw.Common.{
  ℕ, zero, suc, Bool, true, false, ◌&&◌, ◌||◌, Option, none, some, List, [], ◌∷◌, ◌++◌, map, ◌==◌,
  if◌then◌else◌,
}
use proc_mw.Strings.{Text, codes, is_whitespace, strip_prefix, split_at}

-- The cross-cutting concerns, "timing" and "logging"
pub data Concern : Type 0 where
  timing logging : Concern

-- The block of a function: the one of the source, or the call of `chain_exec` around a body, with the timing
-- middleware in the chain or without it.
pub data Block (Stmt : Type 0) : Type 0 where
  plain : List Stmt → Block Stmt
  wrapped : Bool → List Stmt → Block Stmt

pub record ItemFn (Stmt Attr : Type 0) : Type 0 where
  pub attrs : List Attr
  pub ident : Text
  pub inputs : ℕ
  pub output : Option Text
  pub block : Block Stmt

-- `mw_timing` is the item that the tool adds. Another item has attributes, if it is of a kind that
-- `StripDoc` names, and what else it consists of.
pub data Item (Stmt Attr Other : Type 0) : Type 0 where
  function : ItemFn Stmt Attr → Item Stmt Attr Other
  mw_timing : Item Stmt Attr Other
  other : Option (List Attr) → Other → Item Stmt Attr Other

abbrev pub contains : Text → Text → Bool
contains s p = elim (split_at p s) [ none ↦ false | some _ ↦ true ]

-- Without white space
unfoldable pub norm : Text → Text
norm [] = []
norm (c ∷ s) = if is_whitespace c then norm s else c ∷ norm s

abbrev pub starts_with : Text → Text → Bool
starts_with s p = elim (strip_prefix p s) [ none ↦ false | some _ ↦ true ]

abbrev pub is_i32 : Option Text → Bool
is_i32 none = false
is_i32 (some ty) = contains ty (codes "i32")

unfoldable pub is_handler : {Stmt Attr : Type 0} → ItemFn Stmt Attr → Bool
is_handler f = starts_with f.ident (codes "handle_") && (f.inputs == 1) && is_i32 f.output

unfoldable pub is_timing : Text → Bool
unfolding norm
is_timing text =
    contains (norm text) (codes "Instant::now") || contains (norm text) (codes "elapsed")

-- What the code uses of syn and quote: the text of a statement and of a block; the block in which the uses of
-- `input` are those of `ctx.input`; the block whose nested blocks have been visited; whether an attribute is a
-- doc comment; and the statements and the item whose nested items have been visited.
pub record Syntax (Stmt Attr Other : Type 0) : Type 0 where
  pub render_stmt : Stmt → Text
  pub render_block : List Stmt → Text
  pub rename_input : List Stmt → List Stmt
  pub visit_blocks : (List Stmt → List Stmt) → List Stmt → List Stmt
  pub is_doc : Attr → Bool
  pub visit_stmts : (Item Stmt Attr Other → Item Stmt Attr Other) → List Stmt → List Stmt
  pub visit_nested : (Item Stmt Attr Other → Item Stmt Attr Other) → Other → Other

abbrev pub has_timing : List Concern → Bool
has_timing [] = false
has_timing (timing ∷ cs) = true
has_timing (logging ∷ cs) = has_timing cs

abbrev pub has_logging : List Concern → Bool
has_logging [] = false
has_logging (timing ∷ cs) = has_logging cs
has_logging (logging ∷ cs) = true

-- The push of a concern that is not yet in the list
abbrev pub add_new : List Concern → Concern → List Concern
add_new out timing = if has_timing out then out else out ++ timing ∷ []
add_new out logging = if has_logging out then out else out ++ logging ∷ []

abbrev pub add_all_new : List Concern → List Concern → List Concern
add_all_new out [] = out
add_all_new out (c ∷ cs) = add_all_new (add_new out c) cs

-- The statements of a block; a generated one is not visited again.
abbrev pub stmts_of : {Stmt : Type 0} → Block Stmt → List Stmt
stmts_of (plain ss) = ss
stmts_of (wrapped _ ss) = ss

module _ {Stmt Attr Other : Type 0} (syn : Syntax Stmt Attr Other) where
  unfoldable pub detect_cross_cutting : List Stmt → List Concern
  unfolding is_timing
  detect_cross_cutting block =
      (if is_timing (syn.render_block block) then timing ∷ [] else [])
      ++ (if contains (norm (syn.render_block block)) (codes "println") then logging ∷ [] else [])

  -- `retain`
  unfoldable pub retain_untimed : List Stmt → List Stmt
  unfolding is_timing
  retain_untimed [] = []
  retain_untimed (s ∷ ss) =
      if is_timing (syn.render_stmt s) then retain_untimed ss else s ∷ retain_untimed ss

  -- `StripTiming`, down to blocks nested as deep as the fuel
  unfoldable pub strip_timing : ℕ → List Stmt → List Stmt
  unfolding retain_untimed
  strip_timing zero block = retain_untimed block
  strip_timing (suc depth) block = syn.visit_blocks (strip_timing depth) (retain_untimed block)

  -- `wrap_handler`, with the concerns that have been found so far
  unfoldable pub wrap_handler :
      ℕ → ItemFn Stmt Attr → List Concern → ItemFn Stmt Attr × List Concern
  unfolding detect_cross_cutting strip_timing
  wrap_handler depth f extracted =
      let renamed = syn.rename_input (stmts_of f.block) in
      let cc = detect_cross_cutting renamed in
      (
        record f { block = wrapped (has_timing cc) (strip_timing depth renamed) },
        add_all_new extracted cc,
      )

  -- The loop over the items: the names of the handlers, and the concerns found
  unfoldable pub wrap_items :
      ℕ
      → List (Item Stmt Attr Other)
      → List Text
      → List Concern
      → List (Item Stmt Attr Other) × List Text × List Concern
  unfolding wrap_handler
  wrap_items depth [] wrapped' extracted = ([], wrapped', extracted)
  wrap_items depth (function f ∷ items) wrapped' extracted =
      let (f', extracted') =
        (if is_handler f then wrap_handler depth f extracted else (f, extracted)) in
      let names = (if is_handler f then wrapped' ++ f.ident ∷ [] else wrapped') in
      let (items', names', found) = wrap_items depth items names extracted' in
      (function f' ∷ items', names', found)
  wrap_items depth (i ∷ items) wrapped' extracted =
      let (items', names', found) = wrap_items depth items wrapped' extracted in
      (i ∷ items', names', found)

  -- `attrs.retain`
  unfoldable pub undocumented : List Attr → List Attr
  undocumented [] = []
  undocumented (a ∷ attrs) = if syn.is_doc a then undocumented attrs else a ∷ undocumented attrs

  abbrev pub visit_block : (Item Stmt Attr Other → Item Stmt Attr Other) → Block Stmt → Block Stmt
  visit_block visit (plain ss) = plain (syn.visit_stmts visit ss)
  visit_block visit (wrapped timed ss) = wrapped timed (syn.visit_stmts visit ss)

  -- `StripDoc`, down to items nested as deep as the fuel. Nothing in the generated code is documented.
  unfoldable pub strip_doc : ℕ → Item Stmt Attr Other → Item Stmt Attr Other
  unfolding undocumented
  strip_doc depth mw_timing = mw_timing
  strip_doc depth (other none o) = other none o
  strip_doc zero (function f) = function (record f { attrs = undocumented f.attrs })
  strip_doc (suc depth) (function f) =
      function
        (record f { attrs = undocumented f.attrs; block = visit_block (strip_doc depth) f.block })
  strip_doc zero (other (some attrs) o) = other (some (undocumented attrs)) o
  strip_doc (suc depth) (other (some attrs) o) =
      other (some (undocumented attrs)) (syn.visit_nested (strip_doc depth) o)

  -- `migrate_file`, from the syntax tree that is parsed to the one that is written, each the attributes of the
  -- file and its items; and the names that are told. `depth` is the depth of the blocks and items.
  unfoldable pub migrate_ast :
      ℕ
      → List Attr × List (Item Stmt Attr Other)
      → (List Attr × List (Item Stmt Attr Other)) × List Text
  unfolding wrap_items strip_doc
  migrate_ast depth (attrs, items) =
      let (items', names, extracted) = wrap_items depth items [] [] in
      let all = (if has_timing extracted then items' ++ mw_timing ∷ [] else items') in
      ((undocumented attrs, map (strip_doc depth) all), names)
