-- ===== src/Migrate/Wrapping.antt =====
-- What the tool of labs/d8_migrate makes of the items of a file.
use proc_mw.Common.{ℕ, Bool, false, ◌||◌, suc, none, some, List, [], ◌∷◌, if◌then◌else◌}
use proc_mw.Strings.{Text}
use proc_mw.Migrate.Tool.{
  Concern, ItemFn, Item, function, mw_timing, other, Syntax, is_handler, is_timing, wrapped,
  visit_block, stmts_of, wrap_handler, strip_timing, undocumented, strip_doc,
}

-- Whether the text of a handler's body has timing in it
abbrev pub is_timed : {Stmt Attr Other : Type 0} → Syntax Stmt Attr Other → ItemFn Stmt Attr → Bool
is_timed syn f = is_timing (syn.render_block (syn.rename_input (stmts_of f.block)))

module _ {Stmt Attr Other : Type 0} (syn : Syntax Stmt Attr Other) (depth : ℕ) where
  -- A handler that has been wrapped
  abbrev pub wrapped_fn : ItemFn Stmt Attr → ItemFn Stmt Attr
  wrapped_fn f = record {
    attrs = f.attrs;
    ident = f.ident;
    inputs = f.inputs;
    output = f.output;
    block = wrapped (is_timed syn f) (strip_timing syn depth (syn.rename_input (stmts_of f.block)));
  }

  -- A function, and the concerns found, by whether it is a handler
  abbrev wrap_if : Bool → ItemFn Stmt Attr → List Concern → ItemFn Stmt Attr × List Concern
  wrap_if b f found = if b then wrap_handler syn depth f found else (f, found)

module _ {Stmt Attr Other : Type 0} (syn : Syntax Stmt Attr Other) (depth : ℕ) where
  abbrev pub any_timed : List (Item Stmt Attr Other) → Bool
  any_timed [] = false
  any_timed (function f ∷ items) =
      (if is_handler f then is_timed syn f else false) || any_timed items
  any_timed (_ ∷ items) = any_timed items

  abbrev pub handler_names : List (Item Stmt Attr Other) → List Text
  handler_names [] = []
  handler_names (function f ∷ items) =
      if is_handler f then f.ident ∷ handler_names items else handler_names items
  handler_names (_ ∷ items) = handler_names items

  -- A handler is wrapped, and any other item is as it was.
  abbrev pub migrated : Item Stmt Attr Other → Item Stmt Attr Other
  migrated (function f) = function (if is_handler f then wrapped_fn syn depth f else f)
  migrated mw_timing = mw_timing
  migrated (other as' o) = other as' o

module _ {Stmt Attr Other : Type 0} (syn : Syntax Stmt Attr Other) (depth : ℕ) where
  -- An item of the file that is written, where `depth` is the depth of the items in it
  abbrev pub written : Item Stmt Attr Other → Item Stmt Attr Other
  written (function f) = function (record {
    attrs = undocumented syn f.attrs;
    ident = f.ident;
    inputs = f.inputs;
    output = f.output;
    block =
        if is_handler f
        then wrapped (is_timed syn f) (
            syn.visit_stmts (strip_doc syn depth)
              (strip_timing syn (suc depth) (syn.rename_input (stmts_of f.block))))
        else visit_block syn (strip_doc syn depth) f.block;
  })
  written mw_timing = mw_timing
  written (other none o) = other none o
  written (other (some attrs) o) =
      other (some (undocumented syn attrs)) (syn.visit_nested (strip_doc syn depth) o)
