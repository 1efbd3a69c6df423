-- ===== src/Compile/Target.antt =====
-- `dir_size` and `plugin_target_cleanup` of src/compile.rs: the shared target directory as a tree, and
-- its removal when it has grown too large.
use proc_mw.Common.{
  ℕ, ◌+◌, ◌%◌, ◌^◌, ◌<◌, ◌≡◌, refl, ap, ◌∙◌, Bool, Option, none, some, ltb, if◌then◌else◌, arith,
}
use proc_mw.Effect.{Ended, ok, panicked}

mutual
  -- A file with its length (0 where it is not told), a directory, and an entry that cannot be read.
  pub data Item : Type 0 where
    file : ℕ → Item
    directory : Items → Item
    unreadable : Item

  pub data Items : Type 0 where
    no_items : Items
    item_then : Item → Items → Items

-- The sum so far and one length more: nothing, where it passes 2 ^ 64 and overflow checks are compiled in.
abbrev pub add_size : Bool → ℕ → Option ℕ → Option ℕ
add_size checks total none = none
add_size checks total (some n) =
    if ltb (total + n) (2 ^ 64)
    then some (total + n)
    else if checks
    then none
    else some ((total + n) % 2 ^ 64)

-- The sum over the entries of a directory, with the sum so far.
mutual
  pub dir_size_from : Bool → Option ℕ → Items → Option ℕ
  dir_size_from checks none items = none
  dir_size_from checks (some total) no_items = some total
  dir_size_from checks (some total) (item_then i items) =
      dir_size_from checks (add_size checks total (item_size checks i)) items

  pub item_size : Bool → Item → Option ℕ
  item_size checks (file n) = some n
  item_size checks (directory items) = dir_size_from checks (some 0) items
  item_size checks unreadable = some 0

abbrev pub dir_size : Bool → Items → Option ℕ
dir_size checks = dir_size_from checks (some 0)

-- `plugin_target_cleanup`, where the directory is there or not; the result of the removal is dropped.
unfoldable pub plugin_target_cleanup :
    {W : Type 0} → Bool → (W → W) → ℕ → Option Items → W → Ended ⊥ ℕ × W
plugin_target_cleanup checks remove_dir_all max_bytes none w = (ok 0, w)
plugin_target_cleanup checks remove_dir_all max_bytes (some items) w =
    elim (dir_size checks items) [
      | none ↦ (panicked, w)
      | some size ↦ if ltb max_bytes size then (ok 1, remove_dir_all w) else (ok 0, w)
    ]

-- The lengths of all files, without bounds
mutual
  total_length : Items → ℕ
  total_length no_items = 0
  total_length (item_then i items) = item_length i + total_length items

  item_length : Item → ℕ
  item_length (file n) = n
  item_length (directory items) = total_length items
  item_length unreadable = 0

add_size-exact :
    (checks : Bool) (total n : ℕ)
    → total + n < 2 ^ 64
    → add_size checks total (some n) ≡ some (total + n)
add_size-exact checks total n lt = ground arith

one_more :
    (checks : Bool) (total n : ℕ) (items : Items)
    → total + (n + total_length items) < 2 ^ 64
    → dir_size_from checks (some (total + n)) items ≡ some (total + n + total_length items)
    → dir_size_from checks (add_size checks total (some n)) items
      ≡ some (total + (n + total_length items))
one_more checks total n items lt rest =
    ap (λ (o : Option ℕ). dir_size_from checks o items)
      (add_size-exact checks total n (omega arith))
    ∙ rest
    ∙ ap some (omega arith)

dir_size_from-exact :
    (checks : Bool) (total : ℕ) (items : Items)
    → total + total_length items < 2 ^ 64
    → dir_size_from checks (some total) items ≡ some (total + total_length items)
unfolding dir_size_from total_length
dir_size_from-exact checks total no_items lt = ap some (omega arith)
dir_size_from-exact checks total (item_then (file n) items) lt =
    one_more checks total n items lt
      (dir_size_from-exact checks (total + n) items (omega (arith, lt)))
dir_size_from-exact checks total (item_then (directory inner) items) lt =
    let n = total_length inner in
    ap (λ (o : Option ℕ). dir_size_from checks (add_size checks total o) items)
      (dir_size_from-exact checks 0 inner (omega (arith, lt)) ∙ ap some (omega arith))
    ∙ one_more checks total n items lt
        (dir_size_from-exact checks (total + n) items (omega (arith, lt)))
dir_size_from-exact checks total (item_then unreadable items) lt =
    one_more checks total 0 items lt
      (dir_size_from-exact checks (total + 0) items (omega (arith, lt)))

-- If the lengths of the files stay below 2 ^ 64 together, the directory is removed exactly when they are
-- more than `max_bytes`.
plugin_target_cleanup_lem :
    {W : Type 0} (checks : Bool) (remove_dir_all : W → W) (max_bytes : ℕ) (items : Items) (w : W)
    → total_length items < 2 ^ 64
    → plugin_target_cleanup checks remove_dir_all max_bytes (some items) w
      ≡ (if ltb max_bytes (total_length items) then (ok 1, remove_dir_all w) else (ok 0, w))
unfolding plugin_target_cleanup
plugin_target_cleanup_lem checks remove_dir_all max_bytes items w lt =
    let exact : dir_size checks items ≡ some (total_length items) =
      dir_size_from-exact checks 0 items (omega arith) ∙ ap some (omega arith) in
    rw (plugin_target_cleanup, exact) refl
