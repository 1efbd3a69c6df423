-- ===== src/Compile/Cleanup.antt =====
-- `cache_cleanup` of src/compile.rs: the entries of the cache's directory, with their sizes and times of
-- modification, and the loop that removes the oldest; and what it leaves.
use proc_mw.Common.{
  ℕ, ◌+◌, ◌-◌, ◌%◌, ◌^◌, Bool, true, false, ltb, leb, Option, none, some, List, [], ◌∷◌,
  if◌then◌else◌,
}
use proc_mw.Effect.{Ended, ok, panicked}
use proc_mw.Compile.{BuildPath}

pub record Entry : Type 0 where
  pub path : BuildPath
  pub size : ℕ
  pub mtime : Option ℕ

-- The order of `Option<SystemTime>`: no time comes first.
abbrev pub older : Option ℕ → Option ℕ → Bool
older none _ = true
older (some _) none = false
older (some a) (some b) = leb a b

-- `sort_by_key`, which is stable
abbrev pub insert_by_age : Entry → List Entry → List Entry
insert_by_age e [] = e ∷ []
insert_by_age e (f ∷ fs) =
    let rest = insert_by_age e fs in if older e.mtime f.mtime then e ∷ f ∷ fs else f ∷ rest

unfoldable pub sort_by_age : List Entry → List Entry
sort_by_age [] = []
sort_by_age (e ∷ es) = insert_by_age e (sort_by_age es)

-- The sum of the sizes: nothing, where it passes 2 ^ 64 and overflow checks are compiled in.
unfoldable pub sum_sizes : Bool → ℕ → List Entry → Option ℕ
sum_sizes checks total [] = some total
sum_sizes checks total (e ∷ es) =
    let rest = sum_sizes checks ((total + e.size) % 2 ^ 64) es in
    if ltb (total + e.size) (2 ^ 64) then rest else if checks then none else rest

module _ {W : Type 0} (checks : Bool) (remove_file : BuildPath → W → Bool × W) (max_bytes : ℕ) where
  -- `total -= s`
  abbrev pub less_size : ℕ → ℕ → Option ℕ
  less_size total size =
      if leb size total
      then some (total - size)
      else if checks
      then none
      else some (total + 2 ^ 64 - size)

  -- The loop, with the number of the files removed so far.
  unfoldable pub evict : List Entry → ℕ → ℕ → W → Ended ⊥ ℕ × W
  evict [] total removed w = (ok removed, w)
  evict (e ∷ []) total removed w = (ok removed, w)
  evict (e ∷ f ∷ es) total removed w = elim (ltb max_bytes total) [
    | false ↦ (ok removed, w)
    | true ↦
        (let (done, w') = remove_file e.path w in
          elim done [
            | false ↦ evict (f ∷ es) total removed w'
            | true ↦ elim (less_size total e.size) [
              | none ↦ (panicked, w')
              | some rest ↦ evict (f ∷ es) rest (removed + 1) w'
            ]
          ])
  ]

  -- `cache_cleanup`, where the directory is there or not
  unfoldable pub cache_cleanup : Option (List Entry) → W → Ended ⊥ ℕ × W
  unfolding sum_sizes sort_by_age evict
  cache_cleanup none w = (ok 0, w)
  cache_cleanup (some entries) w =
      let sorted = sort_by_age entries in
      elim (sum_sizes checks 0 sorted) [
        | none ↦ (panicked, w)
        | some total ↦ evict sorted total 0 w
      ]
