-- ===== src/Compile/Evicting.antt =====
-- What `cache_cleanup` of src/compile.rs removes.
use mathlib.Core.List.{Perm}
use mathlib.Core.List.Perm
use proc_mw.Common.{
  ℕ, ◌+◌, ◌-◌, ◌%◌, ◌^◌, ◌≤◌, ◌<◌, ◌≡◌, refl, ap, ◌∙◌, ⊤, Bool, true, false, Bool-cases, ltb, leb,
  ◌⊎◌, inl, inr, Option, none, some, List, [], ◌∷◌, ◌++◌, length, arith,
}
use proc_mw.Effect.{Ended, ok}
use proc_mw.Compile.{BuildPath}
use proc_mw.Compile.Cleanup.{
  Entry, older, insert_by_age, sort_by_age, sum_sizes, evict, cache_cleanup,
}

abbrev pub size_of : List Entry → ℕ
size_of [] = 0
size_of (e ∷ es) = e.size + size_of es

sum_sizes-size_of :
    (checks : Bool) (total : ℕ) (es : List Entry)
    → total + size_of es < 2 ^ 64
    → sum_sizes checks total es ≡ some (total + size_of es)
unfolding sum_sizes
sum_sizes-size_of checks total [] lt = ap some (omega arith)
sum_sizes-size_of checks total (e ∷ es) lt =
    let small : ltb (total + e.size) (2 ^ 64) ≡ true = ground arith in
    let whole : (total + e.size) % 2 ^ 64 ≡ total + e.size = omega arith in
    rw (small, whole)
      (sum_sizes-size_of checks (total + e.size) es (omega arith) ∙ ap some (omega arith))

size_of-insert : (e : Entry) (es : List Entry) → size_of (insert_by_age e es) ≡ e.size + size_of es
size_of-insert e [] = refl
size_of-insert e (f ∷ fs) = elim (Bool-cases (older e.mtime f.mtime)) [
  | inl h ↦ rw h refl
  | inr h ↦ rw h (omega (arith, size_of-insert e fs))
]

size_of-sort : (es : List Entry) → size_of (sort_by_age es) ≡ size_of es
unfolding sort_by_age
size_of-sort [] = refl
size_of-sort (e ∷ es) =
    size_of-insert e (sort_by_age es) ∙ ap (λ (n : ℕ). e.size + n) (size_of-sort es)

insert-perm : (e : Entry) (es : List Entry) → Perm (insert_by_age e es) (e ∷ es)
insert-perm e [] = Perm.refl (e ∷ [])
insert-perm e (f ∷ fs) = elim (Bool-cases (older e.mtime f.mtime)) [
  | inl h ↦ rw h (Perm.refl (e ∷ f ∷ fs))
  | inr h ↦ rw h (Perm.trans (Perm.cons f (insert-perm e fs)) (Perm.swap e f fs))
]

sort-perm : (es : List Entry) → Perm (sort_by_age es) es
unfolding sort_by_age
sort-perm [] = Perm.refl []
sort-perm (e ∷ es) = Perm.trans (insert-perm e (sort_by_age es)) (Perm.cons e (sort-perm es))

-- No entry is younger than the next.
abbrev pub IsByAge : List Entry → Type 0
IsByAge [] = ⊤
IsByAge (e ∷ []) = ⊤
IsByAge (e ∷ f ∷ es) = (older e.mtime f.mtime ≡ true) × IsByAge (f ∷ es)

older_total : (a b : Option ℕ) → older a b ≡ false → older b a ≡ true
older_total none b h = absurd (ground arith)
older_total (some a) none h = refl
older_total (some a) (some b) h = ground arith

insert-IsByAge : (e : Entry) (es : List Entry) → IsByAge es → IsByAge (insert_by_age e es)
insert-IsByAge e [] h = tt
insert-IsByAge e (f ∷ []) h = elim (Bool-cases (older e.mtime f.mtime)) [
  | inl b ↦ rw b (b, tt)
  | inr b ↦ rw b (older_total e.mtime f.mtime b, tt)
]
insert-IsByAge e (f ∷ g ∷ es) (h, hs) = elim (Bool-cases (older e.mtime f.mtime)) [
  | inl b ↦ rw b (b, (h, hs))
  | inr b ↦
      (let ih = insert-IsByAge e (g ∷ es) hs in
        elim (Bool-cases (older e.mtime g.mtime)) [
          | inl c ↦ rw (b, c) (older_total e.mtime f.mtime b, rw c at ih)
          | inr c ↦ rw (b, c) (h, rw c at ih)
        ])
]

pub sort-IsByAge : (es : List Entry) → IsByAge (sort_by_age es)
unfolding sort_by_age
sort-IsByAge [] = tt
sort-IsByAge (e ∷ es) = insert-IsByAge e (sort_by_age es) (sort-IsByAge es)

module _ {W : Type 0} (checks : Bool) (remove_file : BuildPath → W → Bool × W) (max_bytes : ℕ) where
  abbrev pub remove_each : List Entry → W → W
  remove_each [] w = w
  remove_each (e ∷ es) w = remove_each es (remove_file e.path w).1

  -- When each of `gone` was removed, the entries that were left had more than `max_bytes` together.
  abbrev pub EachNeeded : List Entry → List Entry → Type 0
  EachNeeded [] kept = ⊤
  EachNeeded (e ∷ gone) kept = (max_bytes < size_of (e ∷ (gone ++ kept))) × EachNeeded gone kept

  -- The first entries are removed, and no more than is needed; those that are left have at most
  -- `max_bytes` together, or there is one at most.
  abbrev pub IsEvicted : List Entry → ℕ → W → Ended ⊥ ℕ × W → Type 0
  IsEvicted entries removed w x =
      (gone : List Entry) × (kept : List Entry) × (entries ≡ gone ++ kept)
      × (x ≡ (ok (removed + length gone), remove_each gone w))
      × ((size_of kept ≤ max_bytes) ⊎ (length kept ≤ 1))
      × EachNeeded gone kept

  evict_stops :
      (e f : Entry) (es : List Entry) (total removed : ℕ) (w : W)
      → ltb max_bytes total ≡ false
      → evict checks remove_file max_bytes (e ∷ f ∷ es) total removed w ≡ (ok removed, w)
  unfolding evict
  evict_stops e f es total removed w b = rw (evict, b) refl

  evict_removes :
      (e f : Entry) (es : List Entry) (total removed : ℕ) (w : W)
      → ltb max_bytes total ≡ true
      → (remove_file e.path w).0 ≡ true
      → e.size ≤ total
      → evict checks remove_file max_bytes (e ∷ f ∷ es) total removed w
        ≡ evict checks remove_file max_bytes
            (f ∷ es)
            (total - e.size)
            (removed + 1)
            (remove_file e.path w).1
  unfolding evict
  evict_removes e f es total removed w b r le =
      let fits : leb e.size total ≡ true = ground arith in rw (evict, b, r, fits) refl

  evict-IsEvicted :
      (es : List Entry) (removed : ℕ) (w : W)
      → ((p : BuildPath) (v : W) → (remove_file p v).0 ≡ true)
      → IsEvicted es removed w (evict checks remove_file max_bytes es (size_of es) removed w)
  unfolding evict
  evict-IsEvicted [] removed w h =
      ([], [], refl, ap (λ (n : ℕ). (ok n, w)) (omega arith), inr (omega arith), tt)
  evict-IsEvicted (e ∷ []) removed w h =
      ([], e ∷ [], refl, ap (λ (n : ℕ). (ok n, w)) (omega arith), inr (omega arith), tt)
  evict-IsEvicted (e ∷ f ∷ es) removed w h =
      elim (Bool-cases (ltb max_bytes (size_of (e ∷ f ∷ es)))) [
        | inr b ↦ (
          [],
          e ∷ f ∷ es,
          refl,
          evict_stops e f es (size_of (e ∷ f ∷ es)) removed w b
              ∙ ap (λ (n : ℕ). (ok n, w)) (omega arith),
          inl (ground arith),
          tt,
        )
        | inl b ↦
            (let w' = (remove_file e.path w).1 in
              let (gone, kept, split, ends, small, needed) =
                evict-IsEvicted (f ∷ es) (removed + 1) w' h in
              (
                e ∷ gone,
                kept,
                ap (λ (l : List Entry). e ∷ l) split,
                evict_removes e f es (size_of (e ∷ f ∷ es)) removed w b (h e.path w) (omega arith)
                    ∙ ap (λ (n : ℕ). evict checks remove_file max_bytes (f ∷ es) n (removed + 1) w')
                        (omega arith)
                    ∙ ends
                    ∙ ap (λ (n : ℕ). (ok n, remove_each gone w')) (omega arith),
                small,
                (ground (arith, b, ap size_of split), needed),
              ))
      ]

  -- Let the sizes of the entries stay below 2 ^ 64 together, and let each file be removable. Then
  -- `cache_cleanup` ends without a panic: of the entries, sorted by age, it removes the oldest,
  -- each while those that are left have more than `max_bytes` together; in the end they have at
  -- most `max_bytes`, or there is one at most; and the result is the number of the entries removed.
  pub cache_cleanup_lem :
      (entries : List Entry) (w : W)
      → size_of entries < 2 ^ 64
      → ((p : BuildPath) (v : W) → (remove_file p v).0 ≡ true)
      → Perm (sort_by_age entries) entries
        × IsByAge (sort_by_age entries)
        × IsEvicted
            (sort_by_age entries)
            0
            w
            (cache_cleanup checks remove_file max_bytes (some entries) w)
  unfolding cache_cleanup
  cache_cleanup_lem entries w lt h =
      let sorted = sort_by_age entries in
      let total : sum_sizes checks 0 sorted ≡ some (size_of sorted) =
        sum_sizes-size_of checks 0 sorted (omega (arith, size_of-sort entries))
        ∙ ap some (omega arith) in
      (
        sort-perm entries,
        sort-IsByAge entries,
        rw (cache_cleanup, total) (evict-IsEvicted sorted 0 w h),
      )
