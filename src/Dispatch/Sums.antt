-- ===== src/Dispatch/Sums.antt =====
-- Chains of `Add` nodes: what number reaches the core, in a build with overflow checks and without.
use proc_mw.Common.{
  ◌≡◌, refl, sym, ap, ◌∙◌, ◌⊎◌, inl, inr, Bool, ◌&&◌, true, false, none, some, List, [], ◌∷◌, map,
  arith, Bool-cases,
}
use proc_mw.Int.{ℤ, ◌+ℤ◌, InRange, in_range, wrap, wrap-InRange, wrap_of_InRange, add_i32}
use proc_mw.Effect.{ok, panicked}
use proc_mw.Dispatch.{Ctx, Host, Node, builtin, add, enter, enter_builtin, enter_all}

wrap-add_wrap : (a b : ℤ) → wrap (wrap a +ℤ b) ≡ wrap (a +ℤ b)
unfolding wrap ◌+ℤ◌
wrap-add_wrap a b = ground arith

wrap_idem : (a : ℤ) → wrap (wrap a) ≡ wrap a
wrap_idem a = wrap_of_InRange (wrap a) (wrap-InRange a)

add_i32-unchecked : (a b : ℤ) → add_i32 false a b ≡ some (wrap (a +ℤ b))
unfolding add_i32
add_i32-unchecked a b = elim (Bool-cases (in_range (a +ℤ b))) [
  | inl e ↦ rw (e, wrap_of_InRange (a +ℤ b) (ground arith))
  | inr e ↦ rw e
]

abbrev pub sum : List ℤ → ℤ → ℤ
sum [] acc = acc
sum (k ∷ ks) acc = sum ks (acc +ℤ k)

sum-wrap : (ks : List ℤ) (a : ℤ) → wrap (sum ks (wrap a)) ≡ wrap (sum ks a)
sum-wrap [] a = wrap_idem a
sum-wrap (k ∷ ks) a =
    sym (sum-wrap ks (wrap a +ℤ k))
    ∙ ap (λ (b : ℤ). wrap (sum ks b)) (wrap-add_wrap a k)
    ∙ sum-wrap ks (a +ℤ k)

-- Whether all sums on the way are `i32`s.
abbrev pub sums_fit : List ℤ → ℤ → Bool
sums_fit [] a = true
sums_fit (k ∷ ks) a = in_range (a +ℤ k) && sums_fit ks (a +ℤ k)

module _ {W : Type 0} (host : Host W) where
  abbrev adds : List ℤ → List (Node W)
  adds ks = map (λ k. builtin (add k)) ks

  enter_add-some :
      (k v : ℤ) (ns : List (Node W)) (c : Ctx) (w : W)
      → add_i32 host.overflow_checks c.input k ≡ some v
      → enter_all host (builtin (add k) ∷ ns) c w ≡ enter_all host ns (record c { input = v }) w
  unfolding enter_all enter enter_builtin
  enter_add-some k v ns c w e = ground arith

  enter_add-none :
      (k : ℤ) (ns : List (Node W)) (c : Ctx) (w : W)
      → add_i32 host.overflow_checks c.input k ≡ none
      → (enter_all host (builtin (add k) ∷ ns) c w).0 ≡ panicked
  unfolding enter_all enter enter_builtin
  enter_add-none k ns c w e = ground arith

  -- Without overflow checks, and from an input that is an `i32`, entering `Add` nodes leaves the sum of
  -- the input and their numbers, modulo 2 ^ 32 as an `i32`: partial sums that overflow do no harm.
  pub enter_all-adds-wrap :
      (ks : List ℤ) (c : Ctx) (w : W)
      → host.overflow_checks ≡ false
      → InRange c.input
      → enter_all host (adds ks) c w ≡ (ok tt, record c { input = wrap (sum ks c.input) }, w)
  enter_all-adds-wrap [] c w u r = unfold enter_all in rw (wrap_of_InRange c.input r)
  enter_all-adds-wrap (k ∷ ks) c w u r =
      enter_add-some k (wrap (c.input +ℤ k)) (adds ks) c w (rw u (add_i32-unchecked c.input k))
      ∙ enter_all-adds-wrap ks (record c { input = wrap (c.input +ℤ k) }) w u (wrap-InRange _)
      ∙ ap (λ (v : ℤ). (ok tt, record c { input = v }, w)) (sum-wrap ks (c.input +ℤ k))

  -- With overflow checks, entering `Add` nodes leaves the exact sum of the input and their numbers if
  -- every partial sum is an `i32`, and otherwise it panics.
  pub enter_all-adds_exact :
      (ks : List ℤ) (c : Ctx) (w : W)
      → host.overflow_checks ≡ true
      → (sums_fit ks c.input ≡ true)
          × (enter_all host (adds ks) c w ≡ (ok tt, record c { input = sum ks c.input }, w))
        ⊎ (sums_fit ks c.input ≡ false) × ((enter_all host (adds ks) c w).0 ≡ panicked)
  enter_all-adds_exact [] c w u = unfold enter_all in inl (refl, refl)
  enter_all-adds_exact (k ∷ ks) c w u = elim (Bool-cases (in_range (c.input +ℤ k))) [
    | inl fits ↦
        let step = enter_add-some k (c.input +ℤ k) (adds ks) c w (unfold add_i32 in rw fits) in
        let ih = enter_all-adds_exact ks (record c { input = c.input +ℤ k }) w u in
        rw (fits, step) ih
    | inr over ↦
        let step = enter_add-none k (adds ks) c w (unfold add_i32 in rw (over, u)) in
        rw over (inr (refl, step))
  ]
