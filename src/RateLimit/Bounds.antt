-- ===== src/RateLimit/Bounds.antt =====
-- How many requests a rate limiter lets pass.
use Prim.Native.Nat.{min}
use proc_mw.Common.{
  ℕ, ◌+◌, ◌-◌, ◌*◌, ◌≤◌, ◌≡◌, ◌≢◌, ◌↔◌, length, ⊤, ◌⊎◌, inl, inr, Bool-cases, List, [], ◌∷◌, arith,
  ltb, if◌then◌else◌,
}
use proc_mw.Effect.{ok}
use proc_mw.Cell.{Cell}
use proc_mw.Dispatch.{Ctx, continue, Host}
use proc_mw.Opaque.{opaque_continue, opaque_reject}
use proc_mw.RateLimit.{RateState, RateLimiter, fresh, admit, enter_limited, enter_opaque_limited}

-- Requests that reach the lock at these times, one after the other: how many pass, and the state
-- after the last.
unfoldable pub serve : RateLimiter → List ℕ → RateState → ℕ × RateState
serve l [] st = (0, st)
serve l (now ∷ times) st =
    let (passes, st') = admit l now st in
    let (n, st'') = serve l times st' in (if passes then n + 1 else n, st'')

abbrev pub All : (ℕ → Type 0) → List ℕ → Type 0
All P [] = ⊤
All P (x ∷ xs) = P x × All P xs

All-weaken : {P Q : ℕ → Type 0} (xs : List ℕ) → ((x : ℕ) → P x → Q x) → All P xs → All Q xs
All-weaken [] f _ = tt
All-weaken (x ∷ xs) f (p, ps) = (f x p, All-weaken xs f ps)

module _ (l : RateLimiter) where
  -- The count never exceeds the quota.
  abbrev pub IsValid : RateState → Type 0
  IsValid st = st.count ≤ l.limit

  admit-IsValid : (now : ℕ) (st : RateState) → IsValid st → IsValid (admit l now st).1
  unfolding admit
  admit-IsValid now st h = ground arith

  -- One request within the window, and one at any time.
  admit_in_window :
      (now : ℕ) (st : RateState)
      → now ≤ st.window_start + l.window
      → let (passes, st') = admit l now st in
        (st'.window_start ≡ st.window_start)
        × (st'.count ≡ (if passes then st.count + 1 else st.count))
  unfolding admit
  admit_in_window now st h = ground arith

  admit_quota :
      (now : ℕ) (st : RateState)
      → now ≤ st.window_start + l.window
      → (admit l now st).0 ≡ ltb st.count l.limit
  unfolding admit
  admit_quota now st h = ground arith

  admit_any :
      (now : ℕ) (st : RateState)
      → IsValid st
      → let (passes, st') = admit l now st in
        ((st'.window_start ≡ st.window_start)
          × (st'.count ≡ (if passes then st.count + 1 else st.count)))
        ⊎ ((st'.window_start ≡ now) × (st'.count ≡ (if passes then 1 else 0)))
  unfolding admit
  admit_any now st h = elim (Bool-cases (ltb l.window (now - st.window_start))) [
    | inl e ↦ inr (ground arith)
    | inr e ↦ inl (ground arith)
  ]

  -- While no window ends, exactly what is left of the quota passes, if so many requests come.
  serve_in_window :
      (times : List ℕ) (st : RateState)
      → IsValid st
      → All (λ t. t ≤ st.window_start + l.window) times
      → (serve l times st).0 ≡ min (length times) (l.limit - st.count)
  unfolding serve
  serve_in_window [] st h _ = omega arith
  serve_in_window (now ∷ times) st h (a, rest) =
      let s = admit_in_window now st a in
      let v = admit-IsValid now st h in
      let q = admit_quota now st a in
      let ih =
        serve_in_window times (admit l now st).1 v
          (All-weaken times (λ t k. omega (arith, s.0)) rest) in
      ground (arith, s.1, q, ih)

  serve_in_span :
      (begin : ℕ) (times : List ℕ) (st : RateState)
      → IsValid st
      → All (λ t. (begin ≤ t) × (t ≤ begin + l.window)) times
      → (serve l times st).0 + st.count ≤ l.limit + l.limit
  unfolding serve
  serve_in_span begin [] st h _ = omega arith
  serve_in_span begin (now ∷ times) st h (a, rest) =
      let v = admit-IsValid now st h in
      elim (admit_any now st h) [
        | inl s ↦
            let ih = serve_in_span begin times (admit l now st).1 v rest in ground (arith, s.1, ih)
        | inr s ↦
            let ih =
              serve_in_window times (admit l now st).1 v
                (All-weaken times (λ t k. omega (arith, s.0)) rest) in
            ground (arith, s.1, ih)
      ]

  -- From a state whose count is within the quota, and in any span of time no longer than a window,
  -- at most twice the quota passes, in whatever order the requests reach the lock.
  pub serve-le_twice_limit :
      (begin : ℕ) (times : List ℕ) (st : RateState)
      → IsValid st
      → All (λ t. (begin ≤ t) × (t ≤ begin + l.window)) times
      → (serve l times st).0 ≤ 2 * l.limit
  serve-le_twice_limit begin times st h a = omega (arith, serve_in_span begin times st h a)

  -- From the state in which `new` or `reset` starts a window, and while this window lasts, as many
  -- requests pass as come, up to the quota, and no more.
  pub serve-fresh :
      (now : ℕ) (times : List ℕ)
      → All (λ t. t ≤ now + l.window) times
      → (serve l times (fresh now)).0 ≡ min (length times) l.limit
  serve-fresh now times a = rw (serve_in_window times (fresh now) (omega arith) a) (omega arith)

-- The limiter of the typed chains and the one of the type-erased chains are the same: with the same
-- quota and window, and on any shared state, they let the same requests pass, poisoned lock
-- included, refuse all others, and leave the same state.
pub limiters_agree :
    {W R : Type 0} (host : Host W) (cell : Cell W RateState) (l : RateLimiter) (c : Ctx) (r : R)
    (w : W)
    → let (typed, _, w₁) = enter_limited host cell l c w in
      let (erased, _, w₂) = enter_opaque_limited host cell l r w in
      (w₁ ≡ w₂)
      × ((typed ≡ ok continue) ↔ (erased ≡ ok opaque_continue))
      × ((typed ≢ ok continue) ↔ (erased ≡ ok opaque_reject))
unfolding enter_limited enter_opaque_limited
limiters_agree host cell l c r w = (ground arith, ground arith, ground arith)
