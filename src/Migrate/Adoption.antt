-- ===== src/Migrate/Adoption.antt =====
-- What `adopt` of src/migrate.rs makes of a handler.
use mathlib.Core.List.{reverse-cons}
use proc_mw.Common.{◌≡◌, refl, ap, ⊤, List, [], ◌∷◌, ◌++◌, reverse}
use proc_mw.Int.{pos}
use proc_mw.Effect.{ok}
use proc_mw.Opaque.{OpaqueNode, OpaqueChain, enter, exit, check_code, enter_all, exit_all, exec}
use proc_mw.Migrate.{adopt}

module _ {W R : Type 0} where
  -- A node that lets each request through as it is; what it does to the shared state is its own affair.
  pub record Observes (n : OpaqueNode W R) : Type 0 where
    pub enters : (r : R) (w : W) → (w' : W) × (enter n r w ≡ (ok (pos 0), r, w'))
    pub exits : (r : R) (w : W) → (w' : W) × (exit n r w ≡ (ok tt, r, w'))

  abbrev pub AllObserve : List (OpaqueNode W R) → Type 0
  AllObserve [] = ⊤
  AllObserve (n ∷ ns) = Observes n × AllObserve ns

  AllObserve-append :
      (ns ms : List (OpaqueNode W R)) → AllObserve ns → AllObserve ms → AllObserve (ns ++ ms)
  AllObserve-append [] ms h k = k
  AllObserve-append (n ∷ ns) ms (h, hs) k = (h, AllObserve-append ns ms hs k)

  AllObserve-reverse : (ns : List (OpaqueNode W R)) → AllObserve ns → AllObserve (reverse ns)
  AllObserve-reverse [] h = tt
  AllObserve-reverse (n ∷ ns) (h, hs) =
      rw (reverse-cons n ns)
        (AllObserve-append (reverse ns) (n ∷ []) (AllObserve-reverse ns hs) (h, tt))

  enter_all_observes :
      (ns : List (OpaqueNode W R)) (r : R) (w : W)
      → AllObserve ns
      → (w' : W) × (enter_all ns r w ≡ (ok tt, r, w'))
  unfolding enter_all check_code
  enter_all_observes [] r w h = (w, refl)
  enter_all_observes (n ∷ ns) r w (h, hs) =
      let (w₁, e) = h.enters r w in let (w₂, q) = enter_all_observes ns r w₁ hs in (w₂, rw e q)

  exit_all_observes :
      (ns : List (OpaqueNode W R)) (r : R) (w : W)
      → AllObserve ns
      → (w' : W) × (exit_all ns r w ≡ (ok tt, r, w'))
  unfolding exit_all
  exit_all_observes [] r w h = (w, refl)
  exit_all_observes (n ∷ ns) r w (h, hs) =
      let (w₁, e) = h.exits r w in let (w₂, q) = exit_all_observes ns r w₁ hs in (w₂, rw e q)

  -- Let the nodes of a chain let each request through as it is, and let the core be the handler on the
  -- value in the request, which `mk` has put there. Then the adopted handler returns what the handler
  -- returns, on any shared state.
  pub adopt-eq-handler :
      {V O : Type 0} (chain : OpaqueChain W R) (mk : V → R) (value : R → V) (handler : V → O)
      (input : V) (w : W)
      → AllObserve chain.nodes
      → value (mk input) ≡ input
      → (adopt chain input (λ v u. (ok (mk v), u)) (λ r u. (ok (handler (value r)), r, u)) w).0
        ≡ ok (handler input)
  unfolding adopt exec
  adopt-eq-handler chain mk value handler input w h e =
      let (w₁, q₁) = enter_all_observes chain.nodes (mk input) w h in
      let (w₂, q₂) =
        exit_all_observes (reverse chain.nodes) (mk input) w₁ (AllObserve-reverse chain.nodes h) in
      rw q₁ (rw q₂ (ap (λ (v : _). ok (handler v)) e))
