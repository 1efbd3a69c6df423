-- ===== src/Runtime/Registry.antt =====
-- `PluginRegistry` of src/runtime.rs: plugins by name, behind a lock, and what it promises. The map's
-- order is nowhere observed; here it is the order of the first registrations.
use text.Mathlib.Text
use text.Mathlib.TextEquality.{eq_iff}
use text.Mathlib.TextPositions.{eq_refl}
use proc_mw.Common.{
  ℕ, suc, ◌+◌, ◌≡◌, refl, ap, sym, ◌∙◌, ◌≢◌, ⊤, Bool, false, Bool-cases, inl, inr, Option, none,
  some, List, [], ◌∷◌, length, String, if◌then◌else◌, arith,
}
use proc_mw.Effect.{Ended, ok, panicked, Hook}
use proc_mw.Cell.{Cell}
use proc_mw.Opaque.{OpaqueNode}
use proc_mw.Runtime.{PluginOpaque, to_opaque_node}

pub record Registry (W R : Type 0) : Type 0 where
  pub plugins : List (String × PluginOpaque W R)
  pub poisoned : Bool

abbrev pub new_registry : {W R : Type 0} → Registry W R
new_registry = record { plugins = []; poisoned = false }

module _ {A : Type 0} where
  -- `HashMap::insert` and `HashMap::get`
  unfoldable pub insert : String → A → List (String × A) → List (String × A)
  insert k v [] = (k, v) ∷ []
  insert k v ((l, u) ∷ rest) =
      let tail = insert k v rest in if Text.◌==◌ l k then (k, v) ∷ rest else (l, u) ∷ tail

  unfoldable pub get : String → List (String × A) → Option A
  get k [] = none
  get k ((l, u) ∷ rest) = let found = get k rest in if Text.◌==◌ l k then some u else found

module _ {W V R : Type 0} (registry : Cell W (Registry V R)) where
  -- The lock is taken with `unwrap`, which panics if it is poisoned.
  unfoldable pub register : {S : Type 0} → String → PluginOpaque V R → Hook W S ⊤
  register name p s w =
      let reg = registry.get w in
      if reg.poisoned
      then (panicked, s, w)
      else (ok tt, s, registry.set (record reg { plugins = insert name p reg.plugins }) w)

module _ {W V R : Type 0} (read : W → Registry V R) where
  unfoldable pub get_node : {S : Type 0} → String → Hook W S (Option (OpaqueNode V R))
  get_node name s w =
      let reg = read w in
      if reg.poisoned then (panicked, s, w) else (
        ok (elim (get name reg.plugins) [ none ↦ none | some p ↦ some (to_opaque_node p) ]),
        s,
        w,
      )

  unfoldable pub len : {S : Type 0} → Hook W S ℕ
  len s w =
      let reg = read w in if reg.poisoned then (panicked, s, w) else (ok (length reg.plugins), s, w)

module _ {A : Type 0} where
  pub get-insert_self : (k : String) (v : A) (m : List (String × A)) → get k (insert k v m) ≡ some v
  unfolding get insert
  get-insert_self k v [] = rw (eq_refl k) refl
  get-insert_self k v ((l, u) ∷ rest) = elim (Bool-cases (Text.◌==◌ l k)) [
    | inl e ↦ rw e (rw (eq_refl k) refl)
    | inr e ↦ rw e (rw e (get-insert_self k v rest))
  ]

  pub get-insert_ne :
      (j k : String) (v : A) (m : List (String × A)) → j ≢ k → get j (insert k v m) ≡ get j m
  unfolding get insert
  get-insert_ne j k v [] ne = elim (Bool-cases (Text.◌==◌ k j)) [
    | inl e ↦ absurd (ne (sym ((eq_iff k j).0 e)))
    | inr e ↦ rw e refl
  ]
  get-insert_ne j k v ((l, u) ∷ rest) ne = elim (Bool-cases (Text.◌==◌ l k)) [
    | inl e ↦ elim (Bool-cases (Text.◌==◌ l j)) [
      | inl f ↦ absurd (ne (sym ((eq_iff l j).0 f) ∙ (eq_iff l k).0 e))
      | inr f ↦ elim (Bool-cases (Text.◌==◌ k j)) [
        | inl g ↦ absurd (ne (sym ((eq_iff k j).0 g)))
        | inr g ↦ rw (e, f, g) refl
      ]
    ]
    | inr e ↦
        rw e
          (ap (λ (o : Option A). if Text.◌==◌ l j then some u else o) (get-insert_ne j k v rest ne))
  ]

  abbrev pub grown : Option A → ℕ → ℕ
  grown none n = n + 1
  grown (some _) n = n

  pub length-insert :
      (k : String) (v : A) (m : List (String × A))
      → length (insert k v m) ≡ grown (get k m) (length m)
  unfolding get insert
  length-insert k v [] = refl
  length-insert k v ((l, u) ∷ rest) = elim (Bool-cases (Text.◌==◌ l k)) [
    | inl e ↦ rw e refl
    | inr e ↦ rw e (ap suc (length-insert k v rest) ∙ after (get k rest) (length rest))
  ]
    where
      after : (o : Option A) (n : ℕ) → suc (grown o n) ≡ grown o (suc n)
      after none n = omega arith
      after (some _) n = refl

abbrev got : {V R : Type 0} → Option (PluginOpaque V R) → Option (OpaqueNode V R)
got none = none
got (some p) = some (to_opaque_node p)

module _ {W V R S : Type 0} (registry : Cell W (Registry V R)) where
  get_node_unpoisoned :
      (name : String) (s : S) (w : W) (reg : Registry V R)
      → registry.get w ≡ reg
      → reg.poisoned ≡ false
      → get_node registry.get name s w ≡ (ok (got (get name reg.plugins)), s, w)
  unfolding get_node
  get_node_unpoisoned name s w reg e h = rw (e, h) (after (get name reg.plugins))
    where
      after :
          (o : Option (PluginOpaque V R))
          → ◌≡◌ {A = Ended ⊥ (Option (OpaqueNode V R)) × S × W}
              (ok (elim o [ none ↦ none | some p ↦ some (to_opaque_node p) ]), s, w)
              (ok (got o), s, w)
      after none = refl
      after (some p) = refl

  len_unpoisoned :
      (s : S) (w : W) (reg : Registry V R)
      → registry.get w ≡ reg
      → reg.poisoned ≡ false
      → len registry.get s w ≡ (ok (length reg.plugins), s, w)
  unfolding len
  len_unpoisoned s w reg e h = rw (e, h) refl

  -- In a registry whose lock is not poisoned, a registration ends; then the name stands for the new
  -- plugin, whatever it stood for before, every other name stands for what it stood for, and the
  -- registry has one plugin more if the name was new, and as many as before if it was not.
  pub register_lem :
      (name other : String) (p : PluginOpaque V R) (s : S) (w : W)
      → (registry.get w).poisoned ≡ false
      → other ≢ name
      → (w' : W) × (register registry name p s w ≡ (ok tt, s, w'))
        × (get_node registry.get name s w' ≡ (ok (some (to_opaque_node p)), s, w'))
        × ((get_node registry.get other s w').0 ≡ (get_node registry.get other s w).0)
        × (len registry.get s w' ≡ (
          ok (grown (get name (registry.get w).plugins) (length (registry.get w).plugins)),
          s,
          w',
        ))
  unfolding register
  register_lem name other p s w h ne =
      let reg = registry.get w in
      let reg' : Registry V R = record reg { plugins = insert name p reg.plugins } in
      let w' = registry.set reg' w in
      let stored : registry.get w' ≡ reg' = registry.get-set reg' w in
      (
        w',
        rw h refl,
        get_node_unpoisoned name s w' reg' stored h
            ∙ ap (λ (o : Option (PluginOpaque V R)). (ok (got o), s, w'))
                (get-insert_self name p reg.plugins),
        ap (λ (x : Ended ⊥ (Option (OpaqueNode V R)) × S × W). x.0)
              (get_node_unpoisoned other s w' reg' stored h)
            ∙ ap (λ (o : Option (PluginOpaque V R)). ok (got o))
                (get-insert_ne other name p reg.plugins ne)
            ∙ ap (λ (x : Ended ⊥ (Option (OpaqueNode V R)) × S × W). x.0)
                (sym (get_node_unpoisoned other s w reg refl h)),
        len_unpoisoned s w' reg' stored h
            ∙ ap (λ (n : ℕ). (ok n, s, w')) (length-insert name p reg.plugins),
      )
