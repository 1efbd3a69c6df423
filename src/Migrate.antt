-- ===== src/Migrate.antt =====
-- src/migrate.rs: a handler that is called through a chain, and the search for handlers in a source, by
-- the text of its lines and by its syntax tree. Migrate/Tool is the rewriting tool of labs/d8_migrate.
pub mod Heads
pub mod Handlers
pub mod Adoption
pub mod Tool
pub mod Wrapping
mod Tests
use proc_mw.Common.{
  ℕ, Bool, true, false, not, ◌&&◌, ◌||◌, Option, none, some, List, [], ◌∷◌, ◌++◌, ◌==◌,
  if◌then◌else◌,
}
use proc_mw.Int.{ℤ}
use proc_mw.Effect.{Ended, ok, err, panicked, Hook}
use proc_mw.Opaque.{OpaqueChain, exec}
use proc_mw.Strings.{Text, codes, trim, strip_prefix, split_at, split_char, lines}

-- The input goes through the chain inside a request; the request itself is local to the call.
unfoldable pub adopt :
    {W V R O : Type 0}
    → OpaqueChain W R
    → V
    → (V → W → Ended ⊥ R × W)
    → Hook W R O
    → W
    → Ended ℤ O × W
adopt chain input mk core w =
    let (made, w₁) = mk input w in
    elim made [
      | ok req ↦ (let (res, _, w₂) = exec chain core req w₁ in (res, w₂))
      | err e ↦ absurd e
      | panicked ↦ (panicked, w₁)
    ]

abbrev pub ends_name : ℕ → Bool
ends_name c = c == b'(' || c == b' ' || c == b'<'

-- The first piece of the text, split at the code points that end a name
unfoldable pub name_of : Text → Text
name_of [] = []
name_of (c ∷ s) = if ends_name c then [] else c ∷ name_of s

abbrev pub is_some : {A : Type 0} → Option A → Bool
is_some none = false
is_some (some _) = true

-- No comma from the first opening parenthesis on
unfoldable pub single_param : Text → Bool
single_param t = elim (split_char b'(' t) [
  | none ↦ false
  | some (_, params) ↦ not (is_some (split_char b',' params))
]

abbrev pub is_public_name : Text → Bool
is_public_name [] = false
is_public_name (c ∷ _) = not (c == b'_')

-- The candidate on a line, if there is one
unfoldable pub candidate : Text → Option Text
unfolding name_of single_param
candidate t = elim (strip_prefix (codes "fn ") t) [
  | none ↦ none
  | some rest ↦
      if is_some (split_at (codes "->") t) && single_param t && is_public_name (name_of rest)
      then some (name_of rest)
      else none
]

abbrev pub keep_some : Option Text → List Text → List Text
keep_some none out = out
keep_some (some name) out = name ∷ out

unfoldable pub candidates_of : List Text → List Text
unfolding candidate
candidates_of [] = []
candidates_of (l ∷ ls) = keep_some (candidate (trim l)) (candidates_of ls)

unfoldable pub find_handler_candidates : Text → List Text
unfolding candidates_of
find_handler_candidates source = candidates_of (lines source)

-- What syn tells of a function item: its name, the number of its inputs, whether it has a return type.
pub record Signature : Type 0 where
  pub ident : Text
  pub inputs : ℕ
  pub has_return : Bool

-- `parse_file` and `as_fn` are syn's: the items of a source, if it is one, and the items that are functions.
module _ {Item : Type 0} (parse_file : Text → Option (List Item))
    (as_fn : Item → Option Signature) where
  abbrev pub syn_candidate : Option Signature → Option Text
  syn_candidate none = none
  syn_candidate (some f) = if (f.inputs == 1) && f.has_return then some f.ident else none

  unfoldable pub syn_candidates : List Item → List Text
  syn_candidates [] = []
  syn_candidates (i ∷ is) = keep_some (syn_candidate (as_fn i)) (syn_candidates is)

  unfoldable pub find_handler_candidates_syn : Text → List Text
  unfolding syn_candidates
  find_handler_candidates_syn source = elim (parse_file source) [
    | none ↦ []
    | some items ↦ syn_candidates items
  ]
