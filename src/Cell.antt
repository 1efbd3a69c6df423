-- ===== src/Cell.antt =====
-- A piece of shared state of type `S` behind an `Arc`, inside all that the program shares.
use proc_mw.Common.{◌≡◌, refl}

pub record Cell (W S : Type 0) : Type 0 where
  pub get : W → S
  pub set : S → W → W
  pub get-set : (s : S) (w : W) → get (set s w) ≡ s

abbrev pub modify : {W S : Type 0} → Cell W S → (S → S) → W → W
modify cell f w = cell.set (f (cell.get w)) w

-- The cell that is all of the shared state.
abbrev pub whole : {S : Type 0} → Cell S S
whole = record { get = λ s. s; set = λ s _. s; get-set = λ s w. refl }
