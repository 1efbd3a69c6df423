-- ===== src/Runtime/Layout.antt =====
-- Which changes of a shared type the fingerprints tell apart, and which libraries are refused.
use proc_mw.Common.{
  ℕ, ◌^◌, ◌<◌, ◌≡◌, ◌≢◌, refl, ap, sym, ◌∙◌, Option, some, List, ◌∷◌, ◌++◌, String, ◌==◌, ==_iff,
  Bool-cases, inl, inr, arith,
}
use proc_mw.Effect.{ok, err}
use proc_mw.Hash.{offset_basis, fnv_from, AllWords}
use proc_mw.Hash.Distinct.{fnv_from-one_word}
use proc_mw.Runtime.{
  Loader, PluginOpaque, layout_mismatch, get_sym, load_opaque, check_layout, call_layout,
  compare_layout, load_with_layout, words, layout_fingerprint_of,
}

-- Two layouts of which the numbers (offsets, sizes and alignments, field by field) are the same but for
-- one.
pub record IsOneOff (fields changed : List (ℕ × ℕ × ℕ)) : Type 0 where
  pub pre : List ℕ
  pub post : List ℕ
  pub here : ℕ
  pub there : ℕ
  pub fields_are : words fields ≡ pre ++ here ∷ post
  pub changed_are : words changed ≡ pre ++ there ∷ post
  pub here-lt : here < 2 ^ 64
  pub there-lt : there < 2 ^ 64
  pub post-AllWords : AllWords post
  pub differs : here ≢ there

-- The fingerprints of two layouts that differ in one number are different.
pub layout_fingerprint_of-IsOneOff :
    (fields changed : List (ℕ × ℕ × ℕ))
    → IsOneOff fields changed
    → layout_fingerprint_of fields ≢ layout_fingerprint_of changed
unfolding layout_fingerprint_of
layout_fingerprint_of-IsOneOff fields changed d e = d.differs (
    fnv_from-one_word offset_basis d.pre d.post d.here d.there (omega arith) d.here-lt d.there-lt
      d.post-AllWords
      (ap (fnv_from offset_basis) (sym d.fields_are)
        ∙ e
        ∙ ap (fnv_from offset_basis) d.changed_are))

module _ {W R : Type 0} (loader : Loader W R) where
  -- Let a plugin pass the checks of `load`, and export the fingerprint of its own layout of the shared
  -- type. If the host's layout differs from that in one number, `load_with_layout` refuses the plugin,
  -- with the plugin's fingerprint in the error.
  pub load_with_layout_refuses :
      (path : String) (w w₁ w₂ : W) (p : PluginOpaque W R) (fp_fn : W → ℕ × W)
      (host plugin : List (ℕ × ℕ × ℕ))
      → load_opaque loader path w ≡ (ok p, w₁)
      → get_sym loader.macos p.lib.get_u64 "proc_mw_layout_fingerprint" ≡ some fp_fn
      → fp_fn w₁ ≡ (layout_fingerprint_of plugin, w₂)
      → IsOneOff plugin host
      → load_with_layout loader path (layout_fingerprint_of host) w
        ≡ (err (layout_mismatch (layout_fingerprint_of plugin)), w₂)
  unfolding load_with_layout
  load_with_layout_refuses path w w₁ w₂ p fp_fn host plugin loads finds calls d =
      let expected = layout_fingerprint_of host in
      let fp = layout_fingerprint_of plugin in
      ap (check_layout loader expected) loads
      ∙ ap (λ (o : Option (W → ℕ × W)). call_layout loader expected p o w₁) finds
      ∙ ap (compare_layout loader expected p) calls
      ∙ elim (Bool-cases (fp == expected)) [
        | inl e ↦ absurd (layout_fingerprint_of-IsOneOff plugin host d ((==_iff fp expected).0 e))
        | inr e ↦ rw e refl
      ]
