-- ===== src/Storage/Panels.antt =====
-- rack.cc and pluginui.cpp: what a new widget is after it was filled from a preset.
use text.Mathlib.Text.{◌==◌ as text_eq}
use amprack_6_pc.Base.{◌≡◌, refl, ap, ◌∙◌, Bool-cases, inl, inr, List, [], ◌∷◌, if◌then◌else◌}
use amprack_6_pc.Plugin.{Plugin}
use amprack_6_pc.Rack.Adding.{Catalogue, found}
use amprack_6_pc.Patch.{Knob, Effect, Toolkit, save_effect, sliders, load_preset, is_file}
use amprack_6_pc.Patch.Restore.{NoLv2Ports, NoSemicolon, restored, load_preset-restores}
use amprack_6_pc.Storage.{Library, escaped}

-- The same controls, but for the value.
abbrev pub SameShape : {F : Type 0} → List (Knob F) → List (Knob F) → Type 0
SameShape [] [] = Unit
SameShape [] (y ∷ ys) = ⊥
SameShape (x ∷ xs) [] = ⊥
SameShape (x ∷ xs) (y ∷ ys) =
    (x.kind ≡ y.kind) × (x.min ≡ y.min) × (x.max ≡ y.max) × (x.val ≡ y.val) × SameShape xs ys

module _ {A F S : Type 0} (l : Library) (k : Toolkit F S) (c : Catalogue A)
    (knobs : Plugin A → List (Knob F)) where
  sliders-SameShape : (xs ys : List (Knob F)) → SameShape xs ys → sliders k xs ≡ sliders k ys
  unfolding sliders
  sliders-SameShape [] [] v = refl
  sliders-SameShape [] (y ∷ ys) v = absurd v
  sliders-SameShape (x ∷ xs) [] v = absurd v
  sliders-SameShape (x ∷ xs) (y ∷ ys) (kind, low, high, val, rest) =
      ap
        (λ q.
          if is_file q
          then sliders k xs
          else k.set_value x.val (k.new_slider x.min x.max x.val) ∷ sliders k xs)
        kind
      ∙ ap
          (λ ss.
            if is_file y.kind then ss else k.set_value x.val (k.new_slider x.min x.max x.val) ∷ ss)
          (sliders-SameShape xs ys rest)
      ∙ (λ i.
          if is_file y.kind
          then sliders k ys
          else k.set_value (val i) (k.new_slider (low i) (high i) (val i)) ∷ sliders k ys)

  -- An effect and the plugin that the catalogue has for its name: the same controls, none of them an
  -- LV2 atom port, and texts without characters that JSON escapes.
  pub record Known (e : Effect F) (p : Plugin A) : Type 0 where
    pub by_name : found c e.lv2_name ≡ p ∷ []
    pub shape : SameShape (knobs p) e.controls
    pub plain : NoLv2Ports k e.controls
    pub name : l.escape e.lv2_name ≡ e.lv2_name
    pub file : l.escape e.loaded_file_name ≡ e.loaded_file_name
    pub text : l.escape_text (save_effect k e).controls ≡ (save_effect k e).controls

  abbrev pub AllKnown : List (Effect F × Plugin A) → Type 0
  AllKnown [] = Unit
  AllKnown ((e, p) ∷ rs) = Known e p × AllKnown rs

  pub saved_name :
      (e : Effect F) (p : Plugin A) → Known e p → l.escape (save_effect k e).name ≡ e.lv2_name
  unfolding save_effect
  saved_name e p v = v.name

  pub saved_file :
      (e : Effect F) (p : Plugin A)
      → Known e p
      → escaped l (save_effect k e).file ≡ (save_effect k e).file
  unfolding save_effect escaped
  saved_file e p v = elim (Bool-cases (text_eq e.loaded_file_name "")) [
    | inl no_file ↦ rw no_file refl
    | inr loaded ↦ rw (loaded, v.file) refl
  ]

  module _ (clean : (v : F) → NoSemicolon (k.to_string v)) where
    pub panel-restored :
        (e : Effect F) (p : Plugin A)
        → Known e p
        → load_preset k (l.escape_text (save_effect k e).controls) (sliders k (knobs p))
          ≡ restored k e.controls
    panel-restored e p v =
        ap (λ t. load_preset k t (sliders k (knobs p))) v.text
        ∙ ap (load_preset k (save_effect k e).controls)
            (sliders-SameShape (knobs p) e.controls v.shape)
        ∙ load_preset-restores k e clean v.plain
