-- ===== src/Patch.antt =====
-- engine.cc's `getPreset`, which writes the controls of every plugin as a text, and pluginui.cpp's
-- `load_preset`, which reads such a text into the sliders of a plugin.
pub mod Restore
mod Tests
use Prim.Native.String.{String}
use text.Mathlib.Text.{◌==◌ as text_eq}
use amprack_6_pc.Base.{
  ℕ, suc, ◌+◌, ◌==◌, ltb, Bool, true, false, Option, none, some, List, [], ◌∷◌, ◌++◌, length, map,
  if◌then◌else◌,
}

-- `PluginControl::Type`
pub data ControlType : Type 0 where
  float_type int_type toggle_type atom_type lv2_atom_input_port lv2_atom_output_port : ControlType

-- The fields of a `PluginControl` that presets and sliders use; `def` is what the pointer leads to.
pub record Knob (F : Type 0) : Type 0 where
  pub kind : ControlType
  pub min : F
  pub max : F
  pub val : F
  pub def : F

-- A plugin of the rack, as far as presets go. `loaded_file_name` is empty until a file is loaded, and
-- then `loaded_file_type`, -1 in the code, is not read.
pub record Effect (F : Type 0) : Type 0 where
  pub lv2_name : String
  pub loaded_file_name : String
  pub loaded_file_type : ℕ
  pub controls : List (Knob F)

-- The JSON object of one plugin: `file` is the members `filename` and `filetype`, if they are there.
-- A text of controls is a list of characters.
pub record Saved : Type 0 where
  pub name : String
  pub file : Option (String × ℕ)
  pub controls : List ℕ

-- `std::to_string` and `atof`, and GTK's sliders, which are not part of the program.
pub record Toolkit (F S : Type 0) : Type 0 where
  pub to_string : F → List ℕ
  pub atof : List ℕ → F
  pub new_slider : F → F → F → S
  pub set_value : F → S → S

abbrev pub semicolon : ℕ
semicolon = 59

-- The types that `getPreset` leaves out.
unfoldable pub is_skipped : ControlType → Bool
is_skipped float_type = false
is_skipped int_type = false
is_skipped toggle_type = false
is_skipped atom_type = true
is_skipped lv2_atom_input_port = true
is_skipped lv2_atom_output_port = true

-- The type for which the constructor of `PluginUI` makes no slider.
unfoldable pub is_file : ControlType → Bool
is_file float_type = false
is_file int_type = false
is_file toggle_type = false
is_file atom_type = true
is_file lv2_atom_input_port = false
is_file lv2_atom_output_port = false

-- The text up to the first semicolon, and what comes behind that.
pub split_item : List ℕ → List ℕ × List ℕ
split_item [] = ([], [])
split_item (c ∷ cs) =
    let rest = split_item cs in if c == semicolon then ([], cs) else (c ∷ rest.0, rest.1)

-- `std::getline` with a semicolon: it fails at the end of the text.
pub getline : List ℕ → Option (List ℕ × List ℕ)
unfolding split_item
getline [] = none
getline (c ∷ cs) = some (split_item (c ∷ cs))

module _ {F S : Type 0} (k : Toolkit F S) where
  -- The inner loop of `getPreset`, from control `x` on; `size` is the number of all controls.
  pub controls_text : ℕ → ℕ → List (Knob F) → List ℕ
  unfolding is_skipped
  controls_text x size [] = []
  controls_text x size (c ∷ cs) =
      let rest = controls_text (x + 1) size cs in
      if is_skipped c.kind
      then rest
      else k.to_string c.def ++ (if ltb x (size + 2) then semicolon ∷ [] else []) ++ rest

  unfoldable pub save_effect : Effect F → Saved
  unfolding controls_text
  save_effect e = record {
    name = e.lv2_name;
    file =
        if text_eq e.loaded_file_name ""
        then none
        else some (e.loaded_file_name, e.loaded_file_type);
    controls = controls_text 0 (length e.controls) e.controls;
  }

  -- The plugins under their indices; `none` is the empty JSON value of an empty rack.
  unfoldable pub get_preset : List (Effect F) → Option (List Saved)
  unfolding save_effect
  get_preset [] = none
  get_preset (e ∷ es) = some (map save_effect (e ∷ es))

  -- The sliders that the constructor of `PluginUI` makes.
  unfoldable pub sliders : List (Knob F) → List S
  unfolding is_file
  sliders [] = []
  sliders (c ∷ cs) =
      let rest = sliders cs in
      if is_file c.kind then rest else k.set_value c.val (k.new_slider c.min c.max c.val) ∷ rest

  -- The loop of `PluginUI::load_preset`, over the sliders that are left.
  pub load_preset : List ℕ → List S → List S
  unfolding getline
  load_preset str [] = []
  load_preset str (s ∷ ss) = elim (getline str) [
    | none ↦ s ∷ ss
    | some item ↦ k.set_value (k.atof item.0) s ∷ load_preset item.1 ss
  ]
