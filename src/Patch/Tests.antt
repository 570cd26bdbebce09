-- ===== src/Patch/Tests.antt =====
-- engine.cc's `getPreset` and pluginui.cpp's `load_preset` on numbers of one digit.
use amprack_6_pc.Base.{inl, ℕ, ◌+◌, ◌-◌, ◌≡◌, refl, some, none, List, [], ◌∷◌, arith}
use amprack_6_pc.Patch.{
  Knob, is_skipped, Effect, Toolkit, ControlType, float_type, toggle_type, atom_type,
  lv2_atom_input_port, save_effect, get_preset, sliders, load_preset,
}
use amprack_6_pc.Patch.Restore.{
  NoSemicolon, NoLv2Ports, assign, saved_values, restored, load_preset-restores, load_preset-shifts,
}

abbrev from_digits : List ℕ → ℕ
from_digits [] = 0
from_digits (c ∷ cs) = c - 60

-- Digits from the character 60 on, and sliders that keep the values they were given.
abbrev toolkit : Toolkit ℕ (List ℕ)
toolkit = record {
  to_string = λ n. (60 + n) ∷ [];
  atof = from_digits;
  new_slider = λ lo hi v. [];
  set_value = λ v s. v ∷ s;
}

digits-NoSemicolon : (v : ℕ) → NoSemicolon (toolkit.to_string v)
unfolding NoSemicolon
digits-NoSemicolon v = (ground arith, tt)

abbrev knob : ControlType → ℕ → Knob ℕ
knob kind v = record { kind = kind; min = 0; max = 9; val = 5; def = v }

abbrev effect : List (Knob ℕ) → Effect ℕ
effect controls = record {
  lv2_name = "drive";
  loaded_file_name = "";
  loaded_file_type = 0;
  controls = controls;
}

get_preset-test :
    get_preset toolkit
      (effect (knob float_type 1 ∷ knob atom_type 2 ∷ knob toggle_type 3 ∷ []) ∷ [])
    ≡ some (record { name = "drive"; file = none; controls = 61 ∷ 59 ∷ 63 ∷ 59 ∷ [] } ∷ [])
unfolding get_preset
get_preset-test = refl

-- Without a semicolon at the end the last item is read all the same, and an empty item counts.
load_preset-test :
    load_preset toolkit (61 ∷ 59 ∷ 59 ∷ 62 ∷ []) ([] ∷ [] ∷ [] ∷ [] ∷ [])
    ≡ (1 ∷ []) ∷ (0 ∷ []) ∷ (2 ∷ []) ∷ [] ∷ []
unfolding load_preset
load_preset-test = refl

load_preset-restores_example :
    load_preset toolkit
      (save_effect toolkit
        (effect (knob float_type 1 ∷ knob atom_type 2 ∷ knob toggle_type 3 ∷ []))).controls
      (sliders toolkit (knob float_type 1 ∷ knob atom_type 2 ∷ knob toggle_type 3 ∷ []))
    ≡ (1 ∷ 5 ∷ []) ∷ (3 ∷ 5 ∷ []) ∷ []
unfolding restored NoLv2Ports is_skipped
load_preset-restores_example =
    load_preset-restores toolkit
      (effect (knob float_type 1 ∷ knob atom_type 2 ∷ knob toggle_type 3 ∷ [])) digits-NoSemicolon
      (refl, (refl, (refl, tt)))

load_preset-shifts_example :
    load_preset toolkit
      (save_effect toolkit
        (effect (knob lv2_atom_input_port 0 ∷ knob float_type 1 ∷ knob float_type 2 ∷ []))).controls
      (sliders toolkit (knob lv2_atom_input_port 0 ∷ knob float_type 1 ∷ knob float_type 2 ∷ []))
    ≡ (1 ∷ 5 ∷ []) ∷ (2 ∷ 5 ∷ []) ∷ (5 ∷ []) ∷ []
unfolding assign saved_values sliders
load_preset-shifts_example =
    load_preset-shifts toolkit
      (effect (knob lv2_atom_input_port 0 ∷ knob float_type 1 ∷ knob float_type 2 ∷ []))
      (knob lv2_atom_input_port 0) (knob float_type 1) (knob float_type 2 ∷ []) digits-NoSemicolon
      refl (inl refl) refl
