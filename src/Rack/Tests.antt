-- ===== src/Rack/Tests.antt =====
-- rack.cc on a rack of three plugins.
use amprack_6_pc.Base.{
  ℕ, ◌<◌, ◌≡◌, refl, arith, true, false, none, some, List, [], ◌∷◌, ◌>>=◌, get_elem?, replicate,
}
use amprack_6_pc.Plugin.{Plugin, lilv}
use amprack_6_pc.Processor.{Slot}
use amprack_6_pc.Engine.Order.{Reordered}
use amprack_6_pc.Rack.{
  Rack, pos, lower, lift, pred_int, suc_int, move_down, next_preset, prev_preset,
}
use amprack_6_pc.Rack.Stepping.{next_preset-prev_preset}
use amprack_6_pc.Rack.Widgets.{move_down-tracks}

abbrev effect : ℕ → Plugin ℕ
effect i = record {
  lv2_name = "effect";
  active = true;
  kind = lilv;
  input_port = some 0;
  input_port2 = none;
  output_port = some 1;
  output_port2 = none;
  run_adding_gain = 1;
  handle = none;
  descriptor = none;
  instance_ptr = some i;
}

abbrev empty_slot : Slot ℕ
empty_slot = record {
  input_port = none;
  input_port2 = none;
  output_port = none;
  output_port2 = none;
  run_adding_gain = 0;
  handle = none;
  descriptor = none;
  lilv_instance = none;
}

abbrev three : Rack ℕ
three = record {
  engine = record {
    active_plugins = effect 0 ∷ effect 1 ∷ effect 2 ∷ [];
    processor = record {
      slots = replicate 10 empty_slot;
      active_plugins = 0;
      bypass = false;
      recording = false;
    };
  };
  uiv = pos 0 ∷ pos 1 ∷ pos 2 ∷ [];
}

move_down-tracks_example :
    (r' : Rack ℕ) × (move_down 0 three ≡ some r')
    × Reordered (effect 1 ∷ effect 0 ∷ effect 2 ∷ []) r'.engine
    × (get_elem? r'.uiv 0 ≡ some (pos 1))
    × (get_elem? r'.uiv 1 ≡ some (pos 0))
move_down-tracks_example =
    move_down-tracks three [] (effect 0) (effect 1) (effect 2 ∷ []) refl refl (omega arith) 0 refl
      refl refl

next_preset-prev_preset_example :
    (next : ℕ) × (j : ℕ) × (next_preset (7 ∷ 8 ∷ 9 ∷ []) 2 ≡ some (next, some j))
    × (get_elem? (7 ∷ 8 ∷ 9 ∷ []) next ≡ some j)
    × (2 < 3
        → (i : ℕ) × (get_elem? (7 ∷ 8 ∷ 9 ∷ []) 2 ≡ some i)
          × (prev_preset (7 ∷ 8 ∷ 9 ∷ []) next ≡ some (2, some i)))
next_preset-prev_preset_example = next_preset-prev_preset (7 ∷ 8 ∷ 9 ∷ []) 2 (omega arith)

abbrev one_preset : List ℕ
one_preset = 7 ∷ []

-- An index that falls below 0 and is raised again.
below_zero-test :
    (lower 1 (pos 2 ∷ pos 0 ∷ pos 1 ∷ []) >>= lift 1) ≡ some (pos 2 ∷ pos 0 ∷ pos 1 ∷ [])
unfolding lower lift pred_int suc_int
below_zero-test = refl
