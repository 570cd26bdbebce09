-- ===== src/Rack/Buttons/Tests.antt =====
-- pluginui.cpp: three plugins, and the buttons of the second one's widget.
use Prim.Native.String.{String}
use amprack_6_pc.Base.{
  ℕ, ◌<◌, ◌≡◌, refl, arith, true, false, none, some, List, [], ◌∷◌, get_elem?, replicate,
}
use amprack_6_pc.Plugin.{Plugin, lilv}
use amprack_6_pc.Processor.{Slot}
use amprack_6_pc.Engine.Order.{Reordered}
use amprack_6_pc.Rack.{pos}
use amprack_6_pc.Rack.Buttons.{Board, delete_button, bypass, bypasses, switch_button, down_button}
use amprack_6_pc.Engine.{build_plugin_chain, build_from, chain_round, add_to_chain, store_plugin}
use amprack_6_pc.Engine.Steps.{InStep}
use amprack_6_pc.Rack.Adding.{Catalogue}
use amprack_6_pc.Patch.{Toolkit}
use amprack_6_pc.Sound.{wild, valid}
use amprack_6_pc.Storage.{Library, Loader}
use amprack_6_pc.Rack.Buttons.Sessions.{opened, went_on, switched, deleted, Session-InStep}
use amprack_6_pc.Rack.Buttons.Pressed.{
  delete_button-removes, switch_button-switches, delete_button-moved,
}

abbrev plugin : String → Plugin ℕ
plugin name = record {
  lv2_name = name;
  active = true;
  kind = lilv;
  input_port = some 0;
  input_port2 = none;
  output_port = some 1;
  output_port2 = none;
  run_adding_gain = 1;
  handle = none;
  descriptor = none;
  instance_ptr = some 7;
}

abbrev slot : Slot ℕ
slot = record {
  input_port = none;
  input_port2 = none;
  output_port = none;
  output_port2 = none;
  run_adding_gain = 0;
  handle = none;
  descriptor = none;
  lilv_instance = none;
}

abbrev board : Board ℕ
board = record {
  rack = record {
    engine = record {
      active_plugins = plugin "gate" ∷ plugin "drive" ∷ plugin "echo" ∷ [];
      processor = record {
        slots = replicate 10 slot;
        active_plugins = 3;
        bypass = false;
        recording = false;
      };
    };
    uiv = pos 0 ∷ pos 1 ∷ pos 2 ∷ [];
  };
  cd_indices = 0 ∷ 1 ∷ 2 ∷ [];
  sliders = 3 ∷ 2 ∷ 0 ∷ [];
  cards = 0 ∷ 1 ∷ 2 ∷ [];
}

delete_button-removes_example :
    (b' : Board ℕ) × (delete_button 1 board ≡ some b')
    × Reordered (plugin "gate" ∷ plugin "echo" ∷ []) b'.rack.engine
    × (b'.rack.uiv ≡ pos 0 ∷ pos 1 ∷ pos 2 ∷ [])
delete_button-removes_example =
    delete_button-removes board 1 (plugin "gate" ∷ []) (plugin "drive") (plugin "echo" ∷ []) refl
      refl refl (omega arith)

abbrev two_sliders : ℕ
two_sliders = 2

switch_button-switches_example :
    (0 < two_sliders
      → (b' : Board ℕ) × (switch_button 1 false board ≡ some b')
        × Reordered
            (plugin "gate" ∷ record (plugin "drive") { active = false } ∷ plugin "echo" ∷ [])
            b'.rack.engine
        × (b'.rack.uiv ≡ pos 0 ∷ pos 1 ∷ pos 2 ∷ []))
    × (two_sliders ≡ 0 → switch_button 1 false board ≡ some board)
switch_button-switches_example =
    switch_button-switches board 1 false (plugin "gate" ∷ []) (plugin "drive") (plugin "echo" ∷ [])
      two_sliders refl refl refl refl (omega arith)

delete_button-moved_example :
    (b' : Board ℕ) × (b'' : Board ℕ) × (down_button 1 board ≡ some b')
    × (get_elem? b'.rack.uiv 1 ≡ some (pos 2))
    × (delete_button 1 b' ≡ some b'')
    × Reordered (plugin "gate" ∷ plugin "drive" ∷ []) b''.rack.engine
delete_button-moved_example =
    delete_button-moved board 1 (plugin "gate" ∷ []) (plugin "drive") (plugin "echo") [] refl refl
      refl refl refl refl (omega arith)

-- A rack of one plugin that is switched on, and what its buttons make of it.
abbrev wired : Slot ℕ
wired = record {
  input_port = some 0;
  input_port2 = none;
  output_port = some 1;
  output_port2 = none;
  run_adding_gain = 1;
  handle = none;
  descriptor = none;
  lilv_instance = some 7;
}

abbrev one_plugin : List (Plugin ℕ) → ℕ → List ℕ → Board ℕ
one_plugin ps on cards = record {
  rack = record {
    engine = record {
      active_plugins = ps;
      processor = record {
        slots = wired ∷ replicate 9 slot;
        active_plugins = on;
        bypass = false;
        recording = false;
      };
    };
    uiv = pos 0 ∷ [];
  };
  cd_indices = 0 ∷ [];
  sliders = 2 ∷ [];
  cards = cards;
}

abbrev no_plugins : Catalogue ℕ
no_plugins = record { lv2_json = []; ladspa_json = []; load = λ library index. none }

-- No preset is loaded here.
abbrev library : Library
library = record {
  json = record { parse = λ t. none; dump = λ j. [] };
  elements = λ kvs. [];
  escape = λ s. s;
  escape_text = λ t. t;
  empty_is_null = false;
}

abbrev toolkit : Toolkit ℕ ℕ
toolkit = record {
  to_string = λ n. n ∷ [];
  atof = λ t. 0;
  new_slider = λ lo hi v. v;
  set_value = λ v s. v;
}

abbrev loader : Loader ℕ ℕ
loader = record {
  sf_open = λ f. none;
  player_of = λ q. record {
    lv2_name = [];
    kind = lilv;
    descriptor = wild;
    lv2_descriptor = valid;
    connections = [];
    loaded_file_name = [];
    loaded_file_type = none;
  };
  bytes = λ s. [];
}

Session-InStep_example : InStep (one_plugin [] 0 []).rack.engine
unfolding switch_button bypasses bypass delete_button build_plugin_chain build_from chain_round
    add_to_chain store_plugin
Session-InStep_example =
    Session-InStep library toolkit loader no_plugins (λ q. [])
      (one_plugin (plugin "gate" ∷ []) 1 (0 ∷ [])) (one_plugin [] 0 [])
      (went_on {b' = one_plugin (record (plugin "gate") { active = false } ∷ []) 0 (0 ∷ [])}
        (went_on opened (switched 0 false refl)) (deleted 0 refl))
      (record { entries = refl; size = refl; few = omega (arith) })
