-- ===== src/Engine/Tests.antt =====
-- engine.cc and process.cc on racks of small plugins. A plugin adds its instance's number to every
-- sample.
use amprack_6_pc.Base.{
  ℕ, ◌+◌, ◌≡◌, refl, Bool, true, false, List, [], ◌∷◌, some, none, arith, length, map, replicate,
}
use amprack_6_pc.Manager.{Manager}
use amprack_6_pc.Plugin.{Plugin, lilv}
use amprack_6_pc.Processor.{Slot, Lilv, process}
use amprack_6_pc.Engine.{Engine, build_plugin_chain, move_active_plugin_down}
use amprack_6_pc.Engine.Audio.{rack_block, process-rack}
use amprack_6_pc.Engine.Build.{plugin_wiring, chain, build_plugin_chain-entries}
use amprack_6_pc.Engine.Order.{Reordered, move_down-swaps}

abbrev host : Lilv ℕ
host = record { Instance = ℕ; connect_port = λ x p. x; run = λ x n buf. (x, map (λ y. y + x) buf) }

abbrev effect : ℕ → Bool → Plugin ℕ
effect i on = record {
  lv2_name = "effect";
  active = on;
  kind = lilv;
  input_port = some 0;
  input_port2 = none;
  output_port = some 1;
  output_port2 = none;
  run_adding_gain = 1;
  handle = some i;
  descriptor = none;
  instance_ptr = some i;
}

abbrev empty_slot : Slot ℕ
empty_slot = record {
  input_port = none;
  input_port2 = none;
  output_port = none;
  output_port2 = none;
  run_adding_gain = 0;
  handle = none;
  descriptor = none;
  lilv_instance = none;
}

abbrev rack_of : List (Plugin ℕ) → Engine ℕ
rack_of ps = record {
  active_plugins = ps;
  processor = record {
    slots = replicate 10 empty_slot;
    active_plugins = 0;
    bypass = false;
    recording = false;
  };
}

-- Two of the three effects are switched on.
abbrev three : Engine ℕ
three = rack_of (effect 0 true ∷ effect 1 false ∷ effect 2 true ∷ [])

build_plugin_chain-entries_example :
    (e' : Engine ℕ) × (build_plugin_chain three ≡ some e')
    × (chain e'.processor ≡ plugin_wiring (effect 0 true) ∷ plugin_wiring (effect 2 true) ∷ [])
    × (e'.active_plugins ≡ three.active_plugins)
    × (e'.processor.active_plugins ≡ 2)
    × (length e'.processor.slots ≡ 10)
    × (e'.processor.bypass ≡ false)
build_plugin_chain-entries_example = build_plugin_chain-entries three refl (omega arith)

abbrev eleven : Engine ℕ
eleven = rack_of (replicate 11 (effect 0 true))

abbrev quiet : Manager ℕ Unit
quiet = record {
  heap = [];
  queue = record { buffer = []; write_counter = 0; read_counter = 0 };
  pool = none;
  buffer_size = 0;
  buffer_counter = 0;
  ready = false;
  functions = [];
  functions_count = 0;
  thread_started = false;
}

process-rack_example :
    (e' : Engine ℕ) × (build_plugin_chain three ≡ some e')
    × (process host e'.processor 2 (1 ∷ 2 ∷ []) (0 ∷ 0 ∷ []) (10 ∷ 20 ∷ 30 ∷ []) quiet
        ≡ rack_block host 2
            (1 ∷ 2 ∷ [])
            (0 ∷ 0 ∷ [])
            (10 ∷ 20 ∷ 30 ∷ [])
            quiet
            (plugin_wiring (effect 0 true) ∷ plugin_wiring (effect 2 true) ∷ []))
process-rack_example =
    process-rack host three 2 (1 ∷ 2 ∷ []) (0 ∷ 0 ∷ []) (10 ∷ 20 ∷ 30 ∷ []) quiet refl (omega arith)
      refl

abbrev swapped : List (Plugin ℕ)
swapped = effect 1 false ∷ effect 0 true ∷ effect 2 true ∷ []

move_down-swaps_example :
    (e' : Engine ℕ) × (move_active_plugin_down 0 three ≡ some (1, e')) × Reordered swapped e'
move_down-swaps_example =
    move_down-swaps three [] (effect 0 true) (effect 1 false) (effect 2 true ∷ []) refl refl
      (omega arith) 0 refl
