-- ===== src/Storage/Tests.antt =====
-- engine.cc and rack.cc: a rack of two effects on its way through a file.
use Prim.Native.String.{String}
use amprack_6_pc.Base.{
  ℕ, zero, suc, ◌+◌, ◌-◌, ◌≡◌, refl, sym, ap, ◌∙◌, ◌>>=◌, arith, true, false, Option, none, some,
  List, [], ◌∷◌, map, replicate, if◌then◌else◌,
}
use amprack_6_pc.Plugin.{Plugin, lilv}
use amprack_6_pc.Processor.{Slot}
use amprack_6_pc.Rack.Adding.{Catalogue, found, made, find_entry}
use amprack_6_pc.Rack.Adding.Loaded.{Shows}
use amprack_6_pc.Patch.{
  Knob, Effect, Saved, Toolkit, ControlType, float_type, atom_type, save_effect, is_skipped,
  is_file,
}
use amprack_6_pc.Patch.Restore.{NoSemicolon, NoLv2Ports, restored}
use amprack_6_pc.Files.{Bytes, split_last, behind_last}
use amprack_6_pc.Decimal.{key_of}
use amprack_6_pc.Sound.{Player, Studio, SoundInfo, wild, valid, follow, is_null, set_plugin_file}
use amprack_6_pc.Sound.Dangling.{Dangles, set_plugin_file-Dangles}
use amprack_6_pc.Storage.{
  Library, Loader, Desk, Preset, escaped, give_file, add_player, cleared, save_preset, load_json,
  load_file,
}
use amprack_6_pc.Decimal.Keys.{lt_bytes, Increasing, keyed-Increasing}
use amprack_6_pc.Storage.Panels.{Known}
use amprack_6_pc.Storage.Loaded.{plugins_of, panels_of, give_found, files_after, load_json-Shows}
use amprack_6_pc.Storage.RoundTrip.{
  own_files, after_save, load_file-save_preset, load_file-sound_faults,
}

abbrev from_digits : List ℕ → ℕ
from_digits [] = 0
from_digits (c ∷ cs) = c - 60

abbrev toolkit : Toolkit ℕ (List ℕ)
toolkit = record {
  to_string = λ n. (60 + n) ∷ [];
  atof = from_digits;
  new_slider = λ lo hi v. [];
  set_value = λ v s. v ∷ s;
}

digits-NoSemicolon : (v : ℕ) → NoSemicolon (toolkit.to_string v)
unfolding NoSemicolon
digits-NoSemicolon v = (ground arith, tt)

-- An object as a list that is kept sorted by the keys.
insert_sorted : Bytes × Saved → List (Bytes × Saved) → List (Bytes × Saved)
insert_sorted x [] = x ∷ []
insert_sorted x (y ∷ ys) = if lt_bytes x.0 y.0 then x ∷ y ∷ ys else y ∷ insert_sorted x ys

sorted : List (Bytes × Saved) → List (Bytes × Saved)
unfolding insert_sorted
sorted [] = []
sorted (x ∷ xs) = insert_sorted x (sorted xs)

sorted-Increasing : (kvs : List (Bytes × Saved)) → Increasing kvs → sorted kvs ≡ kvs
unfolding sorted insert_sorted
sorted-Increasing [] h = refl
sorted-Increasing (x ∷ []) h = refl
sorted-Increasing (x ∷ y ∷ rest) h =
    ap (insert_sorted x) (sorted-Increasing (y ∷ rest) h.1) ∙ rw (h.0) refl

abbrev knob : ControlType → ℕ → Knob ℕ
knob kind v = record { kind = kind; min = 0; max = 9; val = 5; def = v }

abbrev drive : Effect ℕ
drive = record {
  lv2_name = "drive";
  loaded_file_name = "";
  loaded_file_type = 0;
  controls = knob float_type 1 ∷ knob float_type 2 ∷ [];
}

abbrev cabinet : Effect ℕ
cabinet = record {
  lv2_name = "cabinet";
  loaded_file_name = "room.wav";
  loaded_file_type = 1;
  controls = knob atom_type 0 ∷ knob float_type 7 ∷ [];
}

abbrev plugin : String → ℕ → Plugin ℕ
plugin name i = record {
  lv2_name = name;
  active = true;
  kind = lilv;
  input_port = some 0;
  input_port2 = none;
  output_port = some 1;
  output_port2 = none;
  run_adding_gain = 1;
  handle = none;
  descriptor = none;
  instance_ptr = some i;
}

abbrev catalogue : Catalogue ℕ
catalogue = record {
  lv2_json =
      record { name = "drive"; library = "drive"; index = 1 }
      ∷ record { name = "cabinet"; library = "cabinet"; index = 2 }
      ∷ [];
  ladspa_json = [];
  load = λ library index. some (plugin library index);
}

-- New plugins have other values.
abbrev knobs_by : Option ℕ → List (Knob ℕ)
knobs_by (some (suc zero)) = knob float_type 5 ∷ knob float_type 5 ∷ []
knobs_by _ = knob atom_type 5 ∷ knob float_type 5 ∷ []

abbrev knobs : Plugin ℕ → List (Knob ℕ)
knobs p = knobs_by p.instance_ptr

abbrev written : Preset
written = record {
  name = 97 ∷ [];
  desc = 98 ∷ [];
  controls = some (map (save_effect toolkit) (drive ∷ cabinet ∷ []));
}

-- A library that knows one text.
abbrev library : Library
library = record {
  json = record { parse = λ t. some written; dump = λ j. 123 ∷ 125 ∷ [] };
  elements = λ kvs. map (λ x. x.1) (sorted kvs);
  escape = λ s. s;
  escape_text = λ t. t;
  empty_is_null = false;
}

-- A reverb with a sound file, as the only effect.
abbrev reverb : Effect ℕ
reverb = record {
  lv2_name = "cabinet";
  loaded_file_name = "room.wav";
  loaded_file_type = 0;
  controls = knob atom_type 0 ∷ knob float_type 7 ∷ [];
}

abbrev sound_written : Preset
sound_written = record {
  name = 97 ∷ [];
  desc = 98 ∷ [];
  controls = some (map (save_effect toolkit) (reverb ∷ []));
}

abbrev sound_library : Library
sound_library = record library {
  json = record { parse = λ t. some sound_written; dump = λ j. 123 ∷ 125 ∷ [] };
}

abbrev empty_slot : Slot ℕ
empty_slot = record {
  input_port = none;
  input_port2 = none;
  output_port = none;
  output_port2 = none;
  run_adding_gain = 0;
  handle = none;
  descriptor = none;
  lilv_instance = none;
}

-- The plugins are made by liblilv; sound files have two frames.
abbrev player : Player
player = record {
  lv2_name = 112 ∷ [];
  kind = lilv;
  descriptor = wild;
  lv2_descriptor = valid;
  connections = [];
  loaded_file_name = [];
  loaded_file_type = none;
}

abbrev mono : SoundInfo ℕ
mono = record { frames = 2; channels = 1; readable = 2; samples = 5 ∷ 6 ∷ [] }

abbrev loader : Loader ℕ ℕ
loader = record { sf_open = λ f. some mono; player_of = λ q. player; bytes = λ s. 7 ∷ [] }

abbrev desk : Desk ℕ (List ℕ) ℕ
desk = record {
  rack = record {
    engine = record {
      active_plugins = [];
      processor = record {
        slots = replicate 10 empty_slot;
        active_plugins = 0;
        bypass = false;
        recording = false;
      };
    };
    uiv = [];
  };
  panels = [];
  studio = record {
    players = player ∷ [];
    bypass = false;
    memory = [];
    fs = record { files = []; directories = λ files p. none; writable = λ p. true };
    home = 104 ∷ [];
  };
}

drive-Known : Known library toolkit catalogue knobs drive (plugin "drive" 1)
unfolding found made find_entry NoLv2Ports is_skipped is_file
drive-Known = record {
  by_name = refl;
  shape = (refl, refl, refl, refl, (refl, refl, refl, refl, tt));
  plain = (refl, (refl, tt));
  name = refl;
  file = refl;
  text = refl;
}

cabinet-Known : Known library toolkit catalogue knobs cabinet (plugin "cabinet" 2)
unfolding found made find_entry NoLv2Ports is_skipped is_file
cabinet-Known = record {
  by_name = refl;
  shape = (refl, refl, refl, refl, (refl, refl, refl, refl, tt));
  plain = (refl, (refl, tt));
  name = refl;
  file = refl;
  text = refl;
}

two_keys :
    (a b : Saved) → sorted ((key_of 0, a) ∷ (key_of 1, b) ∷ []) ≡ (key_of 0, a) ∷ (key_of 1, b) ∷ []
two_keys a b =
    sorted-Increasing ((key_of 0, a) ∷ (key_of 1, b) ∷ [])
      (keyed-Increasing 0 (a ∷ b ∷ []) (omega arith))

one_key : (a : Saved) → sorted ((key_of 0, a) ∷ []) ≡ (key_of 0, a) ∷ []
one_key a = sorted-Increasing ((key_of 0, a) ∷ []) (keyed-Increasing 0 (a ∷ []) (omega arith))

abbrev saved_desk : Desk ℕ (List ℕ) ℕ
saved_desk =
    after_save library toolkit loader catalogue knobs (drive ∷ cabinet ∷ []) (47 ∷ 97 ∷ [])
      (98 ∷ []) desk

-- The two plugins before the second one is given its file.
abbrev two_players : Studio ℕ
two_players = record saved_desk.studio { players = player ∷ player ∷ [] }

cabinet_loads :
    (s' : Studio ℕ) × (set_plugin_file 1 (7 ∷ []) two_players ≡ some s')
    × Dangles 1 (7 ∷ []) 1 player two_players s'
unfolding follow is_null
cabinet_loads = set_plugin_file-Dangles 1 (7 ∷ []) two_players player refl refl

files_load :
    own_files library toolkit loader catalogue knobs 0
      ((drive, plugin "drive" 1) ∷ (cabinet, plugin "cabinet" 2) ∷ [])
      (cleared saved_desk.studio)
    ≡ some cabinet_loads.0
unfolding own_files give_file add_player save_effect
files_load = ap (λ o. o >>= λ s. some s) cabinet_loads.1

load_file-save_preset_example :
    ((save_preset library toolkit (drive ∷ cabinet ∷ []) (47 ∷ 97 ∷ []) (98 ∷ []) desk.studio.fs).0
      ≡ true)
    × ((d' : Desk ℕ (List ℕ) ℕ) × (load_file library toolkit loader catalogue knobs
            (47 ∷ 97 ∷ [])
            saved_desk
          ≡ some d')
        × Shows catalogue [] d'.rack (plugin "drive" 1 ∷ plugin "cabinet" 2 ∷ [])
        × (d'.panels ≡ ((1 ∷ 5 ∷ []) ∷ (2 ∷ 5 ∷ []) ∷ []) ∷ ((7 ∷ 5 ∷ []) ∷ []) ∷ [])
        × (d'.studio ≡ cabinet_loads.0))
unfolding restored is_file save_effect behind_last split_last
load_file-save_preset_example =
    load_file-save_preset library toolkit loader catalogue knobs drive (plugin "drive" 1)
      ((cabinet, plugin "cabinet" 2) ∷ []) (47 ∷ 97 ∷ []) (98 ∷ []) desk digits-NoSemicolon
      (λ kvs h. ap (map (λ x. x.1)) (sorted-Increasing kvs h))
      (ap
        (λ cs.
          some (record { name = 97 ∷ []; desc = 98 ∷ []; controls = some (map (λ x. x.1) cs) }))
        (sym (two_keys (save_effect toolkit drive) (save_effect toolkit cabinet))))
      (drive-Known, (cabinet-Known, tt)) (omega arith) refl refl cabinet_loads.0 files_load

reverb-Known : Known sound_library toolkit catalogue knobs reverb (plugin "cabinet" 2)
unfolding found made find_entry NoLv2Ports is_skipped is_file
reverb-Known = record {
  by_name = refl;
  shape = (refl, refl, refl, refl, (refl, refl, refl, refl, tt));
  plain = (refl, (refl, tt));
  name = refl;
  file = refl;
  text = refl;
}

load_file-sound_faults_example :
    ((save_preset sound_library toolkit (reverb ∷ []) (47 ∷ 97 ∷ []) (98 ∷ []) desk.studio.fs).0
      ≡ true)
    × (load_file sound_library toolkit loader catalogue knobs (47 ∷ 97 ∷ []) (
          after_save sound_library toolkit loader catalogue knobs
            (reverb ∷ [])
            (47 ∷ 97 ∷ [])
            (98 ∷ [])
            desk)
        ≡ none)
unfolding save_effect behind_last split_last follow
load_file-sound_faults_example =
    load_file-sound_faults sound_library toolkit loader catalogue knobs reverb (plugin "cabinet" 2)
      [] (47 ∷ 97 ∷ []) (98 ∷ []) desk digits-NoSemicolon
      (λ kvs h. ap (map (λ x. x.1)) (sorted-Increasing kvs h))
      (ap
        (λ cs.
          some (record { name = 97 ∷ []; desc = 98 ∷ []; controls = some (map (λ x. x.1) cs) }))
        (sym (one_key (save_effect toolkit reverb))))
      (reverb-Known, tt) (omega arith) refl refl "room.wav" mono refl refl refl refl

-- A preset with a plugin that the catalogue does not have before one that it has.
abbrev saved : String → Option (String × ℕ) → Saved
saved name file = record { name = name; file = file; controls = 67 ∷ 59 ∷ [] }

abbrev downloaded : List Saved
downloaded = saved "fuzz" none ∷ saved "cabinet" none ∷ []

downloaded_files :
    files_after library toolkit loader catalogue knobs 0 downloaded (cleared desk.studio)
    ≡ some (record desk.studio { players = player ∷ [] })
unfolding files_after give_found give_file add_player escaped found made find_entry
downloaded_files = refl

load_json-Shows_example :
    (d' : Desk ℕ (List ℕ) ℕ) × (load_json library toolkit loader catalogue knobs
        (record { name = []; desc = []; controls = some downloaded })
        desk
      ≡ some d')
    × Shows catalogue [] d'.rack (plugin "cabinet" 2 ∷ [])
    × (d'.panels ≡ panels_of library toolkit loader catalogue knobs downloaded)
    × (d'.studio ≡ record desk.studio { players = player ∷ [] })
unfolding plugins_of found made find_entry
load_json-Shows_example =
    load_json-Shows library toolkit loader catalogue knobs downloaded
      (record { name = []; desc = []; controls = some downloaded }) desk
      (record desk.studio { players = player ∷ [] }) refl refl (omega arith) downloaded_files
